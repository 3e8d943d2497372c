-- ===== src/Crypto/Keys.antt =====
-- `KeyStore` of src/crypto/ed25519.rs. Ed25519 and SHA-512 are libraries, so they are a parameter.
use powder_raft.Common.{none, List, some, Option, false, Bytes-discrete, Bytes, Bool, lookup}
use powder_raft.Types.{Name}

abbrev pub PublicKey : Type 0
PublicKey = Bytes

abbrev pub PrivateKey : Type 0
PrivateKey = Bytes

pub record Primitives : Type 0 where
  -- SHA-512 of some data.
  pub hash : Bytes → Bytes
  -- The signature of some data.
  pub sign_data : PrivateKey → Bytes → Bytes
  -- Whether a signature fits some data.
  pub verify_data : PublicKey → Bytes → Bytes → Bool
  -- `verify_batch`, of data, signatures and keys.
  pub verify_batch : List Bytes → List Bytes → List PublicKey → Bool

pub record KeyStore : Type 0 where
  pub pub_keys : List (Name × PublicKey)
  pub priv_key : PrivateKey

unfoldable pub get_pubkey : Name → KeyStore → Option PublicKey
get_pubkey name keys = lookup Bytes-discrete name keys.pub_keys

abbrev pub sign : Primitives → KeyStore → Bytes → Bytes
sign prims keys message = prims.sign_data keys.priv_key message

unfoldable pub verify : Primitives → KeyStore → Name → Bytes → Bytes → Bool
unfolding get_pubkey
verify prims keys name sig message = elim (get_pubkey name keys) [
  | none ↦ false
  | some key ↦ prims.verify_data key message sig
]
