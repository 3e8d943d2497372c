-- ===== src/Crypto.antt =====
-- The serialised form of a block (src/utils/serialize.rs, src/crypto/sha512.rs), and the services of
-- src/crypto that staging calls. Signing, verification and the hash function rest on libraries, so
-- they are a parameter.
pub mod Serialize
pub mod Layout
pub mod Keys
pub mod Service
pub mod Prepare
pub mod Verify
pub mod Accept
pub mod Delivery
pub mod Certificates
pub mod ViewChanges
use powder_raft.Common.{
  ℕ, ◌+◌, Bool, ◌++◌, Option, none, some, Bytes, length, take, drop, replicate, ltb, if◌then◌else◌,
}
use powder_raft.Types.{Name, ViewChange}

abbrev pub signature_length : ℕ
signature_length = 64

abbrev pub digest_length : ℕ
digest_length = 64

unfoldable pub default_hash : Bytes
default_hash = replicate digest_length 0

-- The bytes behind the signature hold the parent's hash.
unfoldable pub get_parent_hash_in_proto_block_ser : Bytes → Option Bytes
get_parent_hash_in_proto_block_ser block =
    if ltb (length block) (digest_length + signature_length)
    then none
    else some (take digest_length (drop signature_length block))

pub record Crypto : Type 0 where
  -- `hash` of sha512.rs
  pub digest : Bytes → Bytes
  -- A signature by this node.
  pub sign : Bytes → Bytes
  -- Whether a signature on a hash is that of a node.
  pub verify : Bytes → Name → Bytes → Bool
  -- The view change message with its signature filled in.
  pub prepare_vc : ViewChange → ViewChange
  -- The hash of a serialised block, if the block passes verification with so many votes for each
  -- certificate in it.
  pub verify_block_ser : ℕ → Bytes → Option Bytes

-- `body || parent || signature` is hashed.
unfoldable pub hash_proto_block_ser : Crypto → Bytes → Bytes
hash_proto_block_ser c block = c.digest (
    drop (digest_length + signature_length) block
    ++ (take digest_length (drop signature_length block) ++ take signature_length block))
