-- ===== src/Crypto/Verify.antt =====
-- What other nodes make of a serialised block.
use powder_raft.Common.{
  ℕ, Bytes, length, false, Option, refl, Bool, some, true, none, All, List, arith, drop, ◌≡◌, ◌∙◌,
  ◌∷◌, [], if◌then◌else◌, ◌≢◌, inr, inl, In, Bool-cases, ◌⊎◌,
}
use powder_raft.Types.{no_sig, Sig, Block, proposer_sig, QuorumCertificate}
use powder_raft.Crypto.Serialize.{
  serialize_proto_block_prefilled, Codec, is_null, signature_bytes, deserialize_proto_block,
  cleared,
}
use powder_raft.Crypto.Keys.{Primitives, KeyStore, verify}
use powder_raft.Crypto.{digest_length, signature_length}
use powder_raft.Crypto.Service.{
  verify_qc, all, invalid_signature, invalid_qc, BlockError, qc_without_signed_block,
}
use powder_raft.Common.Outcome.{done}
use powder_raft.Crypto.Layout.{append-HasParts, deserialize-HasParts}
use powder_raft.Config.{get_leader_for_view, Config}

-- What a reader makes of the signature field: no signature and zeros read alike.
abbrev pub read_back : Option Sig → Option Sig
read_back none = some no_sig
read_back (some s) = some s

-- A signature has its length and is not zero.
abbrev pub SigFits : Option Sig → Type 0
SigFits none = Unit {0}
SigFits (some no_sig) = Unit {0}
SigFits (some (proposer_sig sig)) = (length sig ≡ signature_length) × (is_null sig ≡ false)

signature_bytes-SigFits :
    (s : Option Sig) → SigFits s → length (signature_bytes s) ≡ signature_length
signature_bytes-SigFits none f = refl
signature_bytes-SigFits (some no_sig) f = refl
signature_bytes-SigFits (some (proposer_sig sig)) f = f.0

read_signature :
    (s : Option Sig)
    → SigFits s
    → some (if is_null (signature_bytes s) then no_sig else proposer_sig (signature_bytes s))
      ≡ read_back s
unfolding is_null
read_signature none f = refl
read_signature (some no_sig) f = refl
read_signature (some (proposer_sig sig)) f = rw f.1 refl

-- A block whose parent hash has its length and whose signature, if it has one, has its length and
-- is not zero, is read back from its serialised form, where no signature reads as `NoSig`, if prost
-- reads back the body it wrote.
pub deserialize_proto_block-prefilled :
    (codec : Codec) (block : Block)
    → codec.decode (codec.encode (cleared block)) ≡ some (cleared block)
    → length block.parent ≡ digest_length
    → SigFits block.sig
    → deserialize_proto_block codec (serialize_proto_block_prefilled codec block)
      ≡ done (some (record block { sig = read_back block.sig }))
unfolding serialize_proto_block_prefilled
deserialize_proto_block-prefilled codec block d p f =
    deserialize-HasParts _ _ _ _
      (append-HasParts (signature_bytes block.sig) block.parent (codec.encode (cleared block))
        (signature_bytes-SigFits block.sig f) p)
      codec (cleared block) d
    ∙ rw (read_signature block.sig f) refl

-- A block that was accepted has a reason: the leader of its view signed it and its certificates
-- pass, or it has no signature and no certificate.
pub data IsVerified (prims : Primitives) (keys : KeyStore) (config : Config) (min_qc_len : ℕ)
    (block_ser : Bytes) (block : Block) : Type 0 where
  by_leader :
      (leader sig : Bytes)
      → get_leader_for_view config block.view ≡ some leader
      → block.sig ≡ some (proposer_sig sig)
      → length sig ≡ signature_length
      → verify prims keys leader sig (prims.hash (drop signature_length block_ser)) ≡ true
      → All (λ qc. verify_qc prims keys qc min_qc_len ≡ true) block.qc
      → IsVerified prims keys config min_qc_len block_ser block
  without_certificates :
      ((sig : Bytes) → block.sig ≢ some (proposer_sig sig))
      → block.qc ≡ []
      → IsVerified prims keys config min_qc_len block_ser block

-- What is wrong with a block that was refused: the signature of the leader does not fit, or one of
-- the certificates does not pass, or there are certificates without a signature.
pub data IsFault (prims : Primitives) (keys : KeyStore) (config : Config) (min_qc_len : ℕ)
    (block_ser : Bytes) (block : Block) : BlockError → Type 0 where
  bad_signature :
      (leader sig : Bytes)
      → get_leader_for_view config block.view ≡ some leader
      → block.sig ≡ some (proposer_sig sig)
      → (length sig ≢ signature_length)
        ⊎ (verify prims keys leader sig (prims.hash (drop signature_length block_ser)) ≡ false)
      → IsFault prims keys config min_qc_len block_ser block invalid_signature
  bad_certificate :
      (sig : Bytes) (qc : QuorumCertificate)
      → block.sig ≡ some (proposer_sig sig)
      → In qc block.qc
      → verify_qc prims keys qc min_qc_len ≡ false
      → IsFault prims keys config min_qc_len block_ser block invalid_qc
  unsigned_certificate :
      (qc : QuorumCertificate)
      → ((sig : Bytes) → block.sig ≢ some (proposer_sig sig))
      → In qc block.qc
      → IsFault prims keys config min_qc_len block_ser block qc_without_signed_block

pub all-In :
    {A : Type 0} (p : A → Bool) (xs : List A) → all p xs ≡ false → (x : A) × In x xs × (p x ≡ false)
all-In p [] h = absurd (ground (arith, h))
all-In p (x ∷ xs) h = elim (Bool-cases (p x)) [
  | inl e ↦ let (y, here, fails) = all-In p xs (ground (arith, h, e)) in (y, inr here, fails)
  | inr e ↦ (x, inl refl, e)
]

pub all-All : {A : Type 0} (p : A → Bool) (xs : List A) → all p xs ≡ true → All (λ x. p x ≡ true) xs
all-All p [] h = tt
all-All p (x ∷ xs) h = ground (arith, all-All p xs)

pub All-all : {A : Type 0} (p : A → Bool) (xs : List A) → All (λ x. p x ≡ true) xs → all p xs ≡ true
All-all p [] h = refl
All-all p (x ∷ xs) h = rw (h.0, All-all p xs h.1) refl
