-- ===== src/Crypto/Serialize.antt =====
-- Serialised blocks, `signature || parent hash || body` (src/utils/serialize.rs). Writing and
-- reading the body is prost's, so it is a parameter.
use powder_raft.Common.{
  ℕ, Bytes, length, false, some, drop, true, not, Bool, none, Option, replicate, take, ltb, ◌+◌,
  ◌++◌, ◌∷◌, ◌&&◌, ◌||◌, ◌==◌, [], if◌then◌else◌,
}
use powder_raft.Types.{no_sig, Sig, Block, proposer_sig}
use powder_raft.Common.Outcome.{Outcome, panicked, done}
use powder_raft.Crypto.{digest_length, signature_length}

-- `ProtoBlock::encode` and `decode`.
pub record Codec : Type 0 where
  pub encode : Block → Bytes
  pub decode : Bytes → Option Block

-- The fields that are not in the body.
abbrev pub cleared : Block → Block
cleared block = record block { parent = []; sig = none }

abbrev pub nulls : ℕ → Bytes
nulls n = replicate n 0

abbrev pub can_be_signed : Option Sig → Bool
can_be_signed none = true
can_be_signed (some no_sig) = true
can_be_signed (some (proposer_sig _)) = false

-- `None` is the error "Invalid new block".
unfoldable pub serialize_proto_block_nascent : Codec → Block → Option Bytes
serialize_proto_block_nascent codec block =
    if ltb 0 (length block.parent) || not (can_be_signed block.sig)
    then none
    else some (nulls signature_length ++ (nulls digest_length ++ codec.encode block))

abbrev pub signature_bytes : Option Sig → Bytes
signature_bytes (some (proposer_sig sig)) = sig
signature_bytes (some no_sig) = nulls signature_length
signature_bytes none = nulls signature_length

unfoldable pub serialize_proto_block_prefilled : Codec → Block → Bytes
serialize_proto_block_prefilled codec block =
    signature_bytes block.sig ++ (block.parent ++ codec.encode (cleared block))

-- The slice and the new part must have the same length, else the copy panics.
unfoldable pub update_parent_hash_in_proto_block_ser : Bytes → Bytes → Outcome Bytes
update_parent_hash_in_proto_block_ser block parent_hash =
    if ltb (length block) (signature_length + digest_length)
    then panicked
    else if length parent_hash == digest_length
    then done (
        take signature_length block
        ++ (parent_hash ++ drop (signature_length + digest_length) block))
    else panicked

-- The new signature has the right length by its type.
unfoldable pub update_signature_in_proto_block_ser : Bytes → Bytes → Outcome Bytes
update_signature_in_proto_block_ser block signature =
    if ltb (length block) signature_length
    then panicked
    else done (signature ++ drop signature_length block)

unfoldable pub is_null : Bytes → Bool
is_null [] = true
is_null (x ∷ xs) = x == 0 && is_null xs

-- `None` is the error "Invalid block length". A body that prost cannot read is a panic.
unfoldable pub deserialize_proto_block : Codec → Bytes → Outcome (Option Block)
unfolding is_null
deserialize_proto_block codec bytes =
    if ltb (length bytes) (digest_length + signature_length)
    then done none
    else elim (codec.decode (drop (digest_length + signature_length) bytes)) [
      | none ↦ panicked
      | some block ↦ done (
          some (record block {
            parent = take digest_length (drop signature_length bytes);
            sig = some (
                if is_null (take signature_length bytes)
                then no_sig
                else proposer_sig (take signature_length bytes));
          }))
    ]
