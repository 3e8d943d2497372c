-- ===== src/Crypto/Service.antt =====
-- The commands of `CryptoService` (src/crypto/service.rs) that prepare and check blocks. A task that
-- panics answers none of them.
use powder_raft.Common.{
  ℕ, none, bytes_eq, take, Option, length, Bool, List, some, drop, replicate, ltb, Bytes, map_or,
  true, map, false, ◌+◌, ◌++◌, ◌∷◌, ◌&&◌, ◌==◌, [], if◌then◌else◌,
}
use powder_raft.Crypto.Serialize.{
  update_parent_hash_in_proto_block_ser, Codec, cleared, deserialize_proto_block,
  update_signature_in_proto_block_ser, serialize_proto_block_nascent,
}
use powder_raft.Crypto.Keys.{PublicKey, get_pubkey, verify, KeyStore, sign, Primitives}
use powder_raft.Common.Outcome.{Outcome, done, panicked, ◌>>=◌}
use powder_raft.Config.{Config, get_leader_for_view}
use powder_raft.Crypto.{default_hash, digest_length, signature_length}
use powder_raft.Types.{CachedBlock, QuorumCertificate, NameWithSignature, proposer_sig, Block}

-- The keys of a certificate's signers, if all are known and all signatures have their length.
unfoldable pub qc_keys : KeyStore → List NameWithSignature → Option (List PublicKey)
unfolding get_pubkey
qc_keys keys [] = some []
qc_keys keys (s ∷ sigs) =
    let rest = qc_keys keys sigs in
    if length s.sig == signature_length
    then elim (get_pubkey s.name keys) [
      | none ↦ none
      | some key ↦ elim rest [ none ↦ none | some others ↦ some (key ∷ others) ]
    ]
    else none

unfoldable pub verify_qc : Primitives → KeyStore → QuorumCertificate → ℕ → Bool
unfolding qc_keys
verify_qc prims keys qc min_len = elim (qc_keys keys qc.sig) [
  | none ↦ false
  | some known ↦
      if ltb (length known) min_len
      then false
      else prims.verify_batch (replicate (length known) qc.digest) (map (λ s. s.sig) qc.sig) known
]

-- A parent's hash, at hand or to come from a channel; `none` if the sender is gone.
pub data FutureHash : Type 0 where
  no_hash : FutureHash
  immediate : Bytes → FutureHash
  future : Option Bytes → FutureHash
  future_result : Option (Option Bytes) → FutureHash

unfoldable pub await_hash : FutureHash → Outcome Bytes
await_hash no_hash = done default_hash
await_hash (immediate val) = done val
await_hash (future received) = map_or panicked done received
await_hash (future_result received) = map_or panicked (map_or panicked done) received

abbrev pub add_signature : Primitives → KeyStore → Bool → Block → Bytes → Outcome (Block × Bytes)
add_signature prims keys false block buf = done (block, buf)
add_signature prims keys true block buf =
    let sig = sign prims keys (prims.hash (drop signature_length buf)) in
    do
      buf' ← update_signature_in_proto_block_ser buf sig
      done (record block { sig = some (proposer_sig sig) }, buf')

-- The hash is fed body, parent and signature, as soon as each is there.
unfoldable pub prepare_block :
    Primitives → Codec → KeyStore → Block → Bool → FutureHash → Outcome CachedBlock
unfolding serialize_proto_block_nascent await_hash update_parent_hash_in_proto_block_ser
    update_signature_in_proto_block_ser
prepare_block prims codec keys proto_block must_sign parent_hash_rx = do
  buf ← map_or panicked done (serialize_proto_block_nascent codec (cleared proto_block))
  parent ← await_hash parent_hash_rx
  buf' ← update_parent_hash_in_proto_block_ser buf parent
  (block, buf'') ←
      add_signature prims keys must_sign (record proto_block { parent = parent; sig = none }) buf'
  done (record {
    block = block;
    block_ser = buf'';
    block_hash = prims.hash (
        drop (digest_length + signature_length) buf
        ++ (take digest_length (drop signature_length buf') ++ take signature_length buf''));
  })

-- `hash_proto_block_ser`: the slices of a short block panic.
unfoldable pub hash_proto_block_ser : Primitives → Bytes → Outcome Bytes
hash_proto_block_ser prims bytes =
    if ltb (length bytes) (digest_length + signature_length)
    then panicked
    else done (
        prims.hash (
          drop (digest_length + signature_length) bytes
          ++ (take digest_length (drop signature_length bytes) ++ take signature_length bytes)))

-- The answers of a check.
pub data BlockError : Type 0 where
  not_stored : BlockError
  invalid_hash : BlockError
  invalid_signature : BlockError
  invalid_qc : BlockError
  qc_without_signed_block : BlockError
  decode_error : BlockError

pub data Checked : Type 0 where
  accepted : CachedBlock → Checked
  refused : BlockError → Checked

abbrev pub cached : Bytes → Bytes → Block → CachedBlock
cached ser hsh block = record { block = block; block_ser = ser; block_hash = hsh }

-- `CheckBlockSer`, on what the storage answered.
unfoldable pub check_block_ser : Primitives → Codec → Bytes → Option Bytes → Outcome Checked
unfolding hash_proto_block_ser deserialize_proto_block
check_block_ser prims codec hsh none = done (refused not_stored)
check_block_ser prims codec hsh (some block_ser) = do
  chk_hsh ← hash_proto_block_ser prims block_ser
  elim (bytes_eq chk_hsh hsh) [
    | false ↦ done (refused invalid_hash)
    | true ↦ do
      block ← deserialize_proto_block codec block_ser
      done (map_or (refused decode_error) (λ b. accepted (cached block_ser hsh b)) block)
  ]

abbrev pub all : {A : Type 0} → (A → Bool) → List A → Bool
all p [] = true
all p (x ∷ xs) = p x && all p xs

-- What is wrong with a block that was read.
unfoldable pub block_error :
    Primitives → KeyStore → Config → ℕ → Bytes → Block → Outcome (Option BlockError)
unfolding verify verify_qc get_leader_for_view
block_error prims keys config min_qc_len block_ser block = elim block.sig [
  | some (proposer_sig sig) ↦ do
    leader_for_view ← map_or panicked done (get_leader_for_view config block.view)
    let partial_hsh = prims.hash (drop signature_length block_ser)
    done (
        if length sig == signature_length && verify prims keys leader_for_view sig partial_hsh
        then if all (λ qc. verify_qc prims keys qc min_qc_len) block.qc
          then none
          else some invalid_qc
        else some invalid_signature)
  | _ ↦ done (if ltb 0 (length block.qc) then some qc_without_signed_block else none)
]

-- `VerifyBlockSer`. The block is read before it is hashed.
unfoldable pub verify_block_ser :
    Primitives → Codec → KeyStore → Config → ℕ → Bytes → Outcome Checked
unfolding block_error hash_proto_block_ser deserialize_proto_block
verify_block_ser prims codec keys config min_qc_len block_ser = do
  block ← deserialize_proto_block codec block_ser
  hsh ← hash_proto_block_ser prims block_ser
  elim block [
    | none ↦ done (refused decode_error)
    | some b ↦ do
      error ← block_error prims keys config min_qc_len block_ser b
      done (map_or (accepted (cached block_ser hsh b)) refused error)
  ]
