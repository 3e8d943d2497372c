-- ===== src/Crypto/Delivery.antt =====
-- A block that a leader prepares is accepted where it arrives.
use powder_raft.Common.{
  ℕ, refl, length, none, drop, All, some, Bytes, false, true, ◌≡◌, ◌∙◌, ◌++◌, Bytes-discrete,
  map_or, Bool, eqb_of_eq,
}
use powder_raft.Types.{CachedBlock, Block, Name, proposer_sig}
use powder_raft.Crypto.Prepare.{prepare_block-prefilled, prefilled-HasParts, prepared}
use powder_raft.Crypto.Serialize.{
  Codec, is_null, serialize_proto_block_prefilled, cleared, deserialize_proto_block,
}
use powder_raft.Config.{get_leader_for_view, Config}
use powder_raft.Crypto.Service.{
  block_error, accepted, cached, await_hash, prepare_block, verify_block_ser, FutureHash, verify_qc,
  check_block_ser, hash_proto_block_ser, decode_error, invalid_hash, refused, Checked,
}
use powder_raft.Crypto.Keys.{verify, Primitives, KeyStore, PublicKey, get_pubkey, sign}
use powder_raft.Crypto.Verify.{deserialize_proto_block-prefilled, All-all}
use powder_raft.Crypto.Layout.{hash-HasParts, HasParts}
use powder_raft.Crypto.{signature_length, digest_length}
use powder_raft.Common.Outcome.{done, ◌>>=◌, Outcome}

-- What the storage returns is the block, if it has the hash that was asked for.
check_block_ser-hash :
    (prims : Primitives) (codec : Codec) (ser hsh : Bytes) (b : Block)
    → hash_proto_block_ser prims ser ≡ done hsh
    → deserialize_proto_block codec ser ≡ done (some b)
    → check_block_ser prims codec hsh (some ser) ≡ done (accepted (cached ser hsh b))
unfolding check_block_ser
check_block_ser-hash prims codec ser hsh b h r = rw h (go (Bytes-discrete hsh hsh))
  where
    go :
        (d : Dec (hsh ≡ hsh))
        → (elim (elim d as (λ _. Bool) [ yes _ ↦ true | no _ ↦ false ]) as (λ _. Outcome Checked) [
          | false ↦ done (refused invalid_hash)
          | true ↦ deserialize_proto_block codec ser >>= λ block.
              done (map_or (refused decode_error) (λ b. accepted (cached ser hsh b)) block)
        ])
          ≡ done (accepted (cached ser hsh b))
    go (yes _) = rw r refl
    go (no f) = absurd (f refl)

no_error :
    (prims : Primitives) (keys : KeyStore) (config : Config) (min_qc_len : ℕ) (block_ser : Bytes)
    (block : Block) (leader sig : Bytes)
    → get_leader_for_view config block.view ≡ some leader
    → block.sig ≡ some (proposer_sig sig)
    → length sig ≡ signature_length
    → verify prims keys leader sig (prims.hash (drop signature_length block_ser)) ≡ true
    → All (λ qc. verify_qc prims keys qc min_qc_len ≡ true) block.qc
    → block_error prims keys config min_qc_len block_ser block ≡ done none
unfolding block_error
no_error prims keys config min_qc_len block_ser block leader sig l s e v q =
    rw
      (
        s,
        l,
        eqb_of_eq (length sig) 64 e,
        v,
        All-all (λ qc. verify_qc prims keys qc min_qc_len) block.qc q,
      )
      refl

-- `mine` are the leader's keys, `theirs` those of the node that receives the block.
module _ (prims : Primitives) (codec : Codec) (mine theirs : KeyStore) (config : Config)
    (leader : Name) (key : PublicKey)
    (sign_length : (message : Bytes) → length (sign prims mine message) ≡ signature_length)
    (sign_nonzero : (message : Bytes) → is_null (sign prims mine message) ≡ false)
    (known : get_pubkey leader theirs ≡ some key)
    (sign_verifies : (message : Bytes)
      → prims.verify_data key message (sign prims mine message) ≡ true) where
  -- A block that the leader of its view prepares and signs is accepted by `VerifyBlockSer` at a
  -- node that knows the leader's key, and by `CheckBlockSer` under its hash, as the very block, if
  -- its parent hash arrives and has its length, its certificates pass, prost reads back its body,
  -- and signatures have their length, are not zero and verify.
  pub verify_block_ser-prepared :
      (block : Block) (parent_hash_rx : FutureHash) (parent : Bytes) (min_qc_len : ℕ)
      → codec.decode (codec.encode (cleared block)) ≡ some (cleared block)
      → await_hash parent_hash_rx ≡ done parent
      → length parent ≡ digest_length
      → get_leader_for_view config block.view ≡ some leader
      → All (λ qc. verify_qc prims theirs qc min_qc_len ≡ true) block.qc
      → (c : CachedBlock) × (prepare_block prims codec mine block true parent_hash_rx ≡ done c)
        × (verify_block_ser prims codec theirs config min_qc_len c.block_ser ≡ done (accepted c))
        × (check_block_ser prims codec c.block_hash (some c.block_ser) ≡ done (accepted c))
  unfolding verify_block_ser verify
  verify_block_ser-prepared block rx parent min_qc_len d a p l q = (
    cached ser hsh full,
    prepare_block-prefilled prims codec mine sign_length block true rx parent a p ∙ rw hashed refl,
    rw
        (
          read,
          hashed,
          no_error prims theirs config min_qc_len ser full leader sig l refl (sign_length _)
              verified q,
        )
        refl,
    check_block_ser-hash prims codec ser hsh full hashed read,
  )
    where
      full : Block
      full = prepared prims codec mine true block parent

      ser : Bytes
      ser = serialize_proto_block_prefilled codec full

      sig : Bytes
      sig = sign prims mine (prims.hash (parent ++ codec.encode (cleared block)))

      parts : HasParts sig parent (codec.encode (cleared block)) ser
      parts = prefilled-HasParts prims codec mine sign_length true block parent p

      hsh : Bytes
      hsh = prims.hash (codec.encode (cleared block) ++ (parent ++ sig))

      hashed : hash_proto_block_ser prims ser ≡ done hsh
      hashed = hash-HasParts sig parent (codec.encode (cleared block)) ser parts prims

      read : deserialize_proto_block codec ser ≡ done (some full)
      read = deserialize_proto_block-prefilled codec full d p (sign_length _, sign_nonzero _)

      verified : verify prims theirs leader sig (prims.hash (drop signature_length ser)) ≡ true
      verified = rw (verify, known, parts.rest) (sign_verifies _)
