-- ===== src/Crypto/Prepare.antt =====
-- A block that a leader prepares is what the serialisation of the whole block gives.
use powder_raft.Common.{
  ℕ, some, true, arith, none, suc, Bool, refl, false, zero, Option, length, Bytes, ◌≡◌, ◌++◌, drop,
  take,
}
use powder_raft.Crypto.Serialize.{
  cleared, serialize_proto_block_prefilled, signature_bytes, nulls, Codec,
  serialize_proto_block_nascent,
}
use powder_raft.Crypto.Keys.{Primitives, sign, KeyStore}
use powder_raft.Crypto.Service.{
  FutureHash, prepare_block, await_hash, cached, hash_proto_block_ser, add_signature,
}
use powder_raft.Common.Outcome.{done, ◌>>=◌}
use powder_raft.Types.{proposer_sig, Block, Sig}
use powder_raft.Crypto.{signature_length, digest_length}
use powder_raft.Crypto.Layout.{
  append-HasParts, HasParts, update_parent_hash-HasParts, update_signature-HasParts, take-append,
  hash-HasParts,
}

length-nulls : (n : ℕ) → length (nulls n) ≡ n
length-nulls zero = refl
length-nulls (suc n) = omega (arith, length-nulls n)

-- The signature a block gets.
abbrev pub signed : Primitives → Codec → KeyStore → Bool → Block → Bytes → Option Sig
signed prims codec keys false block parent = none
signed prims codec keys true block parent =
    some (proposer_sig (sign prims keys (prims.hash (parent ++ codec.encode (cleared block)))))

abbrev pub prepared : Primitives → Codec → KeyStore → Bool → Block → Bytes → Block
prepared prims codec keys must_sign block parent = record block {
  parent = parent;
  sig = signed prims codec keys must_sign block parent;
}

module _ (prims : Primitives) (codec : Codec) (keys : KeyStore)
    (sign_length : (message : Bytes) → length (sign prims keys message) ≡ signature_length) where
  pub length-signature_bytes :
      (must_sign : Bool) (block : Block) (parent : Bytes)
      → length (signature_bytes (signed prims codec keys must_sign block parent)) ≡ signature_length
  length-signature_bytes true block parent = sign_length _
  length-signature_bytes false block parent = refl

  pub prefilled-HasParts :
      (must_sign : Bool) (block : Block) (parent : Bytes)
      → length parent ≡ digest_length
      → HasParts
          (signature_bytes (signed prims codec keys must_sign block parent))
          parent
          (codec.encode (cleared block))
          (serialize_proto_block_prefilled codec (prepared prims codec keys must_sign block parent))
  unfolding serialize_proto_block_prefilled
  prefilled-HasParts must_sign block parent p =
      append-HasParts _ parent _ (length-signature_bytes must_sign block parent) p

  -- With signatures of their length, and a parent hash that arrives and has its length,
  -- `PrepareBlock` gives the block with parent and signature filled in, the bytes that serialising
  -- that whole block gives, and the hash that hashing those bytes gives, although it patches and
  -- hashes piece by piece.
  pub prepare_block-prefilled :
      (block : Block) (must_sign : Bool) (parent_hash_rx : FutureHash) (parent : Bytes)
      → await_hash parent_hash_rx ≡ done parent
      → length parent ≡ digest_length
      → prepare_block prims codec keys block must_sign parent_hash_rx ≡ (
          hash_proto_block_ser prims (
            serialize_proto_block_prefilled codec
              (prepared prims codec keys must_sign block parent))
          >>= λ hsh. done (
              cached
                (serialize_proto_block_prefilled codec
                  (prepared prims codec keys must_sign block parent))
                hsh
                (prepared prims codec keys must_sign block parent)))
  unfolding prepare_block serialize_proto_block_nascent serialize_proto_block_prefilled
  prepare_block-prefilled block must_sign rx parent a p =
      rw (a, update_parent_hash-HasParts _ _ _ _ fresh parent p, fresh.tail) (go must_sign)
    where
      body : Bytes
      body = codec.encode (cleared block)

      fresh :
          HasParts
            (nulls signature_length)
            (nulls digest_length)
            body
            (nulls signature_length ++ (nulls digest_length ++ body))
      fresh = append-HasParts _ _ _ refl refl

      unsigned :
          HasParts (nulls signature_length) parent body (nulls signature_length ++ (parent ++ body))
      unsigned = append-HasParts _ _ _ refl p

      go :
          (b : Bool)
          → ((add_signature prims keys b
                (record block { parent = parent; sig = none })
                (nulls signature_length ++ (parent ++ body)))
              >>= λ (x : Block × Bytes). done (record {
                block = x.0;
                block_ser = x.1;
                block_hash = prims.hash (
                    body
                    ++ (take digest_length
                          (drop signature_length (nulls signature_length ++ (parent ++ body)))
                        ++ take signature_length x.1));
              }))
            ≡ (hash_proto_block_ser prims
                  (serialize_proto_block_prefilled codec (prepared prims codec keys b block parent))
                >>= λ hsh. done (
                    cached
                      (serialize_proto_block_prefilled codec
                        (prepared prims codec keys b block parent))
                      hsh
                      (prepared prims codec keys b block parent)))
      go false =
          rw
            (
              take-append digest_length parent body p,
              hash-HasParts _ _ _ _ (prefilled-HasParts false block parent p) prims,
            )
            refl
      go true =
          rw
            (
              update_signature-HasParts _ _ _ _ unsigned
                  (sign prims keys (prims.hash (parent ++ body))),
              take-append digest_length parent body p,
              take-append signature_length (sign prims keys (prims.hash (parent ++ body)))
                  (parent ++ body) (sign_length _),
              hash-HasParts _ _ _ _ (prefilled-HasParts true block parent p) prims,
            )
            refl
