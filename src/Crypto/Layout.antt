-- ===== src/Crypto/Layout.antt =====
-- The parts of a serialised block are found where they were put.
use powder_raft.Common.{
  ℕ, zero, drop, suc, Bytes, take, length, refl, length-append, ap, List, arith, ◌≡◌, ◌≤◌, ◌∙◌, ◌+◌,
  ◌++◌, ◌∷◌, [], some, if◌then◌else◌, ltb_of_le, eqb_of_eq,
}
use powder_raft.Crypto.{signature_length, digest_length}
use powder_raft.Crypto.Serialize.{
  update_parent_hash_in_proto_block_ser, Codec, deserialize_proto_block,
  update_signature_in_proto_block_ser, is_null,
}
use powder_raft.Crypto.Keys.{Primitives}
use powder_raft.Types.{proposer_sig, Block, no_sig}
use powder_raft.Common.Outcome.{done}
use powder_raft.Crypto.Service.{hash_proto_block_ser}

module _ {ℓ} {A : Type ℓ} where
  pub take-append : (n : ℕ) (xs ys : List A) → length xs ≡ n → take n (xs ++ ys) ≡ xs
  take-append zero [] ys h = refl
  take-append (suc n) [] ys h = absurd (omega (arith, h))
  take-append zero (x ∷ xs) ys h = absurd (ground (arith, h))
  take-append (suc n) (x ∷ xs) ys h = ap (λ zs. x ∷ zs) (take-append n xs ys (omega (arith, h)))

  pub drop-append : (n : ℕ) (xs ys : List A) → length xs ≡ n → drop n (xs ++ ys) ≡ ys
  drop-append zero [] ys h = refl
  drop-append (suc n) [] ys h = absurd (omega (arith, h))
  drop-append zero (x ∷ xs) ys h = absurd (ground (arith, h))
  drop-append (suc n) (x ∷ xs) ys h = drop-append n xs ys (omega (arith, h))

  pub drop-drop : (n m k : ℕ) (xs : List A) → n + m ≡ k → drop k xs ≡ drop m (drop n xs)
  drop-drop zero m k xs h = ap (λ i. drop i xs) (omega (arith, h))
  drop-drop (suc n) m zero xs h = absurd (omega (arith, h))
  drop-drop (suc n) zero (suc k) [] h = refl
  drop-drop (suc n) (suc m) (suc k) [] h = refl
  drop-drop (suc n) m (suc k) (x ∷ xs) h = drop-drop n m k xs (omega (arith, h))

-- What the code reads off a block that is put together from three parts.
pub record HasParts (sig parent body block : Bytes) : Type 0 where
  pub long : digest_length + signature_length ≤ length block
  pub head : take signature_length block ≡ sig
  pub rest : drop signature_length block ≡ parent ++ body
  pub middle : take digest_length (drop signature_length block) ≡ parent
  pub tail : drop (digest_length + signature_length) block ≡ body

pub append-HasParts :
    (sig parent body : Bytes)
    → length sig ≡ signature_length
    → length parent ≡ digest_length
    → HasParts sig parent body (sig ++ (parent ++ body))
append-HasParts sig parent body s p = record {
  long = omega (arith, length-append sig (parent ++ body), length-append parent body);
  head = take-append signature_length sig (parent ++ body) s;
  rest = drop-append signature_length sig (parent ++ body) s;
  middle =
      ap (take digest_length) (drop-append signature_length sig (parent ++ body) s)
      ∙ take-append digest_length parent body p;
  tail =
      drop-drop signature_length digest_length (digest_length + signature_length)
        (sig ++ (parent ++ body)) refl
      ∙ (ap (drop digest_length) (drop-append signature_length sig (parent ++ body) s)
          ∙ drop-append digest_length parent body p);
}

module _ (sig parent body block : Bytes) (h : HasParts sig parent body block) where
  pub update_parent_hash-HasParts :
      (parent' : Bytes)
      → length parent' ≡ digest_length
      → update_parent_hash_in_proto_block_ser block parent' ≡ done (sig ++ (parent' ++ body))
  unfolding update_parent_hash_in_proto_block_ser
  update_parent_hash-HasParts parent' p =
      rw (ltb_of_le (length block) 128 h.long, eqb_of_eq (length parent') 64 p, h.head, h.tail) refl

  pub update_signature-HasParts :
      (sig' : Bytes)
      → update_signature_in_proto_block_ser block sig' ≡ done (sig' ++ (parent ++ body))
  unfolding update_signature_in_proto_block_ser
  update_signature-HasParts sig' =
      rw (ltb_of_le (length block) 64 (omega (arith, h.long)), h.rest) refl

  pub hash-HasParts :
      (prims : Primitives)
      → hash_proto_block_ser prims block ≡ done (prims.hash (body ++ (parent ++ sig)))
  unfolding hash_proto_block_ser
  hash-HasParts prims = rw (ltb_of_le (length block) 128 h.long, h.head, h.middle, h.tail) refl

  pub deserialize-HasParts :
      (codec : Codec) (b : Block)
      → codec.decode body ≡ some b
      → deserialize_proto_block codec block
        ≡ done (
            some (record b {
              parent = parent;
              sig = some (if is_null sig then no_sig else proposer_sig sig);
            }))
  unfolding deserialize_proto_block
  deserialize-HasParts codec b d =
      rw (ltb_of_le (length block) 128 h.long, h.tail, d, h.head, h.middle) refl
