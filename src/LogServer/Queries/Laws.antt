-- ===== src/LogServer/Queries/Laws.antt =====
-- What the two queries answer.
use powder_raft.Common.{
  ℕ, zero, suc, ◌+◌, ◌≤◌, ◌<◌, ◌≡◌, refl, inl, inr, Bool, true, false, List, [], ◌∷◌, arith, Bytes,
  bytes_eq, length, le-or-lt, ◌⊎◌, ◌*◌, ◌/◌,
}
use powder_raft.Common.Outcome.{done}
use powder_raft.Types.{CachedBlock, BlockHint}
use powder_raft.LogServer.State.{LogServer}
use powder_raft.LogServer.Blocks.{Storage}
use powder_raft.LogServer.Blocks.Laws.{Fits, get_block_outside, IsHeld, get_block-number}
use powder_raft.LogServer.Queries.{check_hash, jump_multiplier}

-- The numbers rise, and stay below `hi`.
abbrev pub RisesTo : ℕ → List BlockHint → Type 0
RisesTo hi [] = Unit {0}
RisesTo hi (h ∷ []) = h.block_n < hi
RisesTo hi (h ∷ h' ∷ hs) = (h.block_n < h'.block_n) × RisesTo hi (h' ∷ hs)

-- The step after so many tens of steps.
abbrev pub jump_after : ℕ → ℕ
jump_after zero = 1000
jump_after (suc q) = jump_after q * 10

module _ (storage : Storage) (first : CachedBlock) (rest : List CachedBlock) where
  -- Yes at 0, no behind the last block, and at the log's numbers whether the block has the hash.
  abbrev pub CheckAnswer : ℕ → Bytes → Bool → Type 0
  CheckAnswer n hsh answer =
      ((n ≡ 0) × (answer ≡ true))
      ⊎ (((first.n + length rest < n) × (answer ≡ false))
          ⊎ ((b : CachedBlock) × (0 < n) × (b.n ≡ n) × (answer ≡ bytes_eq b.block_hash hsh)))

  -- On a log whose ancestors are in storage, `CheckHash` is always answered: yes at 0, no
  -- behind the last number, and else whether a block with the number asked for has the hash.
  -- The log still has its ancestors in storage.
  pub check_hash-CheckAnswer :
      (s : LogServer) (n : ℕ) (hsh : Bytes)
      → Fits storage s first rest
      → (answer : Bool) × (s' : LogServer) × (check_hash storage n hsh s ≡ done (answer, s'))
        × CheckAnswer n hsh answer
        × Fits storage s' first rest
  unfolding check_hash
  check_hash-CheckAnswer s zero hsh f = (true, s, refl, inl (refl, refl), f)
  check_hash-CheckAnswer s (suc n) hsh f = elim (le-or-lt (suc n) (first.n + length rest)) [
    | inl le ↦
        let (b, c, e, number, f') =
          get_block-number storage s first rest f (suc n) (omega arith) le in
        (
          bytes_eq b.block_hash hsh,
          record s { read_cache = c },
          ground (arith, e),
          inr (inr (b, omega arith, number, refl)),
          f',
        )
    | inr lt ↦ (
      false,
      s,
      ground (arith, get_block_outside storage s first rest f (suc n) (inr lt)),
      inr (inl (lt, refl)),
      f,
    )
  ]

  -- A hint with this number and the hash of the block of the chain with this number.
  pub record IsHint (n : ℕ) (h : BlockHint) : Type 0 where
    pub block : CachedBlock
    pub held : IsHeld storage first rest block
    pub block_number : block.n ≡ n
    pub number : h.block_n ≡ n
    pub digest : h.digest ≡ block.block_hash

  -- The hints from the `k`-th on, whose number is `n`, up to below `last`.
  abbrev pub Steps : ℕ → ℕ → ℕ → List BlockHint → Type 0
  Steps last k n [] = last ≤ n
  Steps last k n (h ∷ hs) =
      (n < last) × IsHint n h × Steps last (suc k) (n + jump_after (k / jump_multiplier)) hs
