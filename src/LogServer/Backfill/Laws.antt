-- ===== src/LogServer/Backfill/Laws.antt =====
-- The fork that a backfill request is answered with.
use powder_raft.Common.{
  ℕ, suc, ◌+◌, ◌-◌, ◌≡◌, refl, inr, List, [], ◌∷◌, arith, Bytes, none, ℕ_discrete, ap, false, some,
  lookup, or_else, map_or, lookup-insert, true, bytes_eq, insert, Option, ◌≢◌, ◌∙◌, ◌==◌, ◌⊎◌,
  if◌then◌else◌, length, All, inl, map, zero, ◌≤◌,
}
use powder_raft.Types.{CachedBlock, BlockHint, half_serialized}
use powder_raft.LogServer.Blocks.{Storage}
use powder_raft.LogServer.Blocks.Laws.{IsHeld, get_block_outside, get_block-IsHeld, Fits}
use powder_raft.LogServer.Backfill.{hint_map, is_hinted, fill_loop, fill_fork}
use powder_raft.LogServer.State.{LogServer}
use powder_raft.Common.Outcome.{done}

-- The blocks are numbered from `k` on.
abbrev pub Counts : ℕ → List CachedBlock → Type 0
Counts k [] = Unit {0}
Counts k (b ∷ r) = (b.n ≡ k) × Counts (suc k) r

pred_suc : (i : ℕ) → suc i - 1 ≡ i
pred_suc i = omega arith

-- The digest in the last hint for a number.
abbrev pub last_hint : ℕ → List BlockHint → Option Bytes
last_hint n [] = none
last_hint n (h ∷ hs) = elim (last_hint n hs) [
  | none ↦ if h.block_n == n then some h.digest else none
  | some digest ↦ some digest
]

lookup-hint_map :
    (n : ℕ) (hs : List BlockHint) (m : List (ℕ × Bytes))
    → lookup ℕ_discrete n (hint_map hs m) ≡ or_else (last_hint n hs) (lookup ℕ_discrete n m)
unfolding hint_map
lookup-hint_map n [] m = refl
lookup-hint_map n (h ∷ hs) m =
    lookup-hint_map n hs (insert ℕ_discrete h.block_n h.digest m) ∙ go (last_hint n hs)
  where
    go :
        (o : Option Bytes)
        → or_else o (lookup ℕ_discrete n (insert ℕ_discrete h.block_n h.digest m))
          ≡ or_else
              (elim o [
                | none ↦ if h.block_n == n then some h.digest else none
                | some digest ↦ some digest
              ])
              (lookup ℕ_discrete n m)
    go none = ground (arith, lookup-insert ℕ_discrete h.block_n n h.digest m)
    go (some _) = refl

lookup_hints : (n : ℕ) (hs : List BlockHint) → lookup ℕ_discrete n (hint_map hs []) ≡ last_hint n hs
unfolding lookup
lookup_hints n hs = lookup-hint_map n hs [] ∙ go (last_hint n hs)
  where
    go : (o : Option Bytes) → or_else o none ≡ o
    go none = refl
    go (some _) = refl

-- The other node has the block: its last hint for the number has the block's hash.
abbrev pub Hinted : (ℕ → Option Bytes) → CachedBlock → Type 0
Hinted digest b = digest b.n ≡ some b.block_hash

module _ (digest : ℕ → Option Bytes) (hints : List (ℕ × Bytes))
    (hint : (n : ℕ) → lookup ℕ_discrete n hints ≡ digest n) where
  is_hinted-Hinted :
      (i : ℕ) (b : CachedBlock)
      → b.n ≡ i
      → ((is_hinted hints i b ≡ true) × Hinted digest b)
        ⊎ ((is_hinted hints i b ≡ false) × ¬ (Hinted digest b))
  unfolding is_hinted
  is_hinted-Hinted i b e = rw (hint i) (rw (ap digest e) (go (digest i)))
    where
      go :
          (o : Option Bytes)
          → ((map_or false (λ h. bytes_eq h b.block_hash) o ≡ true) × (o ≡ some b.block_hash))
            ⊎ ((map_or false (λ h. bytes_eq h b.block_hash) o ≡ false) × (o ≢ some b.block_hash))
      go none = inr (refl, λ h. ground (arith, h))
      go (some h) = ground arith

module _ (storage : Storage) (first : CachedBlock) (rest : List CachedBlock)
    (digest : ℕ → Option Bytes) where
  -- A block that belongs into the answer: the one of the chain, that the other node does not have.
  abbrev pub IsMissing : CachedBlock → Type 0
  IsMissing b = IsHeld storage first rest b × ¬ (Hinted digest b)

  -- The number right behind a block that the other node has.
  pub record IsBehindHint (lo : ℕ) : Type 0 where
    pub block : CachedBlock
    pub held : IsHeld storage first rest block
    pub hinted : Hinted digest block
    pub number : lo ≡ block.n + 1

  module _ (hints : List (ℕ × Bytes)) (hint : (n : ℕ) → lookup ℕ_discrete n hints ≡ digest n) where
    -- The loop fills the queue downwards from `i`, by `k` blocks at most.
    fill_loop-Counts :
        (k i : ℕ) (s : LogServer) (queue : List CachedBlock)
        → Fits storage s first rest
        → i ≤ first.n + length rest
        → k ≤ i + 1
        → Counts (suc i) queue
        → All IsMissing queue
        → (lo : ℕ) × (q : List CachedBlock) × (s' : LogServer) × (fill_loop storage k i hints s
              queue
            ≡ done (q, s'))
          × Counts lo q
          × (lo + length q ≡ i + 1 + length queue)
          × (i + 1 ≤ lo + k)
          × All IsMissing q
          × ((lo + k ≡ i + 1) ⊎ (((i + 1 ≡ k) × (lo ≡ 1)) ⊎ IsBehindHint lo))
    unfolding fill_loop
    fill_loop-Counts zero i s queue f hi le c m =
        (suc i, queue, s, refl, c, omega arith, omega arith, m, inl (omega arith))
    fill_loop-Counts (suc k) zero s queue f hi le c m = (
      1,
      queue,
      s,
      rw (get_block_outside storage s first rest f 0 (inl refl), fill_loop) refl,
      c,
      omega arith,
      omega arith,
      m,
      inr (inl (omega arith, refl)),
    )
    fill_loop-Counts (suc k) (suc i) s queue f hi le c m =
        let (b, cache, e, number, held, f') =
          get_block-IsHeld storage s first rest f (suc i) (omega arith) hi in
        let s' : LogServer = record s { read_cache = cache } in
        elim (is_hinted-Hinted digest hints hint (suc i) b number) [
          | inl (h, has) ↦ (
            suc (suc i),
            queue,
            s',
            ground (arith, e, h),
            c,
            omega arith,
            omega arith,
            m,
            inr (inr (record { block = b; held = held; hinted = has; number = omega arith })),
          )
          | inr (h, lacks) ↦
              let (lo, q, t, same, counts, len, low, missing, stop) =
                fill_loop-Counts k i s' (b ∷ queue) f' (omega arith) (omega arith) (number, c)
                  ((held, lacks), m) in
              (
                lo,
                q,
                t,
                ground (arith, e, h, same, pred_suc i),
                counts,
                omega (arith, len),
                omega (arith, low),
                missing,
                (elim stop [
                  | inl end ↦ inl (omega (arith, end))
                  | inr (inl end) ↦ inr (inl (omega (arith, end.0), end.1))
                  | inr (inr end) ↦ inr (inr end)
                ]),
              )
        ]

-- On a log whose ancestors are in storage, and for a last number that the log reaches, `fill_fork`
-- returns blocks with consecutive numbers up to that last number, none below the first number asked
-- for. They are blocks of the log's chain that the other node does not have, as far as the last hint
-- for each number tells. They begin with the first number asked for (or 1, if that is 0), or right
-- behind a block of the chain that the other node has.
pub fill_fork-Counts :
    (storage : Storage) (first : CachedBlock) (rest : List CachedBlock) (hints : List BlockHint)
    (s : LogServer) (first_n last_n : ℕ)
    → Fits storage s first rest
    → first_n ≤ last_n
    → last_n ≤ first.n + length rest
    → (lo : ℕ) × (q : List CachedBlock) × (s' : LogServer) × (fill_fork storage first_n last_n hints
          s
        ≡ done (map half_serialized q, s'))
      × Counts lo q
      × (lo + length q ≡ last_n + 1)
      × (first_n ≤ lo)
      × All (IsMissing storage first rest (λ n. last_hint n hints)) q
      × ((lo ≡ first_n)
          ⊎ (((first_n ≡ 0) × (lo ≡ 1))
              ⊎ IsBehindHint storage first rest (λ n. last_hint n hints) lo))
unfolding fill_fork
fill_fork-Counts storage first rest hints s first_n last_n f le hi =
    let (lo, q, s', e, counts, len, low, missing, stop) =
      fill_loop-Counts storage first rest (λ n. last_hint n hints) (hint_map hints [])
        (λ n. lookup_hints n hints) (last_n - first_n + 1) last_n s [] f hi (omega arith) tt tt in
    (
      lo,
      q,
      s',
      ground (arith, e),
      counts,
      omega (arith, len),
      omega (arith, low),
      missing,
      (elim stop [
        | inl end ↦ inl (omega (arith, end))
        | inr (inl end) ↦ inr (inl (omega (arith, end.0), end.1))
        | inr (inr end) ↦ inr (inr end)
      ]),
    )
