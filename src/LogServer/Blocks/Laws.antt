-- ===== src/LogServer/Blocks/Laws.antt =====
-- `get_block` returns the block of the number asked for, also where it has to be fetched.
use powder_raft.Common.{
  ℕ, ◌+◌, ◌≤◌, ◌<◌, ◌≡◌, refl, inl, inr, List, ◌∷◌, none, some, arith, ltb, front, Bool-cases,
  length, ◌⊎◌, In, sym, subst, ◌==◌, [],
}
use powder_raft.Common.Outcome.{done}
use powder_raft.Types.{CachedBlock}
use powder_raft.Chain.{Links, back-end_of, number-end_of}
use powder_raft.LogServer.ReadCache.{
  ReadCache, Found, hit, miss, put-IsValid, Entries, Ascends, get, put,
}
use powder_raft.LogServer.ReadCache
use powder_raft.LogServer.ReadCache.Lookup.{OfFound, get-Holds, Answers, get-Answers}
use powder_raft.LogServer.State.{LogServer}
use powder_raft.LogServer.Blocks.{Storage, find, find-Links, get_gced_block, get_block}
use powder_raft.LogServer.Blocks.Ancestors.{
  Fetched, Ancestor, fetch-Fetched, IsBacked, self, Backs, CacheFits,
}

module _ (storage : Storage) (first : CachedBlock) where
  found-Fetched :
      (n : ℕ) (s : LogServer) (r : Found)
      → ReadCache.get s.read_cache n ≡ r
      → front s.log ≡ some first
      → 0 < n
      → n < first.n
      → IsBacked storage first
      → CacheFits storage first s.read_cache
      → Answers n s.read_cache.cache r
      → OfFound (Backs storage first) r
      → (b : CachedBlock) × (c : ReadCache) × (get_gced_block storage n s
          ≡ done (some b, record s { read_cache = c }))
        × Fetched storage first n b c
  unfolding get_gced_block
  found-Fetched n s (hit b) e fr p lt bk f number h =
      (b, s.read_cache, ground (arith, e, fr), (number, h.0, f))
  found-Fetched n s (miss none) e fr p lt bk f number h =
      let (b, c, same, r) = fetch-Fetched storage first n first s p (omega arith) (self, bk) f in
      (b, c, ground (arith, e, fr, same), r)
  found-Fetched n s (miss (some b)) e fr p lt bk f number h =
      let (b', c, same, r) = fetch-Fetched storage first n b s p (omega (arith, number.0)) h f in
      (b', c, ground (arith, e, fr, same), r)

  -- If the first block of the log has all its ancestors in storage, and the cache holds such
  -- ancestors only, then `get_gced_block` answers at every number from 1 to below that block's
  -- with its ancestor of that number, and changes nothing but the cache, which keeps this
  -- property.
  pub get_gced_block-Fetched :
      (n : ℕ) (s : LogServer)
      → front s.log ≡ some first
      → 0 < n
      → n < first.n
      → IsBacked storage first
      → CacheFits storage first s.read_cache
      → (b : CachedBlock) × (c : ReadCache) × (get_gced_block storage n s
          ≡ done (some b, record s { read_cache = c }))
        × Fetched storage first n b c
  get_gced_block-Fetched n s fr p lt bk f =
      found-Fetched n s (ReadCache.get s.read_cache n) refl fr p lt bk f
        (get-Answers s.read_cache n f.valid)
        (get-Holds (Backs storage first) s.read_cache n f.coherent)

-- What the code relies on: the log is a chain, and the storage holds what the log has let go.
pub record Fits (storage : Storage) (s : LogServer) (first : CachedBlock) (rest : List CachedBlock)
    : Type 0 where
  pub shape : s.log ≡ first ∷ rest
  pub links : Links first rest
  pub backed : IsBacked storage first
  pub cache : CacheFits storage first s.read_cache

-- The one chain that the log server stands for: the blocks of the log and the ancestors of the first.
abbrev pub IsHeld : Storage → CachedBlock → List CachedBlock → CachedBlock → Type 0
IsHeld storage first rest b = Ancestor storage b first ⊎ In b rest

find-In : (n : ℕ) (b : CachedBlock) (bs : List CachedBlock) → find n bs ≡ some b → In b bs
unfolding find
find-In n b [] h = ground (arith, h)
find-In n b (c ∷ bs) h = elim (Bool-cases (c.n == n)) [
  | inl e ↦ inl (ground (arith, h, e))
  | inr e ↦ inr (find-In n b bs (ground (arith, h, e)))
]

In-IsHeld :
    (storage : Storage) (first : CachedBlock) (rest : List CachedBlock) (b : CachedBlock)
    → In b (first ∷ rest)
    → IsHeld storage first rest b
In-IsHeld storage first rest b (inl e) = inl (subst (λ c. Ancestor storage c first) (sym e) self)
In-IsHeld storage first rest b (inr h) = inr h

module _ (storage : Storage) (s : LogServer) (first : CachedBlock) (rest : List CachedBlock) where
  -- A block that the log still has is read from it.
  get_block_in_log :
      Fits storage s first rest
      → (n : ℕ) → 0 < n
      → first.n ≤ n
      → n ≤ first.n + length rest
      → (b : CachedBlock) × (get_block storage n s ≡ done (some b, s))
        × (b.n ≡ n)
        × (find n s.log ≡ some b)
  unfolding get_block
  get_block_in_log f n p lo hi =
      let (b, found, number) = find-Links n first rest f.links lo hi in
      (
        b,
        ground (arith, found, f.shape, back-end_of first rest, number-end_of first rest f.links),
        number,
        rw f.shape found,
      )

  -- The block that `get_block` answers with is the one of the chain with that number.
  pub get_block-IsHeld :
      Fits storage s first rest
      → (n : ℕ) → 0 < n
      → n ≤ first.n + length rest
      → (b : CachedBlock) × (c : ReadCache) × (get_block storage n s
          ≡ done (some b, record s { read_cache = c }))
        × (b.n ≡ n)
        × IsHeld storage first rest b
        × Fits storage (record s { read_cache = c }) first rest
  unfolding get_block
  get_block-IsHeld f n p hi = elim (Bool-cases (ltb n first.n)) [
    | inl below ↦
        let (b, c, e, r) =
          get_gced_block-Fetched storage first n s (rw f.shape refl) p (ground arith) f.backed
            f.cache in
        (
          b,
          c,
          ground
              (arith, e, below, f.shape, back-end_of first rest, number-end_of first rest f.links),
          r.0,
          inl r.1,
          record { shape = f.shape; links = f.links; backed = f.backed; cache = r.2 },
        )
    | inr within ↦
        let (b, e, number, found) = get_block_in_log f n p (ground arith) hi in
        (
          b,
          s.read_cache,
          e,
          number,
          In-IsHeld storage first rest b (find-In n b (first ∷ rest) (rw (← f.shape) found)),
          f,
        )
  ]

  -- If the log is a chain whose ancestors are all in storage, and the cache holds such
  -- ancestors only, then `get_block` answers at every number from 1 to the last with a block of
  -- that number; it changes nothing but the cache, which keeps this property.
  pub get_block-number :
      Fits storage s first rest
      → (n : ℕ) → 0 < n
      → n ≤ first.n + length rest
      → (b : CachedBlock) × (c : ReadCache) × (get_block storage n s
          ≡ done (some b, record s { read_cache = c }))
        × (b.n ≡ n)
        × Fits storage (record s { read_cache = c }) first rest
  get_block-number f n p hi =
      let (b, c, e, number, held, f') = get_block-IsHeld f n p hi in (b, c, e, number, f')

  -- On such a log, `get_block` answers with nothing at 0 and behind the last number, and
  -- changes nothing.
  pub get_block_outside :
      Fits storage s first rest
      → (n : ℕ) → (n ≡ 0) ⊎ (first.n + length rest < n)
      → get_block storage n s ≡ done (none, s)
  unfolding get_block
  get_block_outside f n h =
      ground (arith, f.shape, back-end_of first rest, number-end_of first rest f.links)
