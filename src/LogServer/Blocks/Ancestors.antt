-- ===== src/LogServer/Blocks/Ancestors.antt =====
-- The ancestors of a block in the storage, and the walk back to one of them.
use powder_raft.Common.{
  ℕ, zero, suc, ◌+◌, ◌≤◌, ◌<◌, ◌≡◌, refl, inl, inr, some, arith, ltb, Bool-cases,
}
use powder_raft.Common.Outcome.{done}
use powder_raft.Types.{CachedBlock}
use powder_raft.LogServer.ReadCache.{
  ReadCache, Found, hit, miss, put-IsValid, Entries, Ascends, get, put,
}
use powder_raft.LogServer.ReadCache
use powder_raft.LogServer.ReadCache.Lookup.{Holds, put-Holds}
use powder_raft.LogServer.State.{LogServer}
use powder_raft.LogServer.Blocks.{Storage, walk_back, fetch}

-- `a` is `b` or an ancestor of it: the storage holds every block in between under its hash.
pub data Ancestor (storage : Storage) (a : CachedBlock) : CachedBlock → Type 0 where
  self : Ancestor storage a a
  older :
      {b p : CachedBlock}
      → storage b.parent ≡ some p
      → b.n ≡ p.n + 1
      → Ancestor storage a p
      → Ancestor storage a b

-- The storage holds all ancestors of a block, down to block 1.
pub data IsBacked (storage : Storage) : CachedBlock → Type 0 where
  genesis : {b : CachedBlock} → b.n ≡ 1 → IsBacked storage b
  later :
      {b p : CachedBlock}
      → storage b.parent ≡ some p
      → b.n ≡ p.n + 1
      → IsBacked storage p
      → IsBacked storage b

-- The cached blocks are ancestors of `first`, and so backed.
abbrev pub Backs : Storage → CachedBlock → CachedBlock → Type 0
Backs storage first b = Ancestor storage b first × IsBacked storage b

pub record CacheFits (storage : Storage) (first : CachedBlock) (c : ReadCache) : Type 0 where
  pub valid : ReadCache.IsValid c
  pub coherent : Holds (Backs storage first) c.cache

module _ (storage : Storage) (first : CachedBlock) where
  Ancestor-older :
      {b p : CachedBlock} (a : CachedBlock)
      → storage b.parent ≡ some p
      → b.n ≡ p.n + 1
      → Ancestor storage b a
      → Ancestor storage p a
  Ancestor-older a e h self = older e h self
  Ancestor-older a e h (older e' h' anc) = older e' h' (Ancestor-older _ e h anc)

  -- A fetched block: the number asked for, an ancestor of `first`, and the cache still fits.
  abbrev pub Fetched : ℕ → CachedBlock → ReadCache → Type 0
  Fetched n b c = (b.n ≡ n) × Ancestor storage b first × CacheFits storage first c

  put-CacheFits :
      (c : ReadCache) (b : CachedBlock)
      → Backs storage first b
      → CacheFits storage first c
      → CacheFits storage first (ReadCache.put c b)
  put-CacheFits c b h f = record {
    valid = put-IsValid c b f.valid;
    coherent = put-Holds (Backs storage first) c b f.coherent h;
  }

  walk_back-Fetched :
      (fuel n : ℕ) (ret : CachedBlock) (c : ReadCache)
      → ret.n < fuel
      → 0 < n
      → n ≤ ret.n
      → IsBacked storage ret
      → Ancestor storage ret first
      → CacheFits storage first c
      → (b : CachedBlock) × (c' : ReadCache) × (walk_back storage fuel n ret c ≡ done (b, c'))
        × Fetched n b c'
  unfolding walk_back
  walk_back-Fetched zero n ret c h p le bk anc f = absurd (omega arith)
  walk_back-Fetched (suc fuel) n ret c h p le (genesis g) anc f =
      (ret, c, ground arith, (omega arith, anc, f))
  walk_back-Fetched (suc fuel) n ret c h p le (later {p = q} e g bq) anc f =
      elim (Bool-cases (ltb n ret.n)) [
        | inl more ↦
            let (b, c', same, r) =
              walk_back-Fetched fuel n q (ReadCache.put c q) (omega arith) p (ground arith) bq
                (Ancestor-older first e g anc)
                (put-CacheFits c q (Ancestor-older first e g anc, bq) f) in
            (b, c', ground (arith, same, e, more), r)
        | inr stop ↦ (ret, c, ground (arith, stop), (ground arith, anc, f))
      ]

  -- A request at a block that the collection has taken fetches it through the storage.
  pub fetch-Fetched :
      (n : ℕ) (start : CachedBlock) (s : LogServer)
      → 0 < n
      → n ≤ start.n
      → Backs storage first start
      → CacheFits storage first s.read_cache
      → (b : CachedBlock) × (c : ReadCache) × (fetch storage n start s
          ≡ done (some b, record s { read_cache = c }))
        × Fetched n b c
  unfolding fetch
  fetch-Fetched n start s p le h f =
      let (b, c, e, r) =
        walk_back-Fetched (suc start.n) n start s.read_cache (omega arith) p le h.1 h.0 f in
      (b, c, rw e refl, r)
