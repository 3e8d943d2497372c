-- ===== src/LogServer/ReadCache/Lookup.antt =====
-- What `ReadCache::get` answers.
use powder_raft.Common.{
  ℕ, suc, ◌≤◌, ◌<◌, ◌≡◌, ◌⊎◌, inr, [], ◌∷◌, none, some, arith, lookup, All, ℕ_discrete,
  Option-cases, inl, Bool-cases, subst,
}
use powder_raft.LogServer.ReadCache.{
  ReadCache, Entries, Found, hit, miss, get, first_from, Ascends, IsValid, insert_sorted, make_room,
  is_too_old, put,
}
use powder_raft.Types.{CachedBlock}
use mathlib.Core.Option.{Option}

-- The answer of documentation: the block itself, else the block with the least higher number.
abbrev pub Answers : ℕ → Entries → Found → Type 0
Answers n m (hit b) = b.n ≡ n
Answers n m (miss (some b)) = (n < b.n) × All (λ e. (e.0 < n) ⊎ (b.n ≤ e.0)) m
Answers n m (miss none) = All (λ e. e.0 < n) m

lookup-number :
    (lo n : ℕ) (m : Entries) (b : CachedBlock)
    → Ascends lo m
    → lookup ℕ_discrete n m ≡ some b
    → b.n ≡ n
unfolding lookup
lookup-number lo n [] b a h = ground arith
lookup-number lo n ((k, c) ∷ m) b a h = ground (arith, lookup-number (suc k) n m b a.2)

from_above :
    (lo n : ℕ) (b : CachedBlock) (m : Entries)
    → b.n < lo
    → Ascends lo m
    → All (λ e. (e.0 < n) ⊎ (b.n ≤ e.0)) m
from_above lo n b [] h a = tt
from_above lo n b ((k, c) ∷ m) h a = (inr (omega arith), from_above (suc k) n b m (omega arith) a.2)

first_from-Answers :
    (lo n : ℕ) (m : Entries)
    → Ascends lo m
    → lookup ℕ_discrete n m ≡ none
    → Answers n m (miss (first_from n m))
unfolding first_from lookup
first_from-Answers lo n [] a h = tt
first_from-Answers lo n ((k, c) ∷ m) a h =
    ground (arith, from_above (suc k) n c m, first_from-Answers (suc k) n m a.2)

-- On a valid cache `get` returns a block of the number asked for, or else the one with the
-- least higher number, or nothing, if every block is lower.
pub get-Answers : (c : ReadCache) (n : ℕ) → IsValid c → Answers n c.cache (get c n)
unfolding get
get-Answers c n v = go c.cache v.sorted
  where
    go : (m : Entries) → Ascends 0 m → Answers n m (get (record c { cache = m }) n)
    go [] a = tt
    go ((k, b) ∷ m) a = elim (Option-cases (lookup ℕ_discrete n ((k, b) ∷ m))) [
      | inl e ↦ rw (e, get) (first_from-Answers 0 n ((k, b) ∷ m) a e)
      | inr (c', e) ↦ rw (e, get) (lookup-number 0 n ((k, b) ∷ m) c' a e)
    ]

module _ (P : CachedBlock → Type 0) where
  abbrev pub Holds : Entries → Type 0
  Holds = All (λ e. P e.1)

  abbrev OfOption : Option CachedBlock → Type 0
  OfOption none = Unit
  OfOption (some b) = P b

  lookup-Holds : (n : ℕ) (m : Entries) → Holds m → OfOption (lookup ℕ_discrete n m)
  unfolding lookup
  lookup-Holds n [] h = tt
  lookup-Holds n ((k, c) ∷ m) h = ground (arith, h.0, lookup-Holds n m h.1)

  first_from-Holds : (n : ℕ) (m : Entries) → Holds m → OfOption (first_from n m)
  unfolding first_from
  first_from-Holds n [] h = tt
  first_from-Holds n ((k, c) ∷ m) h = ground (arith, h.0, first_from-Holds n m h.1)

  insert_sorted-Holds :
      (k : ℕ) (b : CachedBlock) (m : Entries) → Holds m → P b → Holds (insert_sorted k b m)
  unfolding insert_sorted
  insert_sorted-Holds k b [] h p = (p, tt)
  insert_sorted-Holds k b ((j, c) ∷ m) h p =
      ground (arith, h.0, h.1, p, insert_sorted-Holds k b m h.1)

  make_room-Holds : (size : ℕ) (m : Entries) → Holds m → Holds (make_room size m)
  make_room-Holds size [] h = tt
  make_room-Holds size ((k, b) ∷ m) h = ground (arith, h.0, h.1)

  -- What holds of the entries and of a block that is put in holds of the new entries.
  pub put-Holds : (c : ReadCache) (b : CachedBlock) → Holds c.cache → P b → Holds (put c b).cache
  unfolding put
  put-Holds c b h p = elim (Bool-cases (is_too_old c.working_set_size b.n c.cache)) [
    | inl e ↦ rw e h
    | inr e ↦ rw e (
        insert_sorted-Holds b.n b (make_room c.working_set_size c.cache)
          (make_room-Holds c.working_set_size c.cache h) p)
  ]

  -- It holds of whatever `get` answers.
  abbrev pub OfFound : Found → Type 0
  OfFound (hit b) = P b
  OfFound (miss none) = Unit
  OfFound (miss (some b)) = P b

  pub get-Holds : (c : ReadCache) (n : ℕ) → Holds c.cache → OfFound (get c n)
  unfolding get
  get-Holds c n h = go c.cache h
    where
      found : (o : Option CachedBlock) → OfOption o → OfFound (miss o)
      found none p = tt
      found (some b) p = p

      go : (m : Entries) → Holds m → OfFound (get (record c { cache = m }) n)
      go [] a = tt
      go ((k, b) ∷ m) a = elim (Option-cases (lookup ℕ_discrete n ((k, b) ∷ m))) [
        | inl e ↦
            rw (e, get) (found (first_from n ((k, b) ∷ m)) (first_from-Holds n ((k, b) ∷ m) a))
        | inr (c', e) ↦ rw (e, get) (subst OfOption e (lookup-Holds n ((k, b) ∷ m) a))
      ]
