-- ===== src/LogServer/ReadCache.antt =====
-- `ReadCache` of src/consensus/logserver.rs. The `BTreeMap` is an association list in the order of
-- its keys.
pub mod Lookup
use powder_raft.Common.{
  ℕ, suc, ◌+◌, ◌≤◌, ◌<◌, ◌≡◌, Bool, false, ◌&&◌, List, [], ◌∷◌, Option, none, some, arith, ltb, leb,
  ◌==◌, if◌then◌else◌, length, lookup, ℕ_discrete, retain, length-retain-le,
}
use powder_raft.Common.Outcome.{Outcome, done, panicked}
use powder_raft.Types.{CachedBlock}

abbrev pub Entries : Type 0
Entries = List (ℕ × CachedBlock)

pub record ReadCache : Type 0 where
  pub cache : Entries
  pub working_set_size : ℕ

unfoldable pub new : ℕ → Outcome ReadCache
new working_set_size =
    if working_set_size == 0
    then panicked
    else done (record { cache = []; working_set_size = working_set_size })

-- `Ok(block)`, or `Err` with the next higher block, if there is one.
pub data Found : Type 0 where
  hit : CachedBlock → Found
  miss : Option CachedBlock → Found

-- `cache.range(n..).next()`.
unfoldable pub first_from : ℕ → Entries → Option CachedBlock
first_from n [] = none
first_from n ((k, b) ∷ m) = if leb n k then some b else first_from n m

unfoldable pub get : ReadCache → ℕ → Found
get c n = elim c.cache [
  | [] ↦ miss none
  | _ ∷ _ ↦ elim (lookup ℕ_discrete n c.cache) [
    | some block ↦ hit block
    | none ↦ miss (first_from n c.cache)
  ]
]

-- `cache.insert(k, b)`.
unfoldable pub insert_sorted : ℕ → CachedBlock → Entries → Entries
insert_sorted k b [] = (k, b) ∷ []
insert_sorted k b ((j, c) ∷ m) =
    if ltb k j
    then (k, b) ∷ (j, c) ∷ m
    else if k == j
    then (k, b) ∷ m
    else (j, c) ∷ insert_sorted k b m

-- Whether `put` leaves the block out: the cache is full and the block is older than all in it.
abbrev pub is_too_old : ℕ → ℕ → Entries → Bool
is_too_old size n [] = false
is_too_old size n ((k, _) ∷ m) = leb size (suc (length m)) && ltb n k

-- What is left after the eviction of the oldest entry of a full cache.
abbrev pub make_room : ℕ → Entries → Entries
make_room size [] = []
make_room size ((k, b) ∷ m) = if leb size (suc (length m)) then m else (k, b) ∷ m

unfoldable pub put : ReadCache → CachedBlock → ReadCache
unfolding insert_sorted
put c b =
    if is_too_old c.working_set_size b.n c.cache
    then c
    else record c { cache = insert_sorted b.n b (make_room c.working_set_size c.cache) }

-- `cache.retain(|k, _| *k <= n)`.
unfoldable pub retain_up_to : ℕ → ReadCache → ReadCache
retain_up_to n c = record c { cache = retain (λ e. leb e.0 n) c.cache }

-- The keys rise from `lo` on, and each is its block's number.
abbrev pub Ascends : ℕ → Entries → Type 0
Ascends lo [] = Unit {0}
Ascends lo ((k, b) ∷ m) = (lo ≤ k) × (b.n ≡ k) × Ascends (suc k) m

pub record IsValid (c : ReadCache) : Type 0 where
  pub sorted : Ascends 0 c.cache
  pub bounded : length c.cache ≤ c.working_set_size
  pub nonempty : 0 < c.working_set_size

Ascends-mono : (lo lo' : ℕ) (m : Entries) → lo' ≤ lo → Ascends lo m → Ascends lo' m
Ascends-mono lo lo' [] h a = tt
Ascends-mono lo lo' ((k, b) ∷ m) h a = (omega arith, a.1, a.2)

insert_sorted-Ascends :
    (lo k : ℕ) (b : CachedBlock) (m : Entries)
    → lo ≤ k
    → b.n ≡ k
    → Ascends lo m
    → Ascends lo (insert_sorted k b m)
unfolding insert_sorted
insert_sorted-Ascends lo k b [] h e a = (h, e, tt)
insert_sorted-Ascends lo k b ((j, c) ∷ m) h e a =
    ground (arith, a.0, a.1, a.2, insert_sorted-Ascends (suc j) k b m)

length-insert_sorted :
    (k : ℕ) (b : CachedBlock) (m : Entries) → length (insert_sorted k b m) ≤ length m + 1
unfolding insert_sorted
length-insert_sorted k b [] = omega arith
length-insert_sorted k b ((j, c) ∷ m) = ground (arith, length-insert_sorted k b m)

make_room-Ascends : (size : ℕ) (m : Entries) → Ascends 0 m → Ascends 0 (make_room size m)
make_room-Ascends size [] a = tt
make_room-Ascends size ((k, b) ∷ m) a = ground (arith, Ascends-mono (suc k) 0 m)

length-make_room :
    (size : ℕ) (m : Entries) → 0 < size → length m ≤ size → length (make_room size m) < size
length-make_room size [] p h = p
length-make_room size ((k, b) ∷ m) p h = ground arith

-- `put` keeps a valid cache sorted and within its size.
pub put-IsValid : (c : ReadCache) (b : CachedBlock) → IsValid c → IsValid (put c b)
unfolding put
put-IsValid c b v = ground (
  arith,
  insert_sorted-Ascends 0 b.n b (make_room c.working_set_size c.cache),
  make_room-Ascends c.working_set_size c.cache v.sorted,
  length-insert_sorted b.n b (make_room c.working_set_size c.cache),
  length-make_room c.working_set_size c.cache v.nonempty v.bounded,
)

retain_up_to-Ascends :
    (n lo : ℕ) (m : Entries) → Ascends lo m → Ascends lo (retain (λ e. leb e.0 n) m)
retain_up_to-Ascends n lo [] a = tt
retain_up_to-Ascends n lo ((k, b) ∷ m) a = ground (
  arith,
  retain_up_to-Ascends n (suc k) m a.2,
  Ascends-mono (suc k) lo (retain (λ e. leb e.0 n) m),
)

-- So does the clean-up of a rollback.
pub retain_up_to-IsValid : (n : ℕ) (c : ReadCache) → IsValid c → IsValid (retain_up_to n c)
unfolding retain_up_to
retain_up_to-IsValid n c v = record {
  sorted = retain_up_to-Ascends n 0 c.cache v.sorted;
  bounded = omega (arith, length-retain-le (λ (e : ℕ × CachedBlock). leb e.0 n) c.cache, v.bounded);
  nonempty = v.nonempty;
}
