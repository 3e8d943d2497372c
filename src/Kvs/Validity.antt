-- ===== src/Kvs/Validity.antt =====
-- The invariants that `read` states: each key has its versions in the order of their blocks, and
-- one at least.
use powder_raft.Common.{
  ℕ, ◌≤◌, ◌≡◌, ◌≢◌, refl, sym, Bool, [], ◌∷◌, ◌++◌, Option, none, some, Bytes, Bytes-discrete,
  map_or, lookup, lookup-insert, retain, arith, All, All-append, retain-All, back, Option-cases,
  subst, if_both, ite_both, insert-DistinctKeys, DistinctKeys,
}
use powder_raft.Common.Outcome.{done}
use mathlib.Core.Logic.{ite}
use powder_raft.Kvs.{Kvs, Versions, versions, write, read, last_version}
use powder_raft.Kvs.Blocks.{retain_versions}
use powder_raft.Kvs.Keys.{
  versions_in-retain_versions, retain_versions-DistinctKeys, lookup-retain_versions,
}

abbrev pub UpTo : ℕ → Versions → Type 0
UpTo n = All (λ v. v.0 ≤ n)

-- No version is older than one before it.
abbrev pub Sorted : Versions → Type 0
Sorted [] = Unit {0}
Sorted (v ∷ vs) = All (λ w. v.0 ≤ w.0) vs × Sorted vs

pub record IsValid (s : Kvs) : Type 0 where
  pub keys : DistinctKeys Bytes-discrete s.ci_state
  pub full : (k : Bytes) → lookup Bytes-discrete k s.ci_state ≢ some []
  pub sorted : (k : Bytes) → Sorted (versions k s)

-- All versions come from blocks up to `n`.
abbrev pub Within : ℕ → Kvs → Type 0
Within n s = (k : Bytes) → UpTo n (versions k s)

-- What a key holds: its last version, or what is committed for good.
abbrev pub value_of : Versions → Option Bytes → Option Bytes
value_of vs old = map_or old (λ v. some v.1) (back vs)

abbrev pub view : Kvs → Bytes → Option Bytes
view s k = value_of (versions k s) (lookup Bytes-discrete k s.bci_state)

nonempty_back : (vs : Versions) → back vs ≡ none → vs ≡ []
nonempty_back [] h = refl
nonempty_back (v ∷ []) h = ground arith
nonempty_back (v ∷ w ∷ vs) h = absurd (ground (arith, nonempty_back (w ∷ vs) h))

append_nonempty : (vs : Versions) (v : ℕ × Bytes) → some (vs ++ v ∷ []) ≢ some []
append_nonempty [] v h = ground arith
append_nonempty (w ∷ vs) v h = ground arith

pub read-view : (k : Bytes) (s : Kvs) → IsValid s → read k s ≡ done (view s k)
unfolding read
read-view k s v = go (lookup Bytes-discrete k s.ci_state) (v.full k)
  where
    go :
        (o : Option Versions)
        → o ≢ some []
        → (elim o [ some vs ↦ last_version vs | none ↦ done (lookup Bytes-discrete k s.bci_state) ])
          ≡ done (value_of (map_or [] (λ vs. vs) o) (lookup Bytes-discrete k s.bci_state))
    go none h = refl
    go (some vs) h = ground (arith, Option-cases (back vs), nonempty_back vs)

pub versions-write :
    (n : ℕ) (k j : Bytes) (val : Bytes) (s : Kvs)
    → versions j (write n k val s)
      ≡ ite (Bytes-discrete k j) (versions k s ++ (n, val) ∷ []) (versions j s)
unfolding write
versions-write n k j val s =
    ground (arith, lookup-insert Bytes-discrete k j (versions k s ++ (n, val) ∷ []) s.ci_state)

Sorted-append :
    (n : ℕ) (val : Bytes) (vs : Versions) → Sorted vs → UpTo n vs → Sorted (vs ++ (n, val) ∷ [])
Sorted-append n val [] h u = (tt, tt)
Sorted-append n val (v ∷ vs) h u =
    (All-append (λ w. v.0 ≤ w.0) vs ((n, val) ∷ []) h.0 (u.0, tt), Sorted-append n val vs h.1 u.1)

pub write-IsValid :
    (n : ℕ) (k val : Bytes) (s : Kvs)
    → IsValid s
    → Within n s
    → IsValid (write n k val s) × Within n (write n k val s)
unfolding write
write-IsValid n k val s v u = (
  record {
    keys = insert-DistinctKeys Bytes-discrete k _ s.ci_state v.keys;
    full = λ j.
        subst (λ o. o ≢ some [])
          (sym (lookup-insert Bytes-discrete k j (versions k s ++ (n, val) ∷ []) s.ci_state))
          (ite_both (λ o. o ≢ some []) (Bytes-discrete k j) _ _
            (append_nonempty (versions k s) (n, val)) (v.full j));
    sorted = λ j. subst Sorted (sym (versions-write n k j val s)) (
        ite_both Sorted (Bytes-discrete k j) _ _
          (Sorted-append n val (versions k s) (v.sorted k) (u k)) (v.sorted j));
  },
  λ j. subst (UpTo n) (sym (versions-write n k j val s)) (
      ite_both (UpTo n) (Bytes-discrete k j) _ _
        (All-append (λ w. w.0 ≤ n) (versions k s) ((n, val) ∷ []) (u k) (omega arith, tt)) (u j)),
)

Sorted-retain : (p : ℕ → Bool) (vs : Versions) → Sorted vs → Sorted (retain (λ v. p v.0) vs)
Sorted-retain p [] h = tt
Sorted-retain p (v ∷ vs) h =
    if_both Sorted (p v.0) _ _
      (retain-All (λ w. v.0 ≤ w.0) (λ w. p w.0) vs h.0, Sorted-retain p vs h.1)
      (Sorted-retain p vs h.1)

pub versions-retain :
    (p : ℕ → Bool) (k : Bytes) (s : Kvs)
    → IsValid s
    → versions k (record s { ci_state = retain_versions p s.ci_state })
      ≡ retain (λ v. p v.0) (versions k s)
versions-retain p k s v = versions_in-retain_versions p k s.ci_state v.keys

-- A clean-up keeps the invariants.
pub retained-IsValid :
    (p : ℕ → Bool) (s : Kvs)
    → IsValid s
    → IsValid (record s { ci_state = retain_versions p s.ci_state })
retained-IsValid p s v = record {
  keys = retain_versions-DistinctKeys p s.ci_state v.keys;
  full = λ k. lookup-retain_versions p k s.ci_state;
  sorted = λ k.
      subst Sorted (sym (versions-retain p k s v)) (Sorted-retain p (versions k s) (v.sorted k));
}
