-- ===== src/Kvs/Keys.antt =====
-- Maps from keys to versions: what a write and a clean-up do to one key.
use powder_raft.Common.{
  ℕ, ◌≡◌, refl, Bool, false, List, [], ◌∷◌, none, Bytes, Bytes-discrete, map_or, lookup, retain,
  length, arith, ltb, ◌≢◌, some, DistinctKeys,
}
use powder_raft.Kvs.{Versions}
use powder_raft.Kvs.Blocks.{retain_versions}

abbrev pub versions_in : Bytes → List (Bytes × Versions) → Versions
versions_in k m = map_or [] (λ vs. vs) (lookup Bytes-discrete k m)

lookup-none-retain_versions :
    (p : ℕ → Bool) (k : Bytes) (m : List (Bytes × Versions))
    → lookup Bytes-discrete k m ≡ none
    → lookup Bytes-discrete k (retain_versions p m) ≡ none
unfolding retain_versions lookup
lookup-none-retain_versions p k [] h = refl
lookup-none-retain_versions p k ((j, vs) ∷ m) h = ground (arith, lookup-none-retain_versions p k m)

empty_of_length : (vs : Versions) → ltb 0 (length vs) ≡ false → vs ≡ []
empty_of_length [] h = refl
empty_of_length (v ∷ vs) h = ground arith

pub versions_in-retain_versions :
    (p : ℕ → Bool) (k : Bytes) (m : List (Bytes × Versions))
    → DistinctKeys Bytes-discrete m
    → versions_in k (retain_versions p m) ≡ retain (λ v. p v.0) (versions_in k m)
unfolding retain_versions lookup
versions_in-retain_versions p k [] d = refl
versions_in-retain_versions p k ((j, vs) ∷ m) d = ground (
  arith,
  versions_in-retain_versions p k m d.1,
  lookup-none-retain_versions p k m,
  empty_of_length (retain (λ v. p v.0) vs),
)

pub retain_versions-DistinctKeys :
    (p : ℕ → Bool) (m : List (Bytes × Versions))
    → DistinctKeys Bytes-discrete m
    → DistinctKeys Bytes-discrete (retain_versions p m)
unfolding retain_versions lookup
retain_versions-DistinctKeys p [] d = tt
retain_versions-DistinctKeys p ((j, vs) ∷ m) d =
    ground (arith, retain_versions-DistinctKeys p m d.1, lookup-none-retain_versions p j m d.0)

-- After a clean-up no key is left with no version.
pub lookup-retain_versions :
    (p : ℕ → Bool) (k : Bytes) (m : List (Bytes × Versions))
    → lookup Bytes-discrete k (retain_versions p m) ≢ some []
unfolding retain_versions lookup
lookup-retain_versions p k [] h = ground arith
lookup-retain_versions p k ((j, vs) ∷ m) h = ground (arith, lookup-retain_versions p k m)
