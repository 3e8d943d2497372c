-- ===== src/Common/Maps.antt =====
-- `HashMap`, `BTreeMap` and `HashSet` as association lists. The order of the entries stands for
-- the iteration order, which the theorems leave arbitrary.
use Prim.Native.Nat.{◌+◌, ◌≤◌}
use mathlib.Core.Path.{◌≡◌, refl, subst}
use mathlib.Core.List.{List, [], ◌∷◌}
use mathlib.Core.Option.{Option, none, some}
use mathlib.Core.Logic.{ite}
use native.Mathlib.Omega.{arith}
use powder_raft.Common.Lists.{length, All}
use powder_raft.Common.Tests.{ite_both}

module _ {ℓ} {K V : Type ℓ} (dec : Discrete K) where
  -- `m.get(k)`.
  unfoldable pub lookup : K → List (K × V) → Option V
  lookup k [] = none
  lookup k ((j, v) ∷ m) = ite (dec j k) (some v) (lookup k m)

  -- `m.insert(k, v)`: the old value, if any, is replaced.
  unfoldable pub insert : K → V → List (K × V) → List (K × V)
  insert k v [] = (k, v) ∷ []
  insert k v ((j, w) ∷ m) = ite (dec j k) ((k, v) ∷ m) ((j, w) ∷ insert k v m)

  -- `m.remove(k)`.
  unfoldable pub remove : K → List (K × V) → List (K × V)
  remove k [] = []
  remove k ((j, v) ∷ m) = ite (dec j k) m ((j, v) ∷ remove k m)

  pub lookup-insert :
      (k j : K) (v : V) (m : List (K × V))
      → lookup j (insert k v m) ≡ ite (dec k j) (some v) (lookup j m)
  unfolding lookup insert
  lookup-insert k j v [] = refl
  lookup-insert k j v ((i, w) ∷ m) = ground (arith, lookup-insert k j v m)

  pub lookup_inserted : (k : K) (v : V) (m : List (K × V)) → lookup k (insert k v m) ≡ some v
  unfolding lookup insert
  lookup_inserted k v [] = ground arith
  lookup_inserted k v ((j, w) ∷ m) = ground (arith, lookup_inserted k v m)

  pub remove_inserted :
      (k : K) (v : V) (m : List (K × V)) → lookup k m ≡ none → remove k (insert k v m) ≡ m
  unfolding lookup insert remove
  remove_inserted k v [] h = ground arith
  remove_inserted k v ((j, w) ∷ m) h = ground (arith, remove_inserted k v m)

  pub length-insert :
      (k : K) (v : V) (m : List (K × V))
      → (length m ≤ length (insert k v m)) × (length (insert k v m) ≤ length m + 1)
  unfolding insert
  length-insert k v [] = omega arith
  length-insert k v ((i, w) ∷ m) = ground (arith, length-insert k v m)

  -- A key has one entry.
  abbrev pub DistinctKeys : List (K × V) → Type ℓ
  DistinctKeys [] = Unit
  DistinctKeys ((k, v) ∷ m) = (lookup k m ≡ none) × DistinctKeys m

  pub insert-DistinctKeys :
      (k : K) (v : V) (m : List (K × V)) → DistinctKeys m → DistinctKeys (insert k v m)
  unfolding insert lookup
  insert-DistinctKeys k v [] d = (refl, tt)
  insert-DistinctKeys k v ((j, w) ∷ m) d =
      ground (arith, insert-DistinctKeys k v m, lookup-insert k j v m)

  pub insert-All {κ} :
      (P : K × V → Type κ) (k : K) (v : V) (m : List (K × V))
      → P (k, v)
      → All P m
      → All P (insert k v m)
  unfolding insert
  insert-All P k v [] p a = (p, tt)
  insert-All P k v ((j, w) ∷ m) p a =
      ite_both (All P) (dec j k) _ _ (p, a.1) (a.0, insert-All P k v m p a.1)

  pub remove-All {κ} :
      (P : K × V → Type κ) (k : K) (m : List (K × V)) → All P m → All P (remove k m)
  unfolding remove
  remove-All P k [] a = tt
  remove-All P k ((j, w) ∷ m) a = ite_both (All P) (dec j k) _ _ a.1 (a.0, remove-All P k m a.1)

  pub lookup-All {κ} :
      (P : K × V → Type κ) (Q : Option V → Type κ) (k : K) (m : List (K × V))
      → Q none
      → ((v : V) → P (k, v) → Q (some v))
      → All P m
      → Q (lookup k m)
  unfolding lookup
  lookup-All P Q k [] n f a = n
  lookup-All P Q k ((j, w) ∷ m) n f a = go (dec j k) (lookup-All P Q k m n f a.1)
    where
      go : (d : Dec (j ≡ k)) → Q (lookup k m) → Q (ite d (some w) (lookup k m))
      go (yes e) q = f w (subst (λ i. P (i, w)) e a.0)
      go (no _) q = q
