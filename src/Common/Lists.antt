-- ===== src/Common/Lists.antt =====
-- The sequence operations of `Vec` and `VecDeque` that the sources call, and their laws.
use Prim.Native.Nat.{ℕ, zero, suc, ◌+◌, ◌≤◌}
use mathlib.Core.Path.{◌≡◌, refl, ap, sym, subst, ◌∙◌}
use mathlib.Core.Logic.{◌⊎◌, inl, inr}
use mathlib.Core.Bool.{Bool, true, false, ◌||◌}
use mathlib.Core.List.{List, [], ◌∷◌, ◌++◌, map}
use mathlib.Core.Option.{Option, none, some}
use native.Mathlib.Omega.{arith}
use powder_raft.Common.Tests.{if◌then◌else◌}

-- The empty type at every level.
pub data Empty {ℓ} : Type ℓ where

module _ {ℓ} {A : Type ℓ} where
  abbrev pub length : List A → ℕ
  length [] = 0
  length (x ∷ xs) = suc (length xs)

  abbrev pub get_elem? : List A → ℕ → Option A
  get_elem? [] i = none
  get_elem? (x ∷ xs) zero = some x
  get_elem? (x ∷ xs) (suc i) = get_elem? xs i

  -- `front()` and `back()`.
  abbrev pub front : List A → Option A
  front [] = none
  front (x ∷ xs) = some x

  abbrev pub back : List A → Option A
  back [] = none
  back (x ∷ []) = some x
  back (x ∷ y ∷ xs) = back (y ∷ xs)

  -- `v.retain(p)`, and `iter().filter(p)`.
  abbrev pub retain : (A → Bool) → List A → List A
  retain p [] = []
  retain p (x ∷ xs) = let rest = retain p xs in if p x then x ∷ rest else rest

  -- `iter().any(p)`.
  abbrev pub any : (A → Bool) → List A → Bool
  any p [] = false
  any p (x ∷ xs) = p x || any p xs

  abbrev pub take : ℕ → List A → List A
  take zero xs = []
  take (suc n) [] = []
  take (suc n) (x ∷ xs) = x ∷ take n xs

  abbrev pub drop : ℕ → List A → List A
  drop zero xs = xs
  drop (suc n) [] = []
  drop (suc n) (x ∷ xs) = drop n xs

  abbrev pub replicate : ℕ → A → List A
  replicate zero a = []
  replicate (suc n) a = a ∷ replicate n a

  -- `x` stands in the list.
  abbrev pub In : A → List A → Type ℓ
  In x [] = Empty
  In x (y ∷ ys) = (x ≡ y) ⊎ In x ys

  abbrev pub All {κ} : (A → Type κ) → List A → Type κ
  All P [] = Unit
  All P (x ∷ xs) = P x × All P xs

module _ {ℓ} {A : Type ℓ} where
  pub append_assoc : (xs ys zs : List A) → (xs ++ ys) ++ zs ≡ xs ++ (ys ++ zs)
  append_assoc [] ys zs = refl
  append_assoc (x ∷ xs) ys zs = ap (λ ws. x ∷ ws) (append_assoc xs ys zs)

  pub append_nothing : (xs : List A) → xs ++ [] ≡ xs
  append_nothing [] = refl
  append_nothing (x ∷ xs) = ap (λ ys. x ∷ ys) (append_nothing xs)

  pub length-append : (xs ys : List A) → length (xs ++ ys) ≡ length xs + length ys
  length-append [] ys = omega arith
  length-append (x ∷ xs) ys = omega (arith, length-append xs ys)

  pub back-append : (xs : List A) (x : A) → back (xs ++ x ∷ []) ≡ some x
  back-append [] x = refl
  back-append (y ∷ []) x = refl
  back-append (y ∷ z ∷ xs) x = back-append (z ∷ xs) x

  pub length-retain-le : (p : A → Bool) (xs : List A) → length (retain p xs) ≤ length xs
  length-retain-le p [] = omega arith
  length-retain-le p (x ∷ xs) = ground (arith, length-retain-le p xs)

  pub retain-append :
      (p : A → Bool) (xs ys : List A) → retain p (xs ++ ys) ≡ retain p xs ++ retain p ys
  retain-append p [] ys = refl
  retain-append p (x ∷ xs) ys = ground (arith, retain-append p xs ys)

  pub retain-All {κ} :
      (P : A → Type κ) (p : A → Bool) (xs : List A) → All P xs → All P (retain p xs)
  retain-All P p [] h = tt
  retain-All P p (x ∷ xs) h = ground (arith, retain-All P p xs h.1)

  -- What is kept passes the test.
  pub All-retain : (p : A → Bool) (xs : List A) → All (λ x. p x ≡ true) (retain p xs)
  All-retain p [] = tt
  All-retain p (x ∷ xs) = ground (arith, All-retain p xs)

  pub retain_everything : (p : A → Bool) (xs : List A) → All (λ x. p x ≡ true) xs → retain p xs ≡ xs
  retain_everything p [] h = refl
  retain_everything p (x ∷ xs) h = ground (arith, retain_everything p xs h.1)

  pub retain_none : (p : A → Bool) (xs : List A) → All (λ x. p x ≡ false) xs → retain p xs ≡ []
  retain_none p [] h = refl
  retain_none p (x ∷ xs) h = ground (arith, retain_none p xs h.1)

  pub All-append {κ} : (P : A → Type κ) (xs ys : List A) → All P xs → All P ys → All P (xs ++ ys)
  All-append P [] ys hx hy = hy
  All-append P (x ∷ xs) ys hx hy = (hx.0, All-append P xs ys hx.1 hy)

  pub All-map {κ μ} :
      (P : A → Type κ) (Q : A → Type μ) (xs : List A) → ((x : A) → P x → Q x) → All P xs → All Q xs
  All-map P Q [] f h = tt
  All-map P Q (x ∷ xs) f h = (f x h.0, All-map P Q xs f h.1)

  pub length-map {κ} : {B : Type κ} (f : A → B) (xs : List A) → length (map f xs) ≡ length xs
  length-map f [] = refl
  length-map f (x ∷ xs) = ap suc (length-map f xs)

  pub All-In {κ} : (P : A → Type κ) (x : A) (xs : List A) → All P xs → In x xs → P x
  All-In P x [] h m = elim m [ ]
  All-In P x (y ∷ ys) h (inl e) = subst P (sym e) h.0
  All-In P x (y ∷ ys) h (inr m) = All-In P x ys h.1 m

  pub In-retain : (p : A → Bool) (x : A) (xs : List A) → In x xs → p x ≡ true → In x (retain p xs)
  In-retain p x [] m e = m
  In-retain p x (y ∷ ys) (inl q) e =
      subst (λ t. In x (if t then y ∷ retain p ys else retain p ys)) (sym (sym (ap p q) ∙ e))
        (inl q)
  In-retain p x (y ∷ ys) (inr m) e = ground (arith, In-retain p x ys m e)

  In-of_if :
      (p : A → Bool) (x y : A) (ys : List A) (b : Bool)
      → p y ≡ b
      → (In x (retain p ys) → In x ys × (p x ≡ true))
      → In x (if b then y ∷ retain p ys else retain p ys)
      → In x (y ∷ ys) × (p x ≡ true)
  In-of_if p x y ys true e rest (inl q) = (inl q, ap p q ∙ e)
  In-of_if p x y ys true e rest (inr m) = let r = rest m in (inr r.0, r.1)
  In-of_if p x y ys false e rest m = let r = rest m in (inr r.0, r.1)

  pub In-of_retain :
      (p : A → Bool) (x : A) (xs : List A) → In x (retain p xs) → In x xs × (p x ≡ true)
  In-of_retain p x [] m = elim m [ ]
  In-of_retain p x (y ∷ ys) m = In-of_if p x y ys (p y) refl (In-of_retain p x ys) m
