-- ===== src/Common/Outcome.antt =====
-- The result of code that may panic, fail or loop. A release build aborts on a panic; `failed` is
-- `Err(())`, which ends the loop of the component's task. `out_of_fuel` marks a loop that was cut
-- off; theorems show where it cannot happen.

pub data Outcome {ℓ} (A : Type ℓ) : Type ℓ where
  done : A → Outcome A
  panicked : Outcome A
  failed : Outcome A
  out_of_fuel : Outcome A

infixl 5 ◌>>=◌ ◌>>◌
abbrev pub ◌>>=◌ {ℓ κ} : {A : Type ℓ} {B : Type κ} → Outcome A → (A → Outcome B) → Outcome B
done a >>= f = f a
panicked >>= f = panicked
failed >>= f = failed
out_of_fuel >>= f = out_of_fuel

abbrev pub ◌>>◌ {ℓ} : {B : Type ℓ} → Outcome (Unit {0}) → Outcome B → Outcome B
m >> k = m >>= λ _. k

-- The result of a call satisfies `P`, if the call returns.
abbrev pub IfDone {ℓ κ} : {A : Type ℓ} → (A → Type κ) → Outcome A → Type κ
IfDone P (done a) = P a
IfDone P panicked = Unit
IfDone P failed = Unit
IfDone P out_of_fuel = Unit

module _ {ℓ κ μ} {A : Type ℓ} {B : Type κ} where
  -- A property of the result of a chain of two calls.
  pub IfDone-bind :
      (P : A → Type μ) (Q : B → Type μ) (m : Outcome A) (f : A → Outcome B)
      → IfDone P m
      → ((a : A) → P a → IfDone Q (f a))
      → IfDone Q (m >>= f)
  IfDone-bind P Q (done a) f h g = g a h
  IfDone-bind P Q panicked f h g = tt
  IfDone-bind P Q failed f h g = tt
  IfDone-bind P Q out_of_fuel f h g = tt

  -- The same, where nothing is known of the first call.
  pub IfDone-after :
      (Q : B → Type μ) (m : Outcome A) (f : A → Outcome B)
      → ((a : A) → IfDone Q (f a))
      → IfDone Q (m >>= f)
  IfDone-after Q (done a) f g = g a
  IfDone-after Q panicked f g = tt
  IfDone-after Q failed f g = tt
  IfDone-after Q out_of_fuel f g = tt

-- A property of the result that follows from another.
pub IfDone-map {ℓ κ μ} :
    {A : Type ℓ} (P : A → Type κ) (Q : A → Type μ) (m : Outcome A)
    → ((a : A) → P a → Q a)
    → IfDone P m
    → IfDone Q m
IfDone-map P Q (done a) f h = f a h
IfDone-map P Q panicked f h = tt
IfDone-map P Q failed f h = tt
IfDone-map P Q out_of_fuel f h = tt
