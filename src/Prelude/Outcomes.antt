-- ===== src/Prelude/Outcomes.antt =====
-- What a piece of Go code does: it returns a value, it panics, or the fuel of its model runs out.
use mathlib.Core.Path.{◌≡◌, refl, ap, subst}

pub data Outcome {ℓ} (A : Type ℓ) : Type ℓ where
  ok : A → Outcome A
  panic : Outcome A
  out_of_fuel : Outcome A

infixl 5 ◌>>=◌
abbrev pub ◌>>=◌ {ℓ κ} : {A : Type ℓ} {B : Type κ} → Outcome A → (A → Outcome B) → Outcome B
ok a >>= f = f a
panic >>= f = panic
out_of_fuel >>= f = out_of_fuel

-- The value, if there is one, meets `P`, and the fuel does not run out.
abbrev pub Ends {ℓ} : {A : Type ℓ} → (A → Type 0) → Outcome A → Type 0
Ends P (ok a) = P a
Ends P panic = Unit
Ends P out_of_fuel = ⊥

-- The code returns a value, and it meets `P`.
abbrev pub Returns {ℓ} : {A : Type ℓ} → (A → Type 0) → Outcome A → Type 0
Returns P (ok a) = P a
Returns P panic = ⊥
Returns P out_of_fuel = ⊥

module _ {ℓ κ} {A : Type ℓ} {B : Type κ} where
  pub Ends-bind :
      (P : A → Type 0) (Q : B → Type 0) (m : Outcome A) (f : A → Outcome B)
      → Ends P m
      → ((a : A) → P a → Ends Q (f a))
      → Ends Q (m >>= f)
  Ends-bind P Q (ok a) f h k = k a h
  Ends-bind P Q panic f h k = tt
  Ends-bind P Q out_of_fuel f h k = absurd h

  pub Returns-bind :
      (P : A → Type 0) (Q : B → Type 0) (m : Outcome A) (f : A → Outcome B)
      → Returns P m
      → ((a : A) → P a → Returns Q (f a))
      → Returns Q (m >>= f)
  Returns-bind P Q (ok a) f h k = k a h
  Returns-bind P Q panic f h k = absurd h
  Returns-bind P Q out_of_fuel f h k = absurd h

  pub Returns-Ends-bind :
      (P : A → Type 0) (Q : B → Type 0) (m : Outcome A) (f : A → Outcome B)
      → Returns P m
      → ((a : A) → P a → Ends Q (f a))
      → Ends Q (m >>= f)
  Returns-Ends-bind P Q (ok a) f h k = k a h
  Returns-Ends-bind P Q panic f h k = absurd h
  Returns-Ends-bind P Q out_of_fuel f h k = absurd h

module _ {ℓ} {A : Type ℓ} where
  pub Returns-weaken :
      (P Q : A → Type 0) (m : Outcome A) → ((a : A) → P a → Q a) → Returns P m → Returns Q m
  Returns-weaken P Q (ok a) k h = k a h
  Returns-weaken P Q panic k h = h
  Returns-weaken P Q out_of_fuel k h = h

  pub Ends-weaken : (P Q : A → Type 0) (m : Outcome A) → ((a : A) → P a → Q a) → Ends P m → Ends Q m
  Ends-weaken P Q (ok a) k h = k a h
  Ends-weaken P Q panic k h = h
  Ends-weaken P Q out_of_fuel k h = h

  pub Returns-Ends : (P : A → Type 0) (m : Outcome A) → Returns P m → Ends P m
  Returns-Ends P (ok a) h = h
  Returns-Ends P panic h = absurd h
  Returns-Ends P out_of_fuel h = h

  pub Ends-ok : (P : A → Type 0) (m : Outcome A) (a : A) → m ≡ ok a → Ends P m → P a
  Ends-ok P m a e h = subst (λ o. Ends P o) e h

abbrev or_value {ℓ} : {A : Type ℓ} → A → Outcome A → A
or_value a (ok b) = b
or_value a m = a

pub ok_eq {ℓ} : {A : Type ℓ} (a b : A) → ok a ≡ ok b → a ≡ b
ok_eq a b h = ap (or_value a) h

-- What a piece of code returned that was put together from two.
pub bind_ok {ℓ κ} :
    {A : Type ℓ} {B : Type κ} (m : Outcome A) (f : A → Outcome B) {b : B}
    → (m >>= f) ≡ ok b
    → (a : A) × (m ≡ ok a) × (f a ≡ ok b)
bind_ok (ok a) f h = (a, refl, h)
bind_ok panic f h = cc
bind_ok out_of_fuel f h = cc
