-- ===== src/Common/Outcomes.antt =====
-- How a piece of C++ code ends: it returns, throws an exception, fails an assertion, or does
-- what the language leaves undefined (an index out of bounds).

use mathlib.Core.Path.{◌≡◌, refl, subst, sym}

pub data Outcome {ℓ} (A : Type ℓ) : Type ℓ where
  returns : A → Outcome A
  throws : Outcome A
  aborts : Outcome A
  undefined : Outcome A

infixl 5 ◌>>=◌
abbrev pub ◌>>=◌ {ℓ κ} : {A : Type ℓ} {B : Type κ} → Outcome A → (A → Outcome B) → Outcome B
returns a >>= f = f a
throws >>= f = throws
aborts >>= f = aborts
undefined >>= f = undefined

-- What a bind that returns was made of.
pub >>=-eq-returns {ℓ κ} :
    {A : Type ℓ} {B : Type κ} (m : Outcome A) (f : A → Outcome B) {b : B}
    → (m >>= f) ≡ returns b
    → (a : A) × (m ≡ returns a) × (f a ≡ returns b)
>>=-eq-returns (returns a) f h = (a, refl, h)
>>=-eq-returns throws f h = cc
>>=-eq-returns aborts f h = cc
>>=-eq-returns undefined f h = cc

pub returns_inj {ℓ} : {A : Type ℓ} {a b : A} → returns a ≡ returns b → a ≡ b
returns_inj h = cc

-- If the code returns, the result has the property.
abbrev pub Ensures {ℓ} : {A : Type ℓ} → (A → Type 0) → Outcome A → Type 0
Ensures P (returns a) = P a
Ensures P throws = Unit
Ensures P aborts = Unit
Ensures P undefined = Unit

-- The code returns, and the result has the property.
abbrev pub Returns {ℓ} : {A : Type ℓ} → (A → Type 0) → Outcome A → Type 0
Returns P (returns a) = P a
Returns P throws = ⊥
Returns P aborts = ⊥
Returns P undefined = ⊥

module _ {ℓ} {A : Type ℓ} (P : A → Type 0) where
  pub Ensures-returns : (m : Outcome A) {a : A} → m ≡ returns a → Ensures P m → P a
  Ensures-returns m e h = subst (Ensures P) e h

  pub Returns-Ensures : (m : Outcome A) → Returns P m → Ensures P m
  Returns-Ensures (returns a) h = h
  Returns-Ensures throws h = tt
  Returns-Ensures aborts h = tt
  Returns-Ensures undefined h = tt

  pub Returns-eq : (m : Outcome A) → Returns P m → (a : A) × (m ≡ returns a) × P a
  Returns-eq (returns a) h = (a, refl, h)
  Returns-eq throws h = absurd h
  Returns-eq aborts h = absurd h
  Returns-eq undefined h = absurd h

module _ {ℓ κ} {A : Type ℓ} {B : Type κ} (P : A → Type 0) (Q : B → Type 0) where
  pub Ensures-bind :
      (m : Outcome A) (f : A → Outcome B)
      → Ensures P m
      → ((a : A) → P a → Ensures Q (f a))
      → Ensures Q (m >>= f)
  Ensures-bind (returns a) f h k = k a h
  Ensures-bind throws f h k = tt
  Ensures-bind aborts f h k = tt
  Ensures-bind undefined f h k = tt

  pub Returns-bind :
      (m : Outcome A) (f : A → Outcome B)
      → Returns P m
      → ((a : A) → P a → Returns Q (f a))
      → Returns Q (m >>= f)
  Returns-bind (returns a) f h k = k a h
  Returns-bind throws f h k = absurd h
  Returns-bind aborts f h k = absurd h
  Returns-bind undefined f h k = absurd h

module _ {ℓ} {A : Type ℓ} (P Q : A → Type 0) where
  pub Ensures-map : (m : Outcome A) → Ensures P m → ((a : A) → P a → Q a) → Ensures Q m
  Ensures-map (returns a) h k = k a h
  Ensures-map throws h k = tt
  Ensures-map aborts h k = tt
  Ensures-map undefined h k = tt

  pub Returns-map : (m : Outcome A) → Returns P m → ((a : A) → P a → Q a) → Returns Q m
  Returns-map (returns a) h k = k a h
  Returns-map throws h k = h
  Returns-map aborts h k = h
  Returns-map undefined h k = h

pub Returns-of_eq {ℓ} :
    {A : Type ℓ} (P : A → Type 0) (m : Outcome A) (a : A) → m ≡ returns a → P a → Returns P m
Returns-of_eq P m a e h = subst (Returns P) (sym e) h
