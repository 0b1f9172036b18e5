-- ===== src/Prelude/Results.antt =====
-- What a call that may throw gives back, for every type of errors.
use mathlib.Core.Path.{◌≡◌, refl, subst}
use mathlib.Core.Logic.{◌⊎◌, inl, inr}
use mathlib.Core.Option.{Option, none, some}

pub data Result {ℓ} (E : Type ℓ) (A : Type ℓ) : Type ℓ where
  err : E → Result E A
  ok : A → Result E A

module _ {ℓ} {E A B : Type ℓ} where
  infixl 5 ◌>>=◌
  abbrev pub ◌>>=◌ : Result E A → (A → Result E B) → Result E B
  err thrown >>= next = err thrown
  ok a >>= next = next a

  -- A chain that succeeds has succeeded at each step.
  pub >>=-eq-ok :
      (first : Result E A) (next : A → Result E B) {b : B}
      → (first >>= next) ≡ ok b
      → (a : A) × (first ≡ ok a) × (next a ≡ ok b)
  >>=-eq-ok (err thrown) next h = cc
  >>=-eq-ok (ok a) next h = (a, refl, h)

module _ {ℓ} {E A : Type ℓ} where
  pub Result-cases : (r : Result E A) → ((a : A) × (r ≡ ok a)) ⊎ ((e : E) × (r ≡ err e))
  Result-cases (err e) = inr (e, refl)
  Result-cases (ok a) = inl (a, refl)

module _ {A : Type 0} where
  -- What holds of the value, where there is one.
  abbrev pub Gives : (A → Type 0) → Option A → Type 0
  Gives P none = Unit {0}
  Gives P (some a) = P a

  pub Gives-some : (P : A → Type 0) (o : Option A) (a : A) → Gives P o → o ≡ some a → P a
  Gives-some P none a g e = cc
  Gives-some P (some b) a g e = subst P (cc) g

  pub Gives-map :
      {P Q : A → Type 0} → ((a : A) → P a → Q a) → (o : Option A) → Gives P o → Gives Q o
  Gives-map f none g = tt
  Gives-map f (some a) g = f a g
