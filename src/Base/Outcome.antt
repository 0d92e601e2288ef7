-- ===== src/Base/Outcome.antt =====
-- A call of a function that may throw: its value, or what it threw.
use mathlib.Core.Path.{◌≡◌, refl}
use mathlib.Core.Logic.{◌⊎◌, inl, inr}
use mathlib.Core.Bool.{Bool, true, false}
use accrue.Base.Tests.{if◌then◌else◌}

pub data Outcome {ε α} (E : Type ε) (A : Type α) : Type (ε ⊔ α) where
  ok : A → Outcome E A
  throw : E → Outcome E A

module _ {ε α β} {E : Type ε} {A : Type α} {B : Type β} where
  infixl 5 ◌>>=◌
  abbrev pub ◌>>=◌ : Outcome E A → (A → Outcome E B) → Outcome E B
  throw failure >>= next = throw failure
  ok value >>= next = next value

  -- A sequence that returns has had a first call that returned, and its rest returns the result.
  pub first_returned :
      {result : B} (next : A → Outcome E B) (first : Outcome E A)
      → (first >>= next) ≡ ok result
      → (value : A) × (first ≡ ok value) × (next value ≡ ok result)
  first_returned next (throw failure) returned = cc
  first_returned next (ok value) returned = (value, refl, returned)

-- Two results of one call are the same.
pub ok-injective {ε α} :
    {E : Type ε} {A : Type α} {a b : A} → ◌≡◌ {A = Outcome E A} (ok a) (ok b) → a ≡ b
ok-injective h = cc

-- What a call of a service gave, and the world after it.
pub call-cases {ε α ω} :
    {E : Type ε} {A : Type α} {W : Type ω} (result : Outcome E A × W)
    → ((value : A) × (w : W) × (result ≡ (ok value, w)))
      ⊎ ((failure : E) × (w : W) × (result ≡ (throw failure, w)))
call-cases (ok value, w) = inl (value, w, refl)
call-cases (throw failure, w) = inr (failure, w, refl)

-- What returns past a test that throws has not met the test.
pub past_the_throw {ε α} :
    {E : Type ε} {A : Type α} {value : A} (test : Bool) (failure : E) (rest : Outcome E A)
    → (if test then throw failure else rest) ≡ ok value
    → (test ≡ false) × (rest ≡ ok value)
past_the_throw true failure rest h = cc
past_the_throw false failure rest h = (refl, h)
