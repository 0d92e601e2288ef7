-- ===== src/Base/Division.antt =====
-- Division rounded up and down, by the inequality that each one decides.
use Prim.Native.Nat.{ℕ, ◌+◌, ◌-◌, ◌*◌, ◌/◌, ◌%◌, ◌≤◌, ◌<◌}
use mathlib.Core.Logic.{◌↔◌, inl, inr}
use mathlib.Core.Path.{◌≡◌}
use native.Mathlib.Omega.{arith}
use native.Mathlib.Nat.{
  le-div_iff_mul-le, div-add-mod', mod-lt, le_trans, le_refl, mul-le-mul_right,
  lt_of_mul-lt-mul_left, div-lt_iff_lt-mul,
}
use accrue.Base.Tests.{◌==◌, ==_iff, ==_false, Bool-cases, if◌then◌else◌}

-- The source's `n % d === 0n ? n / d : n / d + 1n`.
unfoldable pub ceil_div : ℕ → ℕ → ℕ
ceil_div n d = if n % d == 0 then n / d else n / d + 1

-- `x` lies at or under the quotient rounded down exactly when `x * d` lies at or under `n`.
pub le-div_iff : (x n d : ℕ) → 0 < d → (x ≤ n / d) ↔ (x * d ≤ n)
le-div_iff x n d h = le-div_iff_mul-le h

pub div-mul-le : (n d : ℕ) → n / d * d ≤ n
div-mul-le n d = omega (arith, div-add-mod' n d)

pub le-ceil_div-mul : (n d : ℕ) → 0 < d → n ≤ ceil_div n d * d
unfolding ceil_div
le-ceil_div-mul n d h = elim (Bool-cases (n % d == 0)) [
  | inl e ↦ rw e (omega (arith, (==_iff _ _).0 e, div-add-mod' n d))
  | inr e ↦ rw e (omega (arith, div-add-mod' n d, mod-lt n h))
]

pub ceil_div-mul-lt : (n d : ℕ) → 0 < d → ceil_div n d * d < n + d
unfolding ceil_div
ceil_div-mul-lt n d h = elim (Bool-cases (n % d == 0)) [
  | inl e ↦ rw e (omega (arith, div-add-mod' n d))
  | inr e ↦ rw e (omega (arith, ==_false (n % d) 0 e, div-add-mod' n d))
]

-- The quotient rounded up lies at or under `x` exactly when `n` lies at or under `x * d`.
pub ceil_div-le_iff : (x n d : ℕ) → 0 < d → (ceil_div n d ≤ x) ↔ (n ≤ x * d)
ceil_div-le_iff x n d h = (up, down)
  where
    up : ceil_div n d ≤ x → n ≤ x * d
    up k = le_trans (le-ceil_div-mul n d h) (mul-le-mul_right d k)

    small : n ≤ x * d → d * ceil_div n d < d * (x + 1)
    small k = omega (arith, ceil_div-mul-lt n d h)

    down : n ≤ x * d → ceil_div n d ≤ x
    down k = omega (arith, lt_of_mul-lt-mul_left d (small k))

-- Two numbers with the same upper bounds are equal.
eq_of_iff : (a b : ℕ) → ((x : ℕ) → (a ≤ x) ↔ (b ≤ x)) → a ≡ b
eq_of_iff a b h = omega (arith, (h a).0 (le_refl a), (h b).1 (le_refl b))

-- `(n + d - 1n) / d` is the same quotient.
pub div_up-eq-ceil_div : (n d : ℕ) → 0 < d → (n + d - 1) / d ≡ ceil_div n d
div_up-eq-ceil_div n d h = eq_of_iff ((n + d - 1) / d) (ceil_div n d) (λ x. (down x, up x))
  where
    iff : (x : ℕ) → ((n + d - 1) / d < x + 1) ↔ (n + d - 1 < (x + 1) * d)
    iff x = div-lt_iff_lt-mul h

    down : (x : ℕ) → (n + d - 1) / d ≤ x → ceil_div n d ≤ x
    down x k = (ceil_div-le_iff x n d h).1 (omega (arith, (iff x).0 (omega arith)))

    bound : (x : ℕ) → ceil_div n d ≤ x → n + d - 1 < (x + 1) * d
    bound x k = omega (arith, (ceil_div-le_iff x n d h).0 k)

    up : (x : ℕ) → ceil_div n d ≤ x → (n + d - 1) / d ≤ x
    up x k = omega (arith, (iff x).1 (bound x k))
