-- ===== src/Core/Guard/Closing.antt =====
-- What the owner adds to close, and the fee on a realised profit.
use accrue.Base.{
  ℕ, ◌+◌, ◌-◌, ◌*◌, ◌≤◌, ◌<◌, ◌≡◌, arith, Bool-cases, ltb, ◌==◌, ==_iff, inl, inr, if◌then◌else◌,
}
use native.Mathlib.Nat.{le_trans, mul-le-mul_left, div-le_of_le-mul}
use accrue.Base.Division.{ceil_div-le_iff, div_up-eq-ceil_div}
use accrue.Core.Money.Rounding.{IsLeast}
use accrue.Core.Guard.{
  ClosingCost, performance_fee_on_realised_profit, divide_rounding_up, usdc_needed_to_close,
}

-- The fee is never more than the profit that it is taken from.
fee-le :
    (sold repaid fee_bps : ℕ)
    → fee_bps ≤ 10_000
    → performance_fee_on_realised_profit sold repaid fee_bps ≤ sold - repaid
unfolding performance_fee_on_realised_profit
fee-le sold repaid fee_bps h =
    let profit-eq : (if ltb repaid sold then sold - repaid else 0) ≡ sold - repaid = ground arith in
    rw profit-eq
      (div-le_of_le-mul 10_000 (le_trans (mul-le-mul_left (sold - repaid) h) (omega arith)))

-- guard.ts rounds up by adding the divisor less one.
divide_rounding_up-IsLeast : (n d : ℕ) → 0 < d → IsLeast (λ x. n ≤ x * d) (divide_rounding_up n d)
unfolding divide_rounding_up
divide_rounding_up-IsLeast n d h x = elim (Bool-cases (n == 0)) [
  | inl e ↦ rw e (λ k. omega (arith, (==_iff n 0).0 e), λ k. omega arith)
  | inr e ↦ rw e (rw (div_up-eq-ceil_div n d h) (ceil_div-le_iff x n d h))
]

-- What the owner needs is the least amount that, with what the sale brings, pays the debt, the fee
-- on the profit, and the least whole amount of interest that covers a day at the borrow rate.
pub usdc_needed_to_close_lem :
    (cost : ClosingCost)
    → (interest : ℕ) × IsLeast (λ x. cost.debt * cost.borrow_rate_bps ≤ x * (10_000 * 365)) interest
      × IsLeast
          (λ x.
            cost.debt
              + interest
              + performance_fee_on_realised_profit cost.quoted_usdc_out cost.debt
                  cost.fee_bps_at_open
            ≤ cost.quoted_usdc_out + x)
          (usdc_needed_to_close cost)
unfolding usdc_needed_to_close
usdc_needed_to_close_lem cost = (
  divide_rounding_up (cost.debt * cost.borrow_rate_bps) (10_000 * 365),
  divide_rounding_up-IsLeast (cost.debt * cost.borrow_rate_bps) (10_000 * 365) (omega arith),
  λ x. ground arith,
)

-- While the fee is at most the whole profit and the sale covers the debt, the owner adds a day's
-- interest at the most, however large the fee.
pub usdc_needed_to_close-le :
    (cost : ClosingCost) (x : ℕ)
    → cost.fee_bps_at_open ≤ 10_000
    → cost.debt ≤ cost.quoted_usdc_out
    → cost.debt * cost.borrow_rate_bps ≤ x * (10_000 * 365)
    → usdc_needed_to_close cost ≤ x
usdc_needed_to_close-le cost x fee covered day =
    let (interest, least, needed) = usdc_needed_to_close_lem cost in
    (needed x).1 (
      omega
        (arith, (least x).1 day, fee-le cost.quoted_usdc_out cost.debt cost.fee_bps_at_open fee))
