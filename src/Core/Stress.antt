-- ===== src/Core/Stress.antt =====
-- packages/core/src/risk/stress.ts: what a fall of the stock would do to a position. A fall is at
-- most the whole price: past 10,000 basis points the source's remainder is negative, which these
-- natural numbers do not represent.
pub mod Outcomes
mod Examples
use accrue.Base.{
  ℕ, ◌+◌, ◌-◌, ◌*◌, ◌/◌, ltb, leb, ◌==◌, Bool, true, false, not, ◌&&◌, Option, none, some, max,
  if◌then◌else◌,
}
use accrue.Core.Money.{basis_points_denominator}

abbrev pub stress_fall_bps : ℕ
stress_fall_bps = 2_000

pub record StressInputs : Type 0 where
  pub collateral_value : ℕ
  pub debt : ℕ
  pub protect_ltv_bps : ℕ
  pub target_ltv_bps : ℕ
  pub liquidation_threshold_bps : ℕ
  pub fall_bps : Option ℕ

pub record StressResult : Type 0 where
  pub fall_bps : ℕ
  pub collateral_after : ℕ
  pub protect_amount : ℕ
  pub debt_after : ℕ
  pub loan_to_value_after_bps : ℕ
  pub distance_to_liquidation_bps : ℕ
  pub liquidated_before_the_guard_could_act : Bool

-- `inputs.fallBps ?? STRESS_FALL_BPS`
unfoldable pub fall_of : Option ℕ → ℕ
fall_of none = stress_fall_bps
fall_of (some fall) = fall

-- The debt and what the guard repays of it, as the branch of the guard leaves them.
unfoldable pub protect_after_the_fall : StressInputs → ℕ → ℕ → Bool → ℕ × ℕ
protect_after_the_fall inputs collateral_after loan_to_value_bps liquidated_first =
    if not liquidated_first && leb inputs.protect_ltv_bps loan_to_value_bps
    then (let wanted_debt = collateral_after * inputs.target_ltv_bps / basis_points_denominator in
        let protect_amount = if ltb wanted_debt inputs.debt then inputs.debt - wanted_debt else 0 in
        (protect_amount, inputs.debt - protect_amount))
    else (0, inputs.debt)

-- The position with some collateral left after the fall.
unfoldable pub stress_with_collateral_left : StressInputs → ℕ → ℕ → StressResult
stress_with_collateral_left inputs fall_bps collateral_after =
    let loan_to_value_bps = inputs.debt * basis_points_denominator / collateral_after in
    let liquidated_first = leb inputs.liquidation_threshold_bps loan_to_value_bps in
    let (protect_amount, debt_after) =
      protect_after_the_fall inputs collateral_after loan_to_value_bps liquidated_first in
    let final_loan_to_value_bps = debt_after * basis_points_denominator / collateral_after in
    record {
      fall_bps = fall_bps;
      collateral_after = collateral_after;
      protect_amount = protect_amount;
      debt_after = debt_after;
      loan_to_value_after_bps = final_loan_to_value_bps;
      -- `Math.max(threshold - final, 0)`
      distance_to_liquidation_bps = inputs.liquidation_threshold_bps - final_loan_to_value_bps;
      liquidated_before_the_guard_could_act = liquidated_first;
    }

unfoldable pub stress_the_position : StressInputs → StressResult
stress_the_position inputs =
    let fall_bps = fall_of inputs.fall_bps in
    let remaining = basis_points_denominator - fall_bps in
    let collateral_after = inputs.collateral_value * remaining / basis_points_denominator in
    if collateral_after == 0
    then record {
      fall_bps = fall_bps;
      collateral_after = collateral_after;
      protect_amount = 0;
      debt_after = inputs.debt;
      loan_to_value_after_bps = basis_points_denominator;
      distance_to_liquidation_bps = 0;
      liquidated_before_the_guard_could_act = true;
    }
    else stress_with_collateral_left inputs fall_bps collateral_after
