-- ===== src/Core/Stress/Examples.antt =====
-- A thousand USDC of stock, four hundred of debt, a guard at 48 percent and a target of 40.
use accrue.Base.{◌≡◌, refl, none, false}
use accrue.Core.Stress.{
  StressInputs, fall_of, protect_after_the_fall, stress_with_collateral_left, stress_the_position,
}

abbrev inputs : StressInputs
inputs = record {
  collateral_value = 1_000_000_000;
  debt = 400_000_000;
  protect_ltv_bps = 4_800;
  target_ltv_bps = 4_000;
  liquidation_threshold_bps = 7_000;
  fall_bps = none;
}

-- After a fall of a fifth the guard repays eighty, back to forty percent.
stress_runs : stress_the_position inputs ≡ record {
  fall_bps = 2_000;
  collateral_after = 800_000_000;
  protect_amount = 80_000_000;
  debt_after = 320_000_000;
  loan_to_value_after_bps = 4_000;
  distance_to_liquidation_bps = 3_000;
  liquidated_before_the_guard_could_act = false;
}
unfolding stress_the_position fall_of protect_after_the_fall stress_with_collateral_left
stress_runs = refl
