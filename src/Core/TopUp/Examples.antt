-- ===== src/Core/TopUp/Examples.antt =====
-- A position of a thousand units of value, four hundred of debt and a target of fifty percent.
use accrue.Base.{◌≤◌, ◌≡◌, refl, arith, true, false}
use accrue.Core.TopUp.{PositionNow, size_a_top_up, borrow_for_added_value, loan_to_value_bps_after}
use accrue.Core.TopUp.Room.{size_a_top_up_survives_a_fall}

abbrev position : PositionNow
position = record {
  collateral_value_scaled = 1_000;
  adjusted_debt_value_scaled = 400;
  target_ltv_bps = 5_000;
}

sizing_runs : (size_a_top_up position 500 false).borrow_value_scaled ≡ 350
unfolding size_a_top_up borrow_for_added_value
sizing_runs = refl

size_a_top_up_survives_a_fall_example :
    loan_to_value_bps_after 1_485 (size_a_top_up position 500 true).debt_value_after_scaled ≤ 5_000
size_a_top_up_survives_a_fall_example =
    size_a_top_up_survives_a_fall position 500 1_485 (omega arith) (omega arith)

abbrev stretched : PositionNow
stretched = record {
  collateral_value_scaled = 1_000;
  adjusted_debt_value_scaled = 700;
  target_ltv_bps = 5_000;
}
