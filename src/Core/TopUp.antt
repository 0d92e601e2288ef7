-- ===== src/Core/TopUp.antt =====
-- packages/core/src/positions/topUp.ts and priceMargin.ts: what a position may borrow against value
-- added to it, in scaled dollars.
pub mod Room
mod Examples
use accrue.Base.{ℕ, ◌+◌, ◌-◌, ◌*◌, ◌/◌, ltb, ◌==◌, Bool, if◌then◌else◌}
use accrue.Core.Money.{basis_points_denominator, scaled_fraction_one}

abbrev pub the_price_may_have_moved_bps : ℕ
the_price_may_have_moved_bps = 100

unfoldable pub valued_for_borrowing : ℕ → ℕ
valued_for_borrowing collateral_value_scaled =
    collateral_value_scaled
    * (basis_points_denominator - the_price_may_have_moved_bps)
    / basis_points_denominator

abbrev pub room_left_under_target_bps : ℕ
room_left_under_target_bps = 10

abbrev pub a_cent_scaled : ℕ
a_cent_scaled = scaled_fraction_one / 100

unfoldable pub the_borrow_to_ask_for : ℕ → ℕ
the_borrow_to_ask_for room_scaled =
    let share = room_scaled * room_left_under_target_bps / basis_points_denominator in
    let margin = if ltb a_cent_scaled share then share else a_cent_scaled in
    if ltb margin room_scaled then room_scaled - margin else 0

pub record PositionNow : Type 0 where
  pub collateral_value_scaled : ℕ
  pub adjusted_debt_value_scaled : ℕ
  pub target_ltv_bps : ℕ

pub record TopUpSizing : Type 0 where
  pub added_value_scaled : ℕ
  pub borrow_value_scaled : ℕ
  pub collateral_value_after_scaled : ℕ
  pub debt_value_after_scaled : ℕ
  pub loan_to_value_after_bps : ℕ

-- The last argument is `againstAPriceThatMayHaveMoved`.
unfoldable pub borrow_for_added_value : PositionNow → ℕ → Bool → ℕ
borrow_for_added_value position added_value_scaled against_a_price_that_may_have_moved =
    let held = position.collateral_value_scaled + added_value_scaled in
    let collateral_after =
      if against_a_price_that_may_have_moved then valued_for_borrowing held else held in
    let allowed = collateral_after * position.target_ltv_bps / basis_points_denominator in
    if ltb position.adjusted_debt_value_scaled allowed
    then allowed - position.adjusted_debt_value_scaled
    else 0

unfoldable pub loan_to_value_bps_after : ℕ → ℕ → ℕ
loan_to_value_bps_after collateral_value_scaled debt_value_scaled =
    if collateral_value_scaled == 0
    then 0
    else debt_value_scaled * basis_points_denominator / collateral_value_scaled

-- The last argument is `leaveRoomUnderTheTarget`.
unfoldable pub size_a_top_up : PositionNow → ℕ → Bool → TopUpSizing
size_a_top_up position added_value_scaled leave_room_under_the_target =
    let room = borrow_for_added_value position added_value_scaled leave_room_under_the_target in
    let borrow_value_scaled =
      if leave_room_under_the_target then the_borrow_to_ask_for room else room in
    let collateral_value_after_scaled = position.collateral_value_scaled + added_value_scaled in
    let debt_value_after_scaled = position.adjusted_debt_value_scaled + borrow_value_scaled in
    record {
      added_value_scaled = added_value_scaled;
      borrow_value_scaled = borrow_value_scaled;
      collateral_value_after_scaled = collateral_value_after_scaled;
      debt_value_after_scaled = debt_value_after_scaled;
      loan_to_value_after_bps =
          loan_to_value_bps_after collateral_value_after_scaled debt_value_after_scaled;
    }
