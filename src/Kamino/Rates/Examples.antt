-- ===== src/Kamino/Rates/Examples.antt =====
-- A reserve that is half lent out, and the witness of the theorem on its rates.
use accrue.Base.{ℕ, ◌*◌, ◌^◌, ◌≤◌, ◌≡◌, refl, arith, true, false, none, [], ◌∷◌}
use accrue.Base.Int.{pos, ◌≤ℤ◌}
use accrue.Base.Text.{text}
use accrue.Kamino.Rates.{borrow_rate_bps, supply_rate_bps}
use accrue.Kamino.Rates.Between.{rates-le}
use accrue.Kamino.Reserve.{BorrowCurvePoint, ReserveSnapshot, WithdrawalCapSnapshot}

abbrev point : ℕ → ℕ → BorrowCurvePoint
point utilisation rate = record { utilisation_bps = utilisation; borrow_rate_bps = rate }

abbrev cap : WithdrawalCapSnapshot
cap = record {
  capacity = pos 0;
  used_in_this_window = pos 0;
  window_started_at = 0;
  window_length_seconds = 0;
}

abbrev reserve : ReserveSnapshot
reserve = record {
  lending_market = text "market";
  liquidity_mint = text "mint";
  liquidity_mint_decimals = 6;
  liquidity_token_program = text "tokens";
  liquidity_supply_vault = text "supply";
  liquidity_fee_vault = text "fees";
  liquidity_available_amount = 500;
  liquidity_market_price_scaled = 2 ^ 60;
  borrow_factor_pct = 100;
  deposit_limit_crossed_timestamp = 0;
  borrow_limit_crossed_timestamp = 0;
  collateral_mint = text "collateral";
  collateral_mint_total_supply = 1_000;
  collateral_supply_vault = text "vault";
  max_loan_to_value_bps = 7_500;
  liquidation_threshold_bps = 8_000;
  status = 0;
  is_active = true;
  is_obsolete = false;
  autodeleverage_enabled = false;
  deleveraging_margin_call_period_seconds = 0;
  collateral_farm = none;
  debt_farm = none;
  scope_price_account = text "scope";
  scope_feed_index = 0;
  liquidity_borrowed_scaled = 500 * 2 ^ 60;
  protocol_take_rate_pct = 20;
  borrow_rate_curve = point 0 100 ∷ point 8_000 500 ∷ point 10_000 5_000 ∷ [];
  deposit_limit = 1_000_000;
  borrow_limit = 1_000_000;
  deposit_withdrawal_cap = cap;
  debt_withdrawal_cap = cap;
}

three_and_a_half_percent : borrow_rate_bps reserve ≡ 350
unfolding borrow_rate_bps
three_and_a_half_percent = refl

rates-le_example :
    (borrow_rate_bps reserve ≤ 5_000) × (supply_rate_bps reserve ≤ℤ pos (borrow_rate_bps reserve))
rates-le_example = rates-le reserve 5_000 (omega arith, (omega arith, (omega arith, tt)))
