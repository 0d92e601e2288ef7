-- ===== src/Core/Guard/Examples.antt =====
-- The guard's theorems at one position: a hundred dollars of stock, sixty of weighted debt, a target
-- of fifty percent, a borrow factor of 120 percent.
use accrue.Base.{ℕ, ◌*◌, ◌^◌, ◌≤◌, ◌≡◌, refl, arith, true, false}
use accrue.Base.Outcome.{ok}
use accrue.Base.Division.{ceil_div}
use accrue.Core.Money.{
  raw_amount_worth_rounding_up, raw_amount_worth_rounding_down, usd_value_of_scaled,
  add_the_slippage_buffer, require_in_range, divide_rounding_up, ten_to_the,
}
use accrue.Core.Guard.{
  ProtectSale, ClosingCost, DeleverageSignals, value_allowed_at_target,
  weighted_value_as_real_value, repay_to_reach_target, borrow_to_reach_target, protect_amounts,
  loan_to_value_bps, smaller, destination_to_sell_for_protect, there_is_a_reason_to_leave,
  a_margin_call_period_has_elapsed,
}
use accrue.Core.Guard.Target.{repay_to_reach_target_reaches, borrow_to_reach_target_stays}
use accrue.Core.Guard.Sale.{IsMadeFor, destination_to_sell_for_protect_lem}
use accrue.Core.Guard.Returning.{ReturnsOrDoesNotFit, destination_to_sell_for_protect_total}
use accrue.Core.Guard.Leaving.{Reason, there_is_a_reason_to_leave_lem}

repay_runs : repay_to_reach_target 6_000 10_000 5_000 120 ≡ ok 834
unfolding repay_to_reach_target weighted_value_as_real_value value_allowed_at_target ceil_div
repay_runs = refl

borrow_runs : borrow_to_reach_target 4_000 10_000 5_000 120 ≡ ok 833
unfolding borrow_to_reach_target weighted_value_as_real_value value_allowed_at_target
borrow_runs = refl

repay_to_reach_target_reaches_example : loan_to_value_bps 4_999 10_000 ≤ 5_000
repay_to_reach_target_reaches_example =
    repay_to_reach_target_reaches 6_000 10_000 5_000 120 834 834 4_999 repay_runs (omega arith)
      (omega arith)

borrow_to_reach_target_stays_example : loan_to_value_bps 4_999 10_000 ≤ 5_000
unfolding value_allowed_at_target
borrow_to_reach_target_stays_example =
    borrow_to_reach_target_stays 4_000 10_000 5_000 120 833 833 4_999 borrow_runs (omega arith)
      (omega arith) (omega arith)

abbrev dollar : ℕ
dollar = 2 ^ 60

abbrev a_sale : ProtectSale
a_sale = record {
  adjusted_debt_value_scaled = 60 * dollar;
  deposited_value_scaled = 100 * dollar;
  target_ltv_bps = 5_000;
  borrow_factor_pct = 100;
  keeper_bounty_bps = 50;
  keeper_bounty_cap_usdc = 20_000;
  max_slippage_bps = 100;
  usdc_decimals = 6;
  usdc_price_scaled = dollar;
  destination_decimals = 9;
  destination_price_scaled = dollar;
  destination_balance = 40_000_000_000;
}

-- Ten dollars to repay and a bounty capped at two cents, with one percent of slippage.
sale_runs : destination_to_sell_for_protect a_sale ≡ ok 10_121_212_122
unfolding destination_to_sell_for_protect protect_amounts repay_to_reach_target
    weighted_value_as_real_value value_allowed_at_target raw_amount_worth_rounding_up
    raw_amount_worth_rounding_down usd_value_of_scaled add_the_slippage_buffer require_in_range
    divide_rounding_up ten_to_the ceil_div smaller
sale_runs = refl

destination_to_sell_for_protect_lem_example : IsMadeFor a_sale 10_121_212_122
destination_to_sell_for_protect_lem_example =
    destination_to_sell_for_protect_lem a_sale 10_121_212_122 sale_runs

destination_to_sell_for_protect_total_example :
    ReturnsOrDoesNotFit (destination_to_sell_for_protect a_sale)
destination_to_sell_for_protect_total_example =
    destination_to_sell_for_protect_total a_sale (omega arith) (omega arith) (omega arith)
      (omega arith)

-- A thousand USDC owed at ten percent a year, sold for 1,100, with a fee of a tenth of the profit.
abbrev a_cost : ClosingCost
a_cost = record {
  debt = 1_000_000_000;
  quoted_usdc_out = 1_100_000_000;
  fee_bps_at_open = 1_000;
  borrow_rate_bps = 1_000;
}

-- A deposit limit crossed at time 100, with a period of 50.
abbrev signals : DeleverageSignals
signals = record {
  reserve_status_obsolete = false;
  program_is_retiring = false;
  obligation_margin_call_started_at = 0;
  market_autodeleverage_enabled = true;
  reserve_autodeleverage_enabled = true;
  deposit_limit_crossed_at = 100;
  borrow_limit_crossed_at = 0;
  margin_call_period_seconds = 50;
}

signals_run : there_is_a_reason_to_leave signals 150 ≡ true
unfolding there_is_a_reason_to_leave a_margin_call_period_has_elapsed
signals_run = refl

signals_wait : there_is_a_reason_to_leave signals 149 ≡ false
unfolding there_is_a_reason_to_leave a_margin_call_period_has_elapsed
signals_wait = refl

there_is_a_reason_to_leave_lem_example : Reason signals 150
there_is_a_reason_to_leave_lem_example = (there_is_a_reason_to_leave_lem signals 150).0 signals_run
