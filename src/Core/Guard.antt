-- ===== src/Core/Guard.antt =====
-- packages/core/src/guard.ts: what the guard repays, borrows and sells, what it costs to close, and
-- when the lending market hands a position back. Values are scaled dollars, the adjusted debt is
-- the debt weighted by the reserve's borrow factor.
pub mod Target
pub mod Sale
pub mod Returning
pub mod Closing
pub mod Leaving
mod Examples
use accrue.Base.{
  ℕ, ◌+◌, ◌-◌, ◌*◌, ◌/◌, ltb, leb, ◌==◌, if◌then◌else◌, Bool, true, false, not, ◌&&◌, ◌||◌,
}
use accrue.Base.Division.{ceil_div}
use accrue.Base.Outcome.{Outcome, ok, throw, ◌>>=◌}
use accrue.Core.Failure.{Failure, a_borrow_factor_of_zero}
use accrue.Core.Money.{
  basis_points_denominator, percent_denominator, raw_amount_worth_rounding_up,
  raw_amount_worth_rounding_down, usd_value_of_scaled, add_the_slippage_buffer,
}

pub record ProtectAmounts : Type 0 where
  pub repay_usd_scaled : ℕ
  pub bounty_usd_scaled : ℕ

unfoldable pub value_allowed_at_target : ℕ → ℕ → ℕ
value_allowed_at_target deposited_value_scaled target_ltv_bps =
    deposited_value_scaled * target_ltv_bps / basis_points_denominator

unfoldable pub weighted_value_as_real_value : ℕ → ℕ → Bool → Outcome Failure ℕ
weighted_value_as_real_value weighted_value_scaled borrow_factor_pct round_up =
    if leb borrow_factor_pct 0
    then throw a_borrow_factor_of_zero
    else (let numerator = weighted_value_scaled * percent_denominator in
        let denominator = borrow_factor_pct in
        if not round_up then ok (numerator / denominator) else ok (ceil_div numerator denominator))

unfoldable pub repay_to_reach_target : ℕ → ℕ → ℕ → ℕ → Outcome Failure ℕ
repay_to_reach_target adjusted_debt_value_scaled deposited_value_scaled target_ltv_bps
      borrow_factor_pct =
    let allowed = value_allowed_at_target deposited_value_scaled target_ltv_bps in
    let gap =
      if ltb allowed adjusted_debt_value_scaled then adjusted_debt_value_scaled - allowed else 0 in
    weighted_value_as_real_value gap borrow_factor_pct true

unfoldable pub borrow_to_reach_target : ℕ → ℕ → ℕ → ℕ → Outcome Failure ℕ
borrow_to_reach_target adjusted_debt_value_scaled deposited_value_scaled target_ltv_bps
      borrow_factor_pct =
    let allowed = value_allowed_at_target deposited_value_scaled target_ltv_bps in
    let room =
      if ltb adjusted_debt_value_scaled allowed then allowed - adjusted_debt_value_scaled else 0 in
    weighted_value_as_real_value room borrow_factor_pct false

unfoldable pub protect_amounts : ℕ → ℕ → ℕ → ℕ → ℕ → Outcome Failure ProtectAmounts
protect_amounts adjusted_debt_value_scaled deposited_value_scaled target_ltv_bps keeper_bounty_bps
      borrow_factor_pct =
    do
      repay_usd_scaled ←
          repay_to_reach_target adjusted_debt_value_scaled deposited_value_scaled target_ltv_bps
            borrow_factor_pct
      ok (record {
        repay_usd_scaled = repay_usd_scaled;
        bounty_usd_scaled = repay_usd_scaled * keeper_bounty_bps / basis_points_denominator;
      })

unfoldable pub loan_to_value_bps : ℕ → ℕ → ℕ
loan_to_value_bps adjusted_debt_value_scaled deposited_value_scaled =
    if deposited_value_scaled == 0
    then 0
    else adjusted_debt_value_scaled * basis_points_denominator / deposited_value_scaled

unfoldable pub performance_fee_on_realised_profit : ℕ → ℕ → ℕ → ℕ
performance_fee_on_realised_profit usdc_from_sales_total usdc_repaid_total fee_bps_at_open =
    let profit =
      if ltb usdc_repaid_total usdc_from_sales_total
      then usdc_from_sales_total - usdc_repaid_total
      else 0 in
    profit * fee_bps_at_open / basis_points_denominator

pub record ClosingCost : Type 0 where
  pub debt : ℕ
  pub quoted_usdc_out : ℕ
  pub fee_bps_at_open : ℕ
  pub borrow_rate_bps : ℕ

abbrev pub days_in_a_year : ℕ
days_in_a_year = 365

unfoldable pub divide_rounding_up : ℕ → ℕ → ℕ
divide_rounding_up numerator denominator =
    if numerator == 0 then 0 else (numerator + denominator - 1) / denominator

unfoldable pub usdc_needed_to_close : ClosingCost → ℕ
usdc_needed_to_close cost =
    let interest_for_a_day =
      divide_rounding_up (cost.debt * cost.borrow_rate_bps)
        (basis_points_denominator * days_in_a_year) in
    let fee =
      performance_fee_on_realised_profit cost.quoted_usdc_out cost.debt cost.fee_bps_at_open in
    let owed = cost.debt + interest_for_a_day + fee in
    if ltb cost.quoted_usdc_out owed then owed - cost.quoted_usdc_out else 0

pub record DeleverageSignals : Type 0 where
  pub reserve_status_obsolete : Bool
  pub program_is_retiring : Bool
  pub obligation_margin_call_started_at : ℕ
  pub market_autodeleverage_enabled : Bool
  pub reserve_autodeleverage_enabled : Bool
  pub deposit_limit_crossed_at : ℕ
  pub borrow_limit_crossed_at : ℕ
  pub margin_call_period_seconds : ℕ

unfoldable pub a_margin_call_period_has_elapsed : ℕ → ℕ → ℕ → Bool
a_margin_call_period_has_elapsed started_at period_seconds now =
    not (started_at == 0) && leb (started_at + period_seconds) now

unfoldable pub there_is_a_reason_to_leave : DeleverageSignals → ℕ → Bool
there_is_a_reason_to_leave signals now_unix_timestamp =
    if signals.reserve_status_obsolete
      || signals.program_is_retiring
      || not (signals.obligation_margin_call_started_at == 0)
    then true
    else if not signals.market_autodeleverage_enabled || not signals.reserve_autodeleverage_enabled
    then false
    else a_margin_call_period_has_elapsed signals.deposit_limit_crossed_at
        signals.margin_call_period_seconds now_unix_timestamp
      || a_margin_call_period_has_elapsed signals.borrow_limit_crossed_at
          signals.margin_call_period_seconds now_unix_timestamp

pub record ProtectSale : Type 0 where
  pub adjusted_debt_value_scaled : ℕ
  pub deposited_value_scaled : ℕ
  pub target_ltv_bps : ℕ
  pub borrow_factor_pct : ℕ
  pub keeper_bounty_bps : ℕ
  pub keeper_bounty_cap_usdc : ℕ
  pub max_slippage_bps : ℕ
  pub usdc_decimals : ℕ
  pub usdc_price_scaled : ℕ
  pub destination_decimals : ℕ
  pub destination_price_scaled : ℕ
  pub destination_balance : ℕ

unfoldable pub smaller : ℕ → ℕ → ℕ
smaller left right = if ltb left right then left else right

unfoldable pub destination_to_sell_for_protect : ProtectSale → Outcome Failure ℕ
destination_to_sell_for_protect sale = do
  amounts ←
      protect_amounts sale.adjusted_debt_value_scaled sale.deposited_value_scaled
        sale.target_ltv_bps sale.keeper_bounty_bps sale.borrow_factor_pct
  repay_needed ←
      raw_amount_worth_rounding_up amounts.repay_usd_scaled sale.usdc_decimals
        sale.usdc_price_scaled
  bounty_at_the_price ←
      raw_amount_worth_rounding_down amounts.bounty_usd_scaled sale.usdc_decimals
        sale.usdc_price_scaled
  let bounty_wanted = smaller bounty_at_the_price sale.keeper_bounty_cap_usdc
  at_the_oracle_price ←
      raw_amount_worth_rounding_up
        (usd_value_of_scaled (repay_needed + bounty_wanted) sale.usdc_decimals
          sale.usdc_price_scaled)
        sale.destination_decimals sale.destination_price_scaled
  buffered ← add_the_slippage_buffer at_the_oracle_price sale.max_slippage_bps
  ok (smaller buffered sale.destination_balance)
