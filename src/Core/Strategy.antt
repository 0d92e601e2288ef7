-- ===== src/Core/Strategy.antt =====
-- packages/core/src/positions/strategy.ts: the levels of a strategy and why one is refused. Levels
-- are whole basis points of either sign, since the source subtracts before it tests.
pub mod Acceptable
mod Examples
use Prim.Native.String.{String}
use accrue.Base.{ℕ, ◌*◌, ◌/◌, Option, none, some, Bool, ◌||◌, if◌then◌else◌}
use accrue.Base.Int.{ℤ, pos, ◌-ℤ◌, ltb_ℤ, leb_ℤ}

pub record StrategyLevels : Type 0 where
  pub target_ltv_bps : ℤ
  pub protect_ltv_bps : ℤ
  pub grow_below_ltv_bps : ℤ

pub data StrategyRefusal : Type 0 where
  protect_level_too_high target_level_too_high target_level_too_low : StrategyRefusal
  grow_level_too_high reserve_leaves_no_guard_room : StrategyRefusal

abbrev pub min_guard_room_bps : ℤ
min_guard_room_bps = pos 500

unfoldable pub why_the_strategy_is_refused : StrategyLevels → ℤ → ℤ → Option StrategyRefusal
why_the_strategy_is_refused strategy max_loan_to_value_bps liquidation_threshold_bps =
    let highest_protect = liquidation_threshold_bps -ℤ min_guard_room_bps in
    if ltb_ℤ highest_protect (pos 0)
    then some reserve_leaves_no_guard_room
    else if ltb_ℤ highest_protect strategy.protect_ltv_bps
    then some protect_level_too_high
    else (let highest_target = strategy.protect_ltv_bps -ℤ min_guard_room_bps in
        if ltb_ℤ highest_target (pos 0) || ltb_ℤ highest_target strategy.target_ltv_bps
        then some target_level_too_high
        else if ltb_ℤ max_loan_to_value_bps strategy.target_ltv_bps
        then some target_level_too_high
        else if leb_ℤ strategy.target_ltv_bps (pos 0)
        then some target_level_too_low
        else if leb_ℤ strategy.target_ltv_bps strategy.grow_below_ltv_bps
        then some grow_level_too_high
        else none)

unfoldable pub adjusted_debt_value_scaled : ℕ → ℕ → ℕ
adjusted_debt_value_scaled debt_value_scaled borrow_factor_pct =
    debt_value_scaled * borrow_factor_pct / 100
