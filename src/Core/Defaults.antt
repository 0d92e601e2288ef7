-- ===== src/Core/Defaults.antt =====
-- packages/core/src/positions/defaults.ts: the levels a reserve's maximum loan to value suggests,
-- and the net yield of a spread. The maximum is the unsigned number that the chain carries; the
-- levels worked out from it may be negative, as may the spread.
pub mod Accepted
mod Examples
use accrue.Base.{ℕ, ◌*◌, ◌/◌, Bool, false, if◌then◌else◌}
use accrue.Base.Int.{ℤ, pos, ◌+ℤ◌, ◌-ℤ◌, ◌*ℤ◌, ltb_ℤ, floor_div}

pub record DefaultStrategy : Type 0 where
  pub target_ltv_bps : ℤ
  pub protect_ltv_bps : ℤ
  pub grow_below_ltv_bps : ℤ
  pub grow_enabled : Bool

abbrev pub percent : ℕ
percent = 100

abbrev pub round_to_percent : ℕ
round_to_percent = 5

abbrev pub guard_room_percent : ℕ
guard_room_percent = 5

abbrev pub grow_below_target_percent : ℕ
grow_below_target_percent = 10

-- `Math.max(n, 0)`
unfoldable pub at_least_zero : ℤ → ℤ
at_least_zero n = if ltb_ℤ n (pos 0) then pos 0 else n

-- `Math.floor` of a fraction of whole numbers is the whole quotient, taken step by step.
unfoldable pub default_strategy_for : ℕ → DefaultStrategy
default_strategy_for max_loan_to_value_bps =
    let maximum_percent = max_loan_to_value_bps / percent in
    let target_percent = maximum_percent * 3 / 4 / round_to_percent * round_to_percent in
    let protect_percent = pos maximum_percent -ℤ pos guard_room_percent in
    let grow_percent = pos target_percent -ℤ pos grow_below_target_percent in
    record {
      target_ltv_bps = pos (target_percent * percent);
      protect_ltv_bps = protect_percent *ℤ pos percent;
      grow_below_ltv_bps = at_least_zero grow_percent *ℤ pos percent;
      grow_enabled = false;
    }

-- `Math.round(n / 10_000)`: the nearest whole number, upwards at one half.
unfoldable pub round_of_ten_thousandths : ℤ → ℤ
round_of_ten_thousandths n = floor_div (n +ℤ pos 5_000) 10_000

unfoldable pub net_yield_bps : ℤ → ℤ → ℤ → ℤ
net_yield_bps target_ltv_bps destination_target_rate_bps borrow_rate_bps =
    let spread = destination_target_rate_bps -ℤ borrow_rate_bps in
    round_of_ten_thousandths (target_ltv_bps *ℤ spread)
