-- ===== src/Core/Defaults/Examples.antt =====
-- The defaults of a market that lends 65 percent and liquidates at 75.
use accrue.Base.{◌≡◌, refl, none, false, arith}
use accrue.Base.Int.{pos, ◌+ℤ◌, ◌-ℤ◌, ◌*ℤ◌, floor_div}
use accrue.Core.Strategy.{why_the_strategy_is_refused}
use accrue.Core.Defaults.{
  default_strategy_for, at_least_zero, net_yield_bps, round_of_ten_thousandths,
}
use accrue.Core.Defaults.Accepted.{levels_of, default_strategy_for_accepted}

defaults_run : default_strategy_for 6_500 ≡ record {
  target_ltv_bps = pos 4_500;
  protect_ltv_bps = pos 6_000;
  grow_below_ltv_bps = pos 3_500;
  grow_enabled = false;
}
unfolding default_strategy_for at_least_zero ◌-ℤ◌ ◌*ℤ◌
defaults_run = refl

-- A spread of minus one basis point at half a target: minus one half rounds up to zero.
yield_runs : net_yield_bps (pos 5_000) (pos 799) (pos 800) ≡ pos 0
unfolding net_yield_bps round_of_ten_thousandths floor_div ◌+ℤ◌ ◌-ℤ◌ ◌*ℤ◌
yield_runs = refl

default_strategy_for_accepted_example :
    (why_the_strategy_is_refused (levels_of (default_strategy_for 6_500)) (pos 6_500) (pos 7_500)
      ≡ none)
    × ((default_strategy_for 6_500).grow_enabled ≡ false)
default_strategy_for_accepted_example =
    default_strategy_for_accepted 6_500 7_500 (omega arith) (omega arith)
