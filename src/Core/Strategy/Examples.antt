-- ===== src/Core/Strategy/Examples.antt =====
-- A strategy of 50, 60 and 40 percent in a market that lends 65 percent and liquidates at 75.
use accrue.Base.{◌≡◌, refl, none, some}
use accrue.Base.Int.{pos, ◌-ℤ◌}
use accrue.Core.Strategy.{StrategyLevels, target_level_too_high, why_the_strategy_is_refused}
use accrue.Core.Strategy.Acceptable.{IsAcceptable, why_the_strategy_is_refused_lem}

abbrev levels : StrategyLevels
levels = record {
  target_ltv_bps = pos 5_000;
  protect_ltv_bps = pos 6_000;
  grow_below_ltv_bps = pos 4_000;
}

levels_accepted : why_the_strategy_is_refused levels (pos 6_500) (pos 7_500) ≡ none
unfolding why_the_strategy_is_refused ◌-ℤ◌
levels_accepted = refl

levels_refused :
    why_the_strategy_is_refused levels (pos 4_500) (pos 7_500) ≡ some target_level_too_high
unfolding why_the_strategy_is_refused ◌-ℤ◌
levels_refused = refl

why_the_strategy_is_refused_lem_example : IsAcceptable levels (pos 6_500) (pos 7_500)
why_the_strategy_is_refused_lem_example =
    (why_the_strategy_is_refused_lem levels (pos 6_500) (pos 7_500)).0 levels_accepted
