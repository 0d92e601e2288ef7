-- ===== src/Core/Defaults/Accepted.antt =====
-- The default strategy against the rules that every strategy is held to.
use accrue.Base.{ℕ, ◌-◌, ◌*◌, ◌/◌, ◌≤◌, ◌≡◌, refl, none, false, arith}
use accrue.Base.Int.{ℤ, pos, ◌+ℤ◌, ◌-ℤ◌, ◌*ℤ◌, ◌≤ℤ◌, int_laws, floor_div}
use accrue.Core.Strategy.{StrategyLevels, why_the_strategy_is_refused}
use accrue.Core.Strategy.Acceptable.{IsAcceptable, why_the_strategy_is_refused_lem}
use accrue.Core.Defaults.{
  DefaultStrategy, default_strategy_for, at_least_zero, round_of_ten_thousandths, net_yield_bps,
}

-- The levels of a default, as the strategy check takes them.
abbrev pub levels_of : DefaultStrategy → StrategyLevels
levels_of d = record {
  target_ltv_bps = d.target_ltv_bps;
  protect_ltv_bps = d.protect_ltv_bps;
  grow_below_ltv_bps = d.grow_below_ltv_bps;
}

default_levels :
    (max_ltv : ℕ)
    → 3_500 ≤ max_ltv
    → let d = default_strategy_for max_ltv in
      let whole = max_ltv / 100 in
      let target = whole * 3 / 4 / 5 * 5 in
      (d.target_ltv_bps ≡ pos (target * 100))
      × (d.protect_ltv_bps ≡ pos ((whole - 5) * 100))
      × (d.grow_below_ltv_bps ≡ pos ((target - 10) * 100))
unfolding default_strategy_for at_least_zero ◌-ℤ◌ ◌*ℤ◌
default_levels max_ltv lends = (refl, ground arith, ground arith)

default_levels-IsAcceptable :
    (max_ltv liquidation : ℕ)
    → 3_500 ≤ max_ltv
    → max_ltv ≤ liquidation
    → IsAcceptable (levels_of (default_strategy_for max_ltv)) (pos max_ltv) (pos liquidation)
default_levels-IsAcceptable max_ltv liquidation lends later =
    let (target, protect, grow) = default_levels max_ltv lends in
    record {
      grow_under_target = rw (target, grow) (omega arith);
      target_above_zero = rw target (omega arith);
      target_is_lent = rw target (omega arith);
      room_under_the_guard = rw (target, protect) (omega int_laws);
      room_under_liquidation = rw protect (omega int_laws);
    }

-- In a market that lends at least 35 percent, and liquidates at what it lends or later, the
-- default strategy is accepted, and borrowing more is off in it.
pub default_strategy_for_accepted :
    (max_ltv liquidation : ℕ)
    → 3_500 ≤ max_ltv
    → max_ltv ≤ liquidation
    → (why_the_strategy_is_refused
          (levels_of (default_strategy_for max_ltv))
          (pos max_ltv)
          (pos liquidation)
        ≡ none)
      × ((default_strategy_for max_ltv).grow_enabled ≡ false)
unfolding default_strategy_for
default_strategy_for_accepted max_ltv liquidation lends later = (
  (why_the_strategy_is_refused_lem (levels_of (default_strategy_for max_ltv)) (pos max_ltv)
        (pos liquidation)).1
      (default_levels-IsAcceptable max_ltv liquidation lends later),
  refl,
)

round_near :
    (n : ℤ)
    → let rounded = round_of_ten_thousandths n *ℤ pos 10_000 in
      (n ≤ℤ rounded +ℤ pos 5_000) × (rounded ≤ℤ n +ℤ pos 5_000)
unfolding round_of_ten_thousandths floor_div ◌+ℤ◌ ◌*ℤ◌
round_near n = (ground arith, ground arith)

-- The net yield is off from the exact product of target and spread by one half of a basis point
-- at the most.
pub net_yield_bps_near :
    (target destination borrow : ℤ)
    → let exact = target *ℤ (destination -ℤ borrow) in
      let rounded = net_yield_bps target destination borrow *ℤ pos 10_000 in
      (exact ≤ℤ rounded +ℤ pos 5_000) × (rounded ≤ℤ exact +ℤ pos 5_000)
unfolding net_yield_bps
net_yield_bps_near target destination borrow = round_near (target *ℤ (destination -ℤ borrow))
