-- ===== src/Core/Strategy/Acceptable.antt =====
-- The strategies that are accepted, and the rule that a refused one breaks.
use accrue.Base.{◌+◌, ◌≡◌, ◌↔◌, ◌⊎◌, none, some, arith}
use accrue.Base.Int.{pos_part, neg_part, ℤ, pos, ◌+ℤ◌, ◌-ℤ◌, ◌≤ℤ◌, ◌<ℤ◌, int_laws}
use accrue.Core.Strategy.{
  StrategyLevels, StrategyRefusal, protect_level_too_high, target_level_too_high,
  target_level_too_low, grow_level_too_high, reserve_leaves_no_guard_room,
  why_the_strategy_is_refused,
}

-- Five points of room between the levels, and the target within what the market lends.
pub record IsAcceptable (s : StrategyLevels) (max_ltv liquidation : ℤ) : Type 0 where
  pub grow_under_target : s.grow_below_ltv_bps <ℤ s.target_ltv_bps
  pub target_above_zero : pos 0 <ℤ s.target_ltv_bps
  pub target_is_lent : s.target_ltv_bps ≤ℤ max_ltv
  pub room_under_the_guard : s.target_ltv_bps +ℤ pos 500 ≤ℤ s.protect_ltv_bps
  pub room_under_liquidation : s.protect_ltv_bps +ℤ pos 500 ≤ℤ liquidation

-- The room taken off a level by the source, and added to one by the rules.
room_parts :
    (s : StrategyLevels) (liquidation : ℤ)
    → let room = pos 500 in
      (pos_part (liquidation -ℤ room) + neg_part liquidation + 500
        ≡ neg_part (liquidation -ℤ room) + pos_part liquidation)
      × (pos_part (s.protect_ltv_bps -ℤ room) + neg_part s.protect_ltv_bps + 500
          ≡ neg_part (s.protect_ltv_bps -ℤ room) + pos_part s.protect_ltv_bps)
      × (pos_part (s.target_ltv_bps +ℤ room) + neg_part s.target_ltv_bps
          ≡ neg_part (s.target_ltv_bps +ℤ room) + pos_part s.target_ltv_bps + 500)
      × (pos_part (s.protect_ltv_bps +ℤ room) + neg_part s.protect_ltv_bps
          ≡ neg_part (s.protect_ltv_bps +ℤ room) + pos_part s.protect_ltv_bps + 500)
room_parts s liquidation = omega int_laws

-- A strategy is not refused exactly when it is acceptable.
pub why_the_strategy_is_refused_lem :
    (s : StrategyLevels) (max_ltv liquidation : ℤ)
    → (why_the_strategy_is_refused s max_ltv liquidation ≡ none)
      ↔ IsAcceptable s max_ltv liquidation
unfolding why_the_strategy_is_refused
why_the_strategy_is_refused_lem s max_ltv liquidation = (sound, complete)
  where
    sound :
        why_the_strategy_is_refused s max_ltv liquidation ≡ none
        → IsAcceptable s max_ltv liquidation
    sound h = ground (arith, room_parts s liquidation)

    complete :
        IsAcceptable s max_ltv liquidation
        → why_the_strategy_is_refused s max_ltv liquidation ≡ none
    complete h = ground (arith, room_parts s liquidation)

-- The rule that each refusal names.
abbrev pub Breaks : StrategyRefusal → StrategyLevels → ℤ → ℤ → Type 0
Breaks protect_level_too_high s max_ltv liquidation = liquidation <ℤ s.protect_ltv_bps +ℤ pos 500
Breaks target_level_too_high s max_ltv liquidation =
    (s.protect_ltv_bps <ℤ pos 500)
    ⊎ ((s.protect_ltv_bps <ℤ s.target_ltv_bps +ℤ pos 500) ⊎ (max_ltv <ℤ s.target_ltv_bps))
Breaks target_level_too_low s max_ltv liquidation = s.target_ltv_bps ≤ℤ pos 0
Breaks grow_level_too_high s max_ltv liquidation = s.target_ltv_bps ≤ℤ s.grow_below_ltv_bps
Breaks reserve_leaves_no_guard_room s max_ltv liquidation = liquidation <ℤ pos 500

-- A refusal names a rule that the strategy breaks.
pub why_the_strategy_is_refused-Breaks :
    (s : StrategyLevels) (max_ltv liquidation : ℤ) (why : StrategyRefusal)
    → why_the_strategy_is_refused s max_ltv liquidation ≡ some why
    → Breaks why s max_ltv liquidation
unfolding why_the_strategy_is_refused
why_the_strategy_is_refused-Breaks s max_ltv liquidation protect_level_too_high h =
    ground (arith, room_parts s liquidation)
why_the_strategy_is_refused-Breaks s max_ltv liquidation _ h =
    ground (arith, room_parts s liquidation)
