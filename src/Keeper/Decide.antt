-- ===== src/Keeper/Decide.antt =====
-- apps/keeper/src/decide.ts: what the keeper proposes for a position, and the order it goes in.
pub mod Priorities
pub mod Order
mod Examples
use accrue.Base.{
  ℕ, ◌+◌, ltb, leb, ◌==◌, Bool, true, false, not, ◌&&◌, ◌||◌, Option, none, some, List, [], ◌∷◌,
  if◌then◌else◌,
}
use accrue.Core.Guard.{DeleverageSignals, there_is_a_reason_to_leave}

pub data GuardAction : Type 0 where
  protect grow leave : GuardAction

pub data WaitingReason : Type 0 where
  not_open above_the_grow_level_and_below_the_guard_level : WaitingReason
  the_protect_interval_has_not_elapsed the_grow_interval_has_not_elapsed : WaitingReason
  nothing_left_to_sell growing_is_paused growing_is_switched_off : WaitingReason
  the_oracle_price_is_stale : WaitingReason

pub data Decision : Type 0 where
  propose : GuardAction → Decision
  wait : WaitingReason → Decision

pub record GuardLimits : Type 0 where
  pub min_protect_interval_seconds : ℕ
  pub min_grow_interval_seconds : ℕ
  pub max_price_age_slots : ℕ
  pub grow_paused : Bool
  pub sunset : Bool

pub record PositionUnderWatch : Type 0 where
  pub is_open : Bool
  pub protect_ltv_bps : ℕ
  pub grow_below_ltv_bps : ℕ
  pub grow_enabled : Bool
  pub exit_on_flag_enabled : Bool
  pub last_protect_at : ℕ
  pub last_grow_at : ℕ
  pub loan_to_value_bps : ℕ
  pub destination_balance : ℕ
  pub deleverage : DeleverageSignals
  pub oldest_price_age_slots : ℕ

pub record Now : Type 0 where
  pub unix_timestamp : ℕ

unfoldable pub the_interval_has_elapsed : ℕ → ℕ → ℕ → Bool
the_interval_has_elapsed last_at now interval_seconds =
    last_at == 0 || leb (last_at + interval_seconds) now

unfoldable pub decide_whether_to_grow :
    PositionUnderWatch → GuardLimits → Now → Bool → Option Decision
decide_whether_to_grow position limits now price_is_fresh =
    if limits.grow_paused
    then some (wait growing_is_paused)
    else if not position.grow_enabled
    then none
    else if not price_is_fresh
    then some (wait the_oracle_price_is_stale)
    else if not (
        the_interval_has_elapsed position.last_grow_at now.unix_timestamp
          limits.min_grow_interval_seconds)
    then some (wait the_grow_interval_has_not_elapsed)
    else some (propose grow)

-- The part of `decideWhatToDo` under the guard level, once growing has not been decided on.
unfoldable pub decide_whether_to_leave : PositionUnderWatch → GuardLimits → Now → Bool → Decision
decide_whether_to_leave position limits now price_is_fresh =
    let the_market_is_handing_it_back =
      there_is_a_reason_to_leave
        (record (position.deleverage) { program_is_retiring = limits.sunset }) now.unix_timestamp in
    if limits.sunset || (position.exit_on_flag_enabled && the_market_is_handing_it_back)
    then if not price_is_fresh && ltb 0 position.destination_balance
      then wait the_oracle_price_is_stale
      else propose leave
    else wait above_the_grow_level_and_below_the_guard_level

-- The part at or over the guard level.
unfoldable pub decide_whether_to_protect : PositionUnderWatch → GuardLimits → Now → Bool → Decision
decide_whether_to_protect position limits now price_is_fresh =
    if not price_is_fresh
    then wait the_oracle_price_is_stale
    else if position.destination_balance == 0
    then wait nothing_left_to_sell
    else if not (
        the_interval_has_elapsed position.last_protect_at now.unix_timestamp
          limits.min_protect_interval_seconds)
    then wait the_protect_interval_has_not_elapsed
    else propose protect

-- `if (growing !== null) return growing`, before what follows it.
unfoldable pub or_else : Option Decision → Decision → Decision
or_else none rest = rest
or_else (some growing) rest = growing

unfoldable pub decide_what_to_do : PositionUnderWatch → GuardLimits → Now → Decision
unfolding decide_whether_to_grow decide_whether_to_leave decide_whether_to_protect or_else
    the_interval_has_elapsed
decide_what_to_do position limits now =
    if not position.is_open
    then wait not_open
    else (let price_is_fresh = leb position.oldest_price_age_slots limits.max_price_age_slots in
        if leb position.protect_ltv_bps position.loan_to_value_bps
        then decide_whether_to_protect position limits now price_is_fresh
        else or_else
            (if leb position.loan_to_value_bps position.grow_below_ltv_bps
              then decide_whether_to_grow position limits now price_is_fresh
              else none)
            (decide_whether_to_leave position limits now price_is_fresh))

-- `[...positions].sort(...)`: the sort of the language is stable, so an item goes before those
-- after it in the list that are no more stretched.
module _ {ℓ} {Watched : Type ℓ} (loan_to_value_bps : Watched → ℕ) where
  unfoldable pub insert_by_stretch : Watched → List Watched → List Watched
  insert_by_stretch x [] = x ∷ []
  insert_by_stretch x (y ∷ ys) =
      if leb (loan_to_value_bps y) (loan_to_value_bps x)
      then x ∷ y ∷ ys
      else y ∷ insert_by_stretch x ys

  unfoldable pub most_stretched_first : List Watched → List Watched
  unfolding insert_by_stretch
  most_stretched_first [] = []
  most_stretched_first (x ∷ xs) = insert_by_stretch x (most_stretched_first xs)
