-- ===== src/Keeper/Decide/Examples.antt =====
-- The decisions on one position, at each of its levels.
use mathlib.Core.List.{Perm}
use accrue.Base.{ℕ, ◌≡◌, refl, true, false, List, [], ◌∷◌}
use accrue.Core.Guard.{DeleverageSignals, there_is_a_reason_to_leave}
use accrue.Keeper.Decide.{
  GuardLimits, PositionUnderWatch, Now, propose, protect, grow, leave, decide_what_to_do,
  most_stretched_first,
}
use accrue.Keeper.Decide.Priorities.{
  CallsForProtect, CallsForGrow, CallsForLeave, decide-protect_iff, decide-grow_iff,
  decide-leave_iff,
}
use accrue.Keeper.Decide.Order.{IsMostStretchedFirst, stretched_by, most_stretched_first_lem}

abbrev nothing_is_wrong : DeleverageSignals
nothing_is_wrong = record {
  reserve_status_obsolete = false;
  program_is_retiring = false;
  obligation_margin_call_started_at = 0;
  market_autodeleverage_enabled = false;
  reserve_autodeleverage_enabled = false;
  deposit_limit_crossed_at = 0;
  borrow_limit_crossed_at = 0;
  margin_call_period_seconds = 604_800;
}

abbrev limits : GuardLimits
limits = record {
  min_protect_interval_seconds = 600;
  min_grow_interval_seconds = 3_600;
  max_price_age_slots = 150;
  grow_paused = false;
  sunset = false;
}

abbrev retiring : GuardLimits
retiring = record limits { sunset = true }

-- A position with its guard level at fifty percent and its grow level at thirty.
abbrev at_ltv : ℕ → PositionUnderWatch
at_ltv ltv = record {
  is_open = true;
  protect_ltv_bps = 5_000;
  grow_below_ltv_bps = 3_000;
  grow_enabled = true;
  exit_on_flag_enabled = true;
  last_protect_at = 0;
  last_grow_at = 0;
  loan_to_value_bps = ltv;
  destination_balance = 1_000;
  deleverage = nothing_is_wrong;
  oldest_price_age_slots = 10;
}

abbrev now : Now
now = record { unix_timestamp = 1_800_000_000 }

protects : decide_what_to_do (at_ltv 5_500) limits now ≡ propose protect
unfolding decide_what_to_do
protects = refl

grows : decide_what_to_do (at_ltv 3_000) limits now ≡ propose grow
unfolding decide_what_to_do
grows = refl

leaves : decide_what_to_do (at_ltv 4_000) retiring now ≡ propose leave
unfolding decide_what_to_do there_is_a_reason_to_leave
leaves = refl

decide-protect_iff_example : CallsForProtect (at_ltv 5_500) limits now
decide-protect_iff_example = (decide-protect_iff (at_ltv 5_500) limits now).0 protects

decide-grow_iff_example : CallsForGrow (at_ltv 3_000) limits now
decide-grow_iff_example = (decide-grow_iff (at_ltv 3_000) limits now).0 grows

decide-leave_iff_example : CallsForLeave (at_ltv 4_000) retiring now
decide-leave_iff_example = (decide-leave_iff (at_ltv 4_000) retiring now).0 leaves

abbrev stretch_of : PositionUnderWatch → ℕ
stretch_of p = p.loan_to_value_bps

abbrev three : List PositionUnderWatch
three = at_ltv 3_000 ∷ at_ltv 6_100 ∷ at_ltv 4_800 ∷ []

order_runs : most_stretched_first stretch_of three ≡ at_ltv 6_100 ∷ at_ltv 4_800 ∷ at_ltv 3_000 ∷ []
unfolding most_stretched_first
order_runs = refl

most_stretched_first_lem_example :
    Perm (most_stretched_first stretch_of three) three
    × IsMostStretchedFirst stretch_of (most_stretched_first stretch_of three)
    × ((k : ℕ)
        → stretched_by stretch_of k (most_stretched_first stretch_of three)
          ≡ stretched_by stretch_of k three)
most_stretched_first_lem_example = most_stretched_first_lem stretch_of three
