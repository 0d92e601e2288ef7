-- ===== src/Keeper/Loop/Examples.antt =====
-- Rounds of apps/keeper/src/loop.ts with concrete services, and the witnesses of its theorems.
use accrue.Base.{◌==◌, if◌then◌else◌, ℕ, suc, ◌+◌, ◌≡◌, refl, true, false, [], ◌∷◌}
use accrue.Base.Outcome.{Outcome, ok, throw}
use accrue.Base.Text.{Text, text}
use accrue.Core.Guard.{there_is_a_reason_to_leave, DeleverageSignals}
use accrue.Keeper.Decide.{
  GuardLimits, Decision, protect, grow, leave, propose, wait, most_stretched_first,
  decide_what_to_do,
}
use accrue.Keeper.Runs.{record_by_counting, AttemptedRun}
use accrue.Keeper.Loop.{Candidate, Round, Thrown, an_error, no_error, Services, run_one_round}
use accrue.Keeper.Loop.Rounds.{IsRecorded, with_the_counting_log, run_one_round-IsRecorded}

abbrev nothing_is_wrong : DeleverageSignals
nothing_is_wrong = record {
  reserve_status_obsolete = false;
  program_is_retiring = false;
  obligation_margin_call_started_at = 0;
  market_autodeleverage_enabled = false;
  reserve_autodeleverage_enabled = false;
  deposit_limit_crossed_at = 0;
  borrow_limit_crossed_at = 0;
  margin_call_period_seconds = 604_800;
}

abbrev limits : GuardLimits
limits = record {
  min_protect_interval_seconds = 600;
  min_grow_interval_seconds = 3_600;
  max_price_age_slots = 150;
  grow_paused = false;
  sunset = false;
}

-- A candidate with its guard level at fifty percent and its grow level at thirty.
abbrev candidate_at : Text → ℕ → Candidate ℕ
candidate_at address ltv = record {
  address = address;
  loan_to_value_bps = ltv;
  watched = record {
    is_open = true;
    protect_ltv_bps = 5_000;
    grow_below_ltv_bps = 3_000;
    grow_enabled = true;
    exit_on_flag_enabled = true;
    last_protect_at = 0;
    last_grow_at = 0;
    loan_to_value_bps = ltv;
    destination_balance = 1_000;
    deleverage = nothing_is_wrong;
    oldest_price_age_slots = 10;
  };
  subject = ltv;
}

abbrev round : Round ℕ
round = record {
  limits = limits;
  unix_timestamp = 1_800_000_000;
  candidates =
      candidate_at (text "calm") 4_000
      ∷ candidate_at (text "low") 2_000
      ∷ candidate_at (text "stretched") 6_000
      ∷ [];
}

-- The world counts the calls. An instruction to grow cannot be built.
abbrev build : Candidate ℕ → Decision → ℕ → Outcome Thrown ℕ × ℕ
build candidate (propose protect) w = (ok 1, w + 1)
build candidate (propose grow) w = (throw (an_error (text "no room") no_error), w + 1)
build candidate (propose leave) w = (ok 2, w + 1)
build candidate (wait reason) w = (throw no_error, w + 1)

abbrev send : ℕ → ℕ → Outcome Thrown Text × ℕ
send instruction w = (ok (text "signature"), w + 1)

abbrev report : Text → ℕ → ℕ
report line w = w

abbrev date_now : ℕ → ℕ
date_now w = w

three_considered_two_attempted_one_landed :
    (run_one_round (with_the_counting_log build send report date_now) round (0, [])).0
    ≡ ok (record { considered = 3; attempted = 2; landed = 1 })
unfolding run_one_round most_stretched_first decide_what_to_do record_by_counting
    there_is_a_reason_to_leave
three_considered_two_attempted_one_landed = refl

run_one_round-IsRecorded_example :
    IsRecorded round []
      (run_one_round (with_the_counting_log build send report date_now) round (0, [])).1.1
      (run_one_round (with_the_counting_log build send report date_now) round (0, [])).0
run_one_round-IsRecorded_example = run_one_round-IsRecorded build send report date_now round 0 []

-- A log that refuses its first entry.
abbrev refusing_once : AttemptedRun → ℕ → Outcome Thrown (Unit {0}) × ℕ
refusing_once run w =
    if w == 2 then (throw (an_error (text "no database") no_error), 3) else (ok tt, suc w)

abbrev services : Services ℕ ℕ ℕ
services = record {
  build = build;
  send = send;
  record_run = refusing_once;
  report = report;
  date_now = date_now;
}
