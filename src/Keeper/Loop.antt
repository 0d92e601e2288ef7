-- ===== src/Keeper/Loop.antt =====
-- apps/keeper/src/loop.ts: one round over the candidates. Building an instruction, sending it,
-- writing the log, reporting a line and reading the clock are calls of other parts and of the
-- network; they act on a world that the round only passes on, and the first three may throw.
pub mod Rounds
pub mod LogFailure
mod Examples
use accrue.Base.{ℕ, zero, suc, ◌+◌, none, some, List, [], ◌∷◌, ◌++◌, length}
use accrue.Base.Int.{pos, sub_ℕ}
use accrue.Base.Outcome.{Outcome, ok, throw}
use accrue.Base.Text.{Text, text, join}
use accrue.Keeper.Decide.{
  GuardAction, protect, grow, leave, WaitingReason, Decision, propose, wait, GuardLimits,
  PositionUnderWatch, decide_what_to_do, most_stretched_first,
}
use accrue.Keeper.Decide
use accrue.Keeper.Runs.{AttemptedRun, acted, check, landed, reverted, skipped}
use accrue.Keeper.Shorten.{shorten_address, shorten_every_address}

pub record Candidate (Subject : Type 0) : Type 0 where
  pub address : Text
  pub loan_to_value_bps : ℕ
  pub watched : PositionUnderWatch
  pub subject : Subject

pub record Round (Subject : Type 0) : Type 0 where
  pub limits : GuardLimits
  pub unix_timestamp : ℕ
  pub candidates : List (Candidate Subject)

pub record RoundReport : Type 0 where
  pub considered : ℕ
  pub attempted : ℕ
  pub landed : ℕ

-- What is thrown: an `Error` with its cause, or a value that is none.
pub data Thrown : Type 0 where
  an_error : Text → Thrown → Thrown
  no_error : Thrown

-- The messages down the chain of causes, as many as are still wanted.
unfoldable pub reasons_of : ℕ → Thrown → List Text
reasons_of zero failure = []
reasons_of (suc left) no_error = []
reasons_of (suc left) (an_error message cause) = message ∷ reasons_of left cause

unfoldable pub why_it_failed : Thrown → Text
unfolding reasons_of
why_it_failed failure = elim (reasons_of 4 failure) [
  | [] ↦ text "unknown"
  | reason ∷ reasons ↦ join (text ": ") (reason ∷ reasons)
]

-- The text of a reason to wait, as the log has it.
unfoldable pub reason_text : WaitingReason → Text
reason_text Decide.not_open = text "not open"
reason_text Decide.above_the_grow_level_and_below_the_guard_level =
    text "above the grow level and below the guard level"
reason_text Decide.the_protect_interval_has_not_elapsed =
    text "the protect interval has not elapsed"
reason_text Decide.the_grow_interval_has_not_elapsed = text "the grow interval has not elapsed"
reason_text Decide.nothing_left_to_sell = text "nothing left to sell"
reason_text Decide.growing_is_paused = text "growing is paused"
reason_text Decide.growing_is_switched_off = text "growing is switched off"
reason_text Decide.the_oracle_price_is_stale = text "the oracle price is stale"

unfoldable pub kind_text : GuardAction → Text
kind_text protect = text "protect"
kind_text grow = text "grow"
kind_text leave = text "leave"

pub record Services (Subject Instruction World : Type 0) : Type 0 where
  -- `builder.build`
  pub build : Candidate Subject → Decision → World → Outcome Thrown Instruction × World
  pub send : Instruction → World → Outcome Thrown Text × World
  -- `runLog.record`
  pub record_run : AttemptedRun → World → Outcome Thrown (Unit {0}) × World
  pub report : Text → World → World
  -- `Date.now()`
  pub date_now : World → ℕ

-- The counters of a round beside the world; what was counted stays counted when a call throws.
pub record Progress (World : Type 0) : Type 0 where
  pub attempted : ℕ
  pub landed : ℕ
  pub world : World

abbrev pub Action : Type 0 → Type 0 → Type 0
Action World A = Progress World → Outcome Thrown A × Progress World

-- What follows a call that returned; a throw passes over it.
abbrev pub and_then :
    {World A B : Type 0}
    → (A → Action World B)
    → Outcome Thrown A × Progress World
    → Outcome Thrown B × Progress World
and_then next (ok a, p) = next a p
and_then next (throw failure, p) = (throw failure, p)

abbrev pub in_the_world :
    {World A : Type 0}
    → Progress World
    → Outcome Thrown A × World
    → Outcome Thrown A × Progress World
in_the_world p (outcome, w) = (outcome, record p { world = w })

infixl 5 ◌>>=◌ ◌>>◌
abbrev pub ◌>>=◌ : {World A B : Type 0} → Action World A → (A → Action World B) → Action World B
◌>>=◌ first next p = and_then next (first p)

abbrev pub ◌>>◌ : {World B : Type 0} → Action World (Unit {0}) → Action World B → Action World B
first >> next = first >>= λ _. next

module _ {Subject : Type 0} where
  -- What is written for a position that is left alone.
  abbrev pub skipped_run : Candidate Subject → WaitingReason → AttemptedRun
  skipped_run candidate reason = record {
    position_address = candidate.address;
    kind = check;
    outcome = skipped;
    signature = none;
    reason = some (reason_text reason);
    duration_ms = pos 0;
  }

  abbrev pub landed_run : Candidate Subject → GuardAction → Text → ℕ → ℕ → AttemptedRun
  landed_run candidate action signature started_at now = record {
    position_address = candidate.address;
    kind = acted action;
    outcome = landed;
    signature = some signature;
    reason = none;
    duration_ms = sub_ℕ now started_at;
  }

  abbrev pub reverted_run : Candidate Subject → GuardAction → Text → ℕ → ℕ → AttemptedRun
  reverted_run candidate action reason started_at now = record {
    position_address = candidate.address;
    kind = acted action;
    outcome = reverted;
    signature = none;
    reason = some reason;
    duration_ms = sub_ℕ now started_at;
  }

module _ {Subject Instruction World : Type 0} (services : Services Subject Instruction World) where
  open services use {build, send, record_run, report, date_now}

  -- A call of a service, threading the world.
  abbrev pub calls : {A : Type 0} → (World → Outcome Thrown A × World) → Action World A
  calls call p = in_the_world p (call p.world)

  abbrev pub reports : Text → Action World (Unit {0})
  reports line p = (ok tt, record p { world = report line p.world })

  abbrev pub one_landed : Action World (Unit {0})
  one_landed p = (ok tt, record p { landed = p.landed + 1 })

  -- The body of the `try`.
  unfoldable pub try_to_land : Candidate Subject → GuardAction → ℕ → Action World (Unit {0})
  unfolding kind_text shorten_address
  try_to_land candidate action started_at = do
    instruction ← calls (build candidate (propose action))
    signature ← calls (send instruction)
    one_landed
    calls (λ w. record_run (landed_run candidate action signature started_at (date_now w)) w)
    reports (kind_text action ++ (text " landed on " ++ shorten_address candidate.address))

  -- The body of the `catch`.
  unfoldable pub write_the_failure :
      Candidate Subject → GuardAction → ℕ → Thrown → Action World (Unit {0})
  unfolding why_it_failed kind_text shorten_address shorten_every_address
  write_the_failure candidate action started_at failure = do
    let reason = why_it_failed failure
    calls (λ w. record_run (reverted_run candidate action reason started_at (date_now w)) w)
    reports (
        shorten_every_address (
          kind_text action
          ++ (text " reverted on "
              ++ (shorten_address candidate.address ++ (text ": " ++ reason)))))

  unfoldable pub unless_thrown :
      Candidate Subject
      → GuardAction
      → ℕ
      → Outcome Thrown (Unit {0}) × Progress World
      → Outcome Thrown (Unit {0}) × Progress World
  unfolding write_the_failure
  unless_thrown candidate action started_at (ok _, p) = (ok tt, p)
  unless_thrown candidate action started_at (throw failure, p) =
      write_the_failure candidate action started_at failure p

  unfoldable pub attempt : Candidate Subject → GuardAction → Action World (Unit {0})
  unfolding try_to_land unless_thrown
  attempt candidate action p =
      let started_at = date_now p.world in
      unless_thrown candidate action started_at
        (try_to_land candidate action started_at (record p { attempted = p.attempted + 1 }))

  unfoldable pub act_on : Candidate Subject → Decision → Action World (Unit {0})
  unfolding attempt reason_text
  act_on candidate (wait reason) = calls (record_run (skipped_run candidate reason))
  act_on candidate (propose action) = attempt candidate action

  -- One turn of the loop.
  unfoldable pub consider : GuardLimits → ℕ → Candidate Subject → Action World (Unit {0})
  unfolding act_on
  consider limits unix_timestamp candidate =
      act_on candidate
        (decide_what_to_do candidate.watched limits (record { unix_timestamp = unix_timestamp }))

  unfoldable pub consider_all : GuardLimits → ℕ → List (Candidate Subject) → Action World (Unit {0})
  unfolding consider
  consider_all limits unix_timestamp [] p = (ok tt, p)
  consider_all limits unix_timestamp (candidate ∷ candidates) p =
      (consider limits unix_timestamp candidate >> consider_all limits unix_timestamp candidates) p

  abbrev pub round_report :
      Round Subject
      → Outcome Thrown (Unit {0}) × Progress World
      → Outcome Thrown RoundReport × World
  round_report round (throw failure, p) = (throw failure, p.world)
  round_report round (ok _, p) = (
    ok (record {
      considered = length round.candidates;
      attempted = p.attempted;
      landed = p.landed;
    }),
    p.world,
  )

  unfoldable pub run_one_round : Round Subject → World → Outcome Thrown RoundReport × World
  unfolding consider_all
  run_one_round round w = round_report round (
      consider_all round.limits round.unix_timestamp
        (most_stretched_first (λ c. c.loan_to_value_bps) round.candidates)
        (record { attempted = 0; landed = 0; world = w }))
