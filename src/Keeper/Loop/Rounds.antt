-- ===== src/Keeper/Loop/Rounds.antt =====
-- What a round of apps/keeper/src/loop.ts leaves behind when the log is the one that only counts
-- (apps/keeper/src/runs.ts), whatever building and sending do.
use accrue.Base.{
  suc, ℕ, ◌+◌, ◌≡◌, refl, sym, ap, ◌∙◌, ◌⊎◌, inl, inr, Bool, true, false, List, [], ◌∷◌, ◌++◌,
  length, count_if, arith, count_if-append,
}
use mathlib.Core.List.{append_assoc, append-nil}
use accrue.Base.Outcome.{Outcome, ok, throw, call-cases}
use accrue.Base.Text.{Text}
use accrue.Keeper.Decide.Order.{length-most_stretched_first}
use accrue.Keeper.Decide.{
  GuardAction, GuardLimits, Decision, propose, wait, decide_what_to_do, most_stretched_first,
}
use accrue.Keeper.Runs.{AttemptedRun, acted, landed, reverted, skipped, record_by_counting}
use accrue.Keeper.Loop.{
  Candidate, Round, RoundReport, Thrown, Services, Progress, skipped_run, act_on, and_then, Action,
  consider, consider_all, attempt, round_report, run_one_round, reverted_run, landed_run,
  why_it_failed,
}

abbrev pub has_landed : AttemptedRun → Bool
has_landed run = elim run.outcome [ landed ↦ true | reverted ↦ false | skipped ↦ false ]

abbrev pub was_attempted : AttemptedRun → Bool
was_attempted run = elim run.outcome [ landed ↦ true | reverted ↦ true | skipped ↦ false ]

abbrev beside :
    {World A : Type 0}
    → List AttemptedRun
    → Outcome Thrown A × World
    → Outcome Thrown A × (World × List AttemptedRun)
beside runs (outcome, w) = (outcome, (w, runs))

module _ {Subject Instruction World : Type 0} where
  -- The services of a world that keeps the counting log beside what the others act on.
  abbrev pub with_the_counting_log :
      (Candidate Subject → Decision → World → Outcome Thrown Instruction × World)
      → (Instruction → World → Outcome Thrown Text × World)
      → (Text → World → World)
      → (World → ℕ)
      → Services Subject Instruction (World × List AttemptedRun)
  with_the_counting_log build send report date_now = record {
    build = λ candidate decision w. beside w.1 (build candidate decision w.0);
    send = λ instruction w. beside w.1 (send instruction w.0);
    record_run =
        λ run w. let (outcome, runs) = record_by_counting run w.1 in (outcome, (w.0, runs));
    report = λ line w. (report line w.0, w.1);
    date_now = λ w. date_now w.0;
  }

module _ {Subject : Type 0} where
  -- The entry of a position that the keeper acted on.
  pub record Tried (candidate : Candidate Subject) (action : GuardAction) (run : AttemptedRun)
      : Type 0 where
    pub of_the_candidate : run.position_address ≡ candidate.address
    pub of_the_action : run.kind ≡ acted action
    pub either_way : (run.outcome ≡ landed) ⊎ (run.outcome ≡ reverted)

  abbrev pub IsAnswerTo : Decision → Candidate Subject → AttemptedRun → Type 0
  IsAnswerTo (wait reason) candidate run = run ≡ skipped_run candidate reason
  IsAnswerTo (propose action) candidate run = Tried candidate action run

  abbrev pub IsRunOf : GuardLimits → ℕ → Candidate Subject → AttemptedRun → Type 0
  IsRunOf limits unix_timestamp candidate =
      IsAnswerTo
        (decide_what_to_do candidate.watched limits (record { unix_timestamp = unix_timestamp }))
        candidate

  -- One entry for each candidate, in the same order.
  abbrev pub AreRunsOf : GuardLimits → ℕ → List (Candidate Subject) → List AttemptedRun → Type 0
  AreRunsOf limits unix_timestamp [] [] = Unit
  AreRunsOf limits unix_timestamp [] (run ∷ runs) = ⊥
  AreRunsOf limits unix_timestamp (candidate ∷ candidates) [] = ⊥
  AreRunsOf limits unix_timestamp (candidate ∷ candidates) (run ∷ runs) =
      IsRunOf limits unix_timestamp candidate run × AreRunsOf limits unix_timestamp candidates runs

  -- The entries and the report of a round that began with the log `before`.
  pub record IsRecorded (round : Round Subject) (before after : List AttemptedRun)
      (outcome : Outcome Thrown RoundReport) : Type 0 where
    pub runs : List AttemptedRun
    pub report : RoundReport
    pub returned : outcome ≡ ok report
    pub log : after ≡ before ++ runs
    pub in_order :
        AreRunsOf round.limits round.unix_timestamp
          (most_stretched_first (λ c. c.loan_to_value_bps) round.candidates)
          runs
    pub considered : report.considered ≡ length runs
    pub attempted : report.attempted ≡ count_if was_attempted runs
    pub landed : report.landed ≡ count_if has_landed runs

  length-AreRunsOf :
      (limits : GuardLimits) (t : ℕ) (candidates : List (Candidate Subject))
      (runs : List AttemptedRun)
      → AreRunsOf limits t candidates runs
      → length candidates ≡ length runs
  length-AreRunsOf limits t [] [] are = refl
  length-AreRunsOf limits t [] (run ∷ runs) are = elim are [ ]
  length-AreRunsOf limits t (candidate ∷ candidates) [] are = elim are [ ]
  length-AreRunsOf limits t (candidate ∷ candidates) (run ∷ runs) are =
      ap suc (length-AreRunsOf limits t candidates runs are.1)

module _ {World : Type 0} where
  -- A part of the round has returned, having appended `runs` to the log and counted them.
  pub record Counted (p : Progress (World × List AttemptedRun))
      (result : Outcome Thrown (Unit {0}) × Progress (World × List AttemptedRun))
      (runs : List AttemptedRun) : Type 0 where
    pub returned : result.0 ≡ ok tt
    pub attempts : result.1.attempted ≡ p.attempted + count_if was_attempted runs
    pub landings : result.1.landed ≡ p.landed + count_if has_landed runs
    pub log : result.1.world.1 ≡ p.world.1 ++ runs

module _ {Subject Instruction World : Type 0}
    (build : Candidate Subject → Decision → World → Outcome Thrown Instruction × World)
    (send : Instruction → World → Outcome Thrown Text × World) (report : Text → World → World)
    (date_now : World → ℕ) where
  abbrev here : Services Subject Instruction (World × List AttemptedRun)
  here = with_the_counting_log build send report date_now

  attempt-Counted :
      (candidate : Candidate Subject) (action : GuardAction)
      (p : Progress (World × List AttemptedRun))
      → (run : AttemptedRun) × Counted p (attempt here candidate action p) (run ∷ [])
        × Tried candidate action run
  unfolding attempt record_by_counting
  attempt-Counted candidate action p =
      elim (call-cases (build candidate (propose action) p.world.0)) [
        | inr (failure, w, e) ↦ rw e (
          reverted_run candidate action (why_it_failed failure) (date_now p.world.0) (date_now w),
          record { returned = refl; attempts = refl; landings = omega arith; log = refl },
          record { of_the_candidate = refl; of_the_action = refl; either_way = inr refl },
        )
        | inl (instruction, w, e) ↦ elim (call-cases (send instruction w)) [
          | inr (failure, w', e') ↦ rw e rw e' (
            reverted_run candidate action (why_it_failed failure) (date_now p.world.0)
                (date_now w'),
            record { returned = refl; attempts = refl; landings = omega arith; log = refl },
            record { of_the_candidate = refl; of_the_action = refl; either_way = inr refl },
          )
          | inl (signature, w', e') ↦ rw e rw e' (
            landed_run candidate action signature (date_now p.world.0) (date_now w'),
            record { returned = refl; attempts = refl; landings = refl; log = refl },
            record { of_the_candidate = refl; of_the_action = refl; either_way = inl refl },
          )
        ]
      ]

  act_on-Counted :
      (candidate : Candidate Subject) (decision : Decision)
      (p : Progress (World × List AttemptedRun))
      → (run : AttemptedRun) × Counted p (act_on here candidate decision p) (run ∷ [])
        × IsAnswerTo decision candidate run
  unfolding act_on record_by_counting
  act_on-Counted candidate (wait reason) p = (
    _,
    record { returned = refl; attempts = omega arith; landings = omega arith; log = refl },
    refl,
  )
  act_on-Counted candidate (propose action) p = attempt-Counted candidate action p

  then-Counted :
      (rest : Action (World × List AttemptedRun) (Unit {0}))
      (p : Progress (World × List AttemptedRun))
      (first : Outcome Thrown (Unit {0}) × Progress (World × List AttemptedRun))
      (runs runs' : List AttemptedRun)
      → Counted p first runs
      → Counted first.1 (rest first.1) runs'
      → Counted p (and_then (λ _. rest) first) (runs ++ runs')
  then-Counted rest p (throw failure, p') runs runs' c c' = cc
  then-Counted rest p (ok _, p') runs runs' c c' = record {
    returned = c'.returned;
    attempts = omega (arith, c.attempts, c'.attempts, count_if-append was_attempted runs runs');
    landings = omega (arith, c.landings, c'.landings, count_if-append has_landed runs runs');
    log = c'.log ∙ (ap (λ l. l ++ runs') c.log ∙ append_assoc p.world.1 runs runs');
  }

  consider_all-Counted :
      (limits : GuardLimits) (t : ℕ) (candidates : List (Candidate Subject))
      (p : Progress (World × List AttemptedRun))
      → (runs : List AttemptedRun) × Counted p (consider_all here limits t candidates p) runs
        × AreRunsOf limits t candidates runs
  unfolding consider_all consider
  consider_all-Counted limits t [] p = (
    [],
    record {
      returned = refl;
      attempts = omega arith;
      landings = omega arith;
      log = sym (append-nil p.world.1);
    },
    tt,
  )
  consider_all-Counted limits t (candidate ∷ candidates) p =
      let (run, c, is) = act_on-Counted candidate _ p in
      let (runs, c', are) = consider_all-Counted limits t candidates _ in
      (run ∷ runs, then-Counted _ p _ (run ∷ []) runs c c', (is, are))

  round_report-IsRecorded :
      (round : Round Subject) (w : World) (log runs : List AttemptedRun)
      (result : Outcome Thrown (Unit {0}) × Progress (World × List AttemptedRun))
      → Counted (record { attempted = 0; landed = 0; world = (w, log) }) result runs
      → AreRunsOf round.limits round.unix_timestamp
          (most_stretched_first (λ c. c.loan_to_value_bps) round.candidates)
          runs
      → IsRecorded round log (round_report here round result).1.1 (round_report here round result).0
  round_report-IsRecorded round w log runs (throw failure, p) c are = cc
  round_report-IsRecorded round w log runs (ok _, p) c are = record {
    runs = runs;
    report = _;
    returned = refl;
    log = c.log;
    in_order = are;
    considered =
        sym (length-most_stretched_first (λ c. c.loan_to_value_bps) round.candidates)
        ∙ length-AreRunsOf round.limits round.unix_timestamp _ runs are;
    attempted = omega (arith, c.attempts);
    landed = omega (arith, c.landings);
  }

  -- A round with the counting log returns, whatever building and sending do. It appends to the log
  -- one entry for each candidate, the most stretched first: the skipped check with its reason where
  -- the decision is to wait, and otherwise an entry of the action, landed or reverted. Its report
  -- counts these entries, those that were attempted and those that landed.
  pub run_one_round-IsRecorded :
      (round : Round Subject) (w : World) (log : List AttemptedRun)
      → IsRecorded round log
          (run_one_round here round (w, log)).1.1
          (run_one_round here round (w, log)).0
  unfolding run_one_round
  run_one_round-IsRecorded round w log =
      let (runs, c, are) =
        consider_all-Counted round.limits round.unix_timestamp
          (most_stretched_first (λ c. c.loan_to_value_bps) round.candidates)
          (record { attempted = 0; landed = 0; world = (w, log) }) in
      round_report-IsRecorded round w log runs _ c are
