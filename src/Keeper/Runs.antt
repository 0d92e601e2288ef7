-- ===== src/Keeper/Runs.antt =====
-- apps/keeper/src/runs.ts: what the keeper writes down of each position that it looked at.
use accrue.Base.{Option, List, ◌∷◌, [], ◌++◌}
use accrue.Base.Int.{ℤ}
use accrue.Base.Outcome.{Outcome, ok}
use accrue.Base.Text.{Text}
use accrue.Keeper.Decide.{GuardAction}

pub data RunOutcome : Type 0 where
  landed reverted skipped : RunOutcome

-- `GuardAction | 'check'`
pub data RunKind : Type 0 where
  acted : GuardAction → RunKind
  check : RunKind

pub record AttemptedRun : Type 0 where
  pub position_address : Text
  pub kind : RunKind
  pub outcome : RunOutcome
  pub signature : Option Text
  pub reason : Option Text
  -- A difference of two readings of the clock, which may have been set back between them.
  pub duration_ms : ℤ

-- `createRunLogThatOnlyCounts().record`: the log that is kept when there is no database.
unfoldable pub record_by_counting {ε} :
    {E : Type ε} → AttemptedRun → List AttemptedRun → Outcome E (Unit {0}) × List AttemptedRun
record_by_counting run recorded = (ok tt, recorded ++ (run ∷ []))
