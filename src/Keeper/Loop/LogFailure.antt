-- ===== src/Keeper/Loop/LogFailure.antt =====
-- What apps/keeper/src/loop.ts does when an instruction has landed and the log then fails: the log
-- is written inside the `try`, so the `catch` takes over.
use accrue.Base.Text.{Text}
