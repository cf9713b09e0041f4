-- ===== src/Jobs/Worker/Settles.antt =====
-- How a run ends: which statements it made, and that the job is settled unless a retry is due.
use rhombus_ai.Base.{ℕ, Option, none, some}
use rhombus_ai.Failure.{Failure}
use rhombus_ai.Jobs.Model.{Job}
use rhombus_ai.Jobs.Table.{Table}
use rhombus_ai.Jobs.Lifecycle.Outcome.{IsTerminal}
use rhombus_ai.Jobs.Worker.Externals.{Externals, World}
use rhombus_ai.Jobs.Worker.Task.{recorded, skipped, missing, completed, retrying, Outcome}

abbrev IsDone : Option Job → Type 0
IsDone none = ⊥
IsDone (some j) = IsTerminal j.status

-- The row of a settled job is terminal; a retry leaves it open.
abbrev pub IsSettled : ℕ → Outcome × World → Type 0
IsSettled id (retrying delay, w) = Unit
IsSettled id (missing, w) = ⊥
IsSettled id (skipped, w) = IsDone (w.table id)
IsSettled id (completed, w) = IsDone (w.table id)
IsSettled id (recorded code, w) = IsDone (w.table id)
