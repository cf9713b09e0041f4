-- ===== src/Jobs/Worker/Cancelled.antt =====
-- A job whose cancellation was requested does no more work.
use rhombus_ai.Failure.{Failure}
use rhombus_ai.Failure.Exec.{Exec}
use rhombus_ai.Jobs.Table.{Table}
use rhombus_ai.Jobs.Worker.Externals.{Externals}
