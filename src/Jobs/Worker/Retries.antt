-- ===== src/Jobs/Worker/Retries.antt =====
-- When a run ends in a retry and when as a cancellation.
use Prim.Native.Nat.{◌^◌}
use rhombus_ai.Base.{
  ℕ, ◌+◌, ◌*◌, ◌≤◌, ◌<◌, ◌≡◌, ◌≢◌, refl, String, Bool, true, false, Option, none, some, arith,
}
use rhombus_ai.Failure.{
  Failure, ProcessingKind, LlmKind, job_cancelled, soft_time_limit, domain, processing, llm, spark,
  unexpected, processing_retryable, llm_retryable, source_unavailable, llm_unavailable, Result, ok,
  err,
}
use rhombus_ai.Processing.Pipeline.{RunStats}
use rhombus_ai.Jobs.Model.{Job}
use rhombus_ai.Jobs.Table.{is_cancel_requested}
use rhombus_ai.Jobs.Worker.Externals.{Externals, World}
use rhombus_ai.Jobs.Worker.Task.{
  record_failure, handle_transient, handle_by_type, handle_unless_asked, handle_failure, conclude,
  attempt, run_started, run_job, retry_delay, retrying,
}

-- The failures that pass by themselves: an unreachable storage or language model.
abbrev pub IsTransient : Failure → Type 0
IsTransient (processing source_unavailable message) = Unit
IsTransient (llm llm_unavailable message) = Unit
IsTransient e = ⊥

module _ (E : Externals) (job_id retries : ℕ) where
  handle_transient-retrying :
      (retryable : Bool) (code message : String) (w : World) (delay : ℕ)
      → (handle_transient E job_id retries retryable code message w).0 ≡ retrying delay
      → (retryable ≡ true) × (retries < 3) × (delay ≡ retry_delay retries E.jitter)
  unfolding handle_transient record_failure
  handle_transient-retrying retryable code message w delay h = ground arith

  processing-IsTransient :
      (kind : ProcessingKind) (message : String)
      → processing_retryable kind ≡ true
      → IsTransient (processing kind message)
  unfolding processing_retryable
  processing-IsTransient source_unavailable message h = tt
  processing-IsTransient kind message h = cc

  llm-IsTransient :
      (kind : LlmKind) (message : String)
      → llm_retryable kind ≡ true
      → IsTransient (llm kind message)
  unfolding llm_retryable
  llm-IsTransient llm_unavailable message h = tt
  llm-IsTransient kind message h = cc

  handle_by_type-retrying :
      (e : Failure) (w : World) (delay : ℕ)
      → (handle_by_type E job_id retries e w).0 ≡ retrying delay
      → IsTransient e × (retries < 3) × (delay ≡ retry_delay retries E.jitter)
  unfolding handle_by_type
  handle_by_type-retrying job_cancelled w delay h = cc
  handle_by_type-retrying soft_time_limit w delay h = cc
  handle_by_type-retrying (domain kind message) w delay h = cc
  handle_by_type-retrying (processing kind message) w delay h =
      let (again, few, wait) = handle_transient-retrying _ _ message w delay h in
      (processing-IsTransient kind message again, few, wait)
  handle_by_type-retrying (llm kind message) w delay h =
      let (again, few, wait) = handle_transient-retrying _ _ message w delay h in
      (llm-IsTransient kind message again, few, wait)
  handle_by_type-retrying (spark text) w delay h = cc
  handle_by_type-retrying unexpected w delay h = cc

  handle_unless_asked-retrying :
      (asked : Bool) (e : Failure) (w : World) (delay : ℕ)
      → (handle_unless_asked E job_id retries asked e w).0 ≡ retrying delay
      → (asked ≡ false) × IsTransient e × (retries < 3) × (delay ≡ retry_delay retries E.jitter)
  unfolding handle_unless_asked
  handle_unless_asked-retrying true e w delay h = cc
  handle_unless_asked-retrying false e w delay h =
      let (transient, few, wait) = handle_by_type-retrying e w delay h in
      (refl, transient, few, wait)

  -- A failure leads to a retry only if it is an outage of the storage or the language model, fewer
  -- than three retries were made, and no cancel request is recorded when it is handled; the retry
  -- waits 15 seconds, doubled for each retry so far, and the jitter.
  pub handle_failure-retrying :
      (e : Failure) (w : World) (delay : ℕ)
      → (handle_failure E job_id retries e w).0 ≡ retrying delay
      → (is_cancel_requested job_id (E.others w.turn w.table) ≡ false)
        × IsTransient e
        × (retries < 3)
        × (delay ≡ 15000 * 2 ^ retries + E.jitter)
  unfolding handle_failure retry_delay
  handle_failure-retrying job_cancelled w delay h = cc
  handle_failure-retrying e w delay h =
      let (free, transient, few, wait) = handle_unless_asked-retrying _ e _ delay h in
      (free, transient, few, omega (arith, wait))

  conclude-retrying :
      (path : String) (r : Result RunStats) (w : World) (delay : ℕ)
      → (conclude E job_id retries path r w).0 ≡ retrying delay
      → retries < 3
  unfolding conclude
  conclude-retrying path (err e) w delay h = (handle_failure-retrying e w delay h).2
  conclude-retrying path (ok stats) w delay h = cc

  attempt-retrying :
      (o : Option Job) (w : World) (delay : ℕ)
      → (attempt E job_id retries o w).0 ≡ retrying delay
      → retries < 3
  unfolding attempt
  attempt-retrying none w delay h = cc
  attempt-retrying (some job) w delay h = conclude-retrying _ _ _ delay h

  run_started-retrying :
      (begun : Bool) (w : World) (delay : ℕ)
      → (run_started E job_id retries begun w).0 ≡ retrying delay
      → retries < 3
  unfolding run_started
  run_started-retrying false w delay h = cc
  run_started-retrying true w delay h = attempt-retrying _ _ delay h

  -- A run that has been retried three times schedules no further retry.
  pub run_job-ne-retrying :
      (w : World) (delay : ℕ) → 3 ≤ retries → (run_job E job_id retries w).0 ≢ retrying delay
  unfolding run_job
  run_job-ne-retrying w delay last h = let few = run_started-retrying _ _ delay h in omega arith
