-- ===== src/Jobs/Examples.antt =====
-- One job in the table, carried through its lifecycle.
mod Runs
mod Requests
use rhombus_ai.Base.{
  ℕ, suc, ◌+◌, ◌*◌, ◌≤◌, ◌<◌, ◌≡◌, ◌≢◌, refl, String, Bool, true, false, Option, none, some, List,
  [], ◌∷◌, arith, eq_iff, ◌⊎◌, ◌==◌, if◌then◌else◌,
}
use Prim.Native.Nat.{◌^◌}
use rhombus_ai.Failure.{
  Failure, domain, invalid_job_request, llm, llm_unavailable, llm_retryable, Result, ok, err,
}
use rhombus_ai.Processing.Schema.{find_missing_columns}
use rhombus_ai.Progress.{new_tracker, loading}
use rhombus_ai.Progress.Arithmetic.{hundredths, hundredths-IsLawful}
use rhombus_ai.Jobs.Model.{Job, queued, running, success, failed, csv, mask_pii, regex_replace}
use rhombus_ai.Jobs.Table.{Table, is_cancel_requested}
use rhombus_ai.Jobs.Statements.{start_run, finish_run, fail}
use rhombus_ai.Jobs.Lifecycle.{
  IsNew, Step, Steps, here, next, started, progressed, finished, cancel_asked, gave_up,
}
use rhombus_ai.Jobs.Lifecycle.Invariant.{TableInv, Steps-TableInv, KeepsRequest, Steps-KeepsRequest}
use rhombus_ai.Jobs.Lifecycle.Outcome.{
  MovesTo, Step-MovesTo, KeepsOutcome, Steps-KeepsOutcome, Reaches, Steps-Reaches,
}
use rhombus_ai.Jobs.Worker.Externals.{Externals, World}
use rhombus_ai.Jobs.Worker.Task.{
  run_job, handle_failure, handle_unless_asked, handle_by_type, handle_transient, retry_delay,
  retrying, recorded, skipped,
}
use rhombus_ai.Jobs.Worker.Safety.{OthersStep}
use rhombus_ai.Jobs.Worker.Runs.{run_job-Steps}
use rhombus_ai.Jobs.Worker.Settles.{IsSettled}
use rhombus_ai.Jobs.Worker.Retries.{IsTransient, handle_failure-retrying, run_job-ne-retrying}
use rhombus_ai.Jobs.Services.{
  JobRequest, Api, FileServices, new_job, validate_source, submit_job, cancel_job,
}
use rhombus_ai.Jobs.Services.Laws.{
  cancelled_row, cancel_answer, alone, cancel_job-alone, cancel_job-Steps, submit_job_accepted,
  submit_job_refused,
}

abbrev pub queued_job : Job
queued_job = record {
  id = 7;
  status = queued;
  stage = "";
  progress = 0;
  connection_id = "c";
  source_bucket = "b";
  source_key = "people.csv";
  file_type = csv;
  target_columns = "email" ∷ [];
  transform_type = regex_replace;
  nl_prompt = "find emails";
  pattern = "";
  pattern_explanation = "";
  transform_spec = none;
  llm_cached = none;
  replacement_value = "x";
  result_path = "";
  row_count = none;
  matched_count = none;
  error_code = "";
  error_message = "";
  celery_task_id = "7";
  cancel_requested_at = none;
  created_at = 1;
  updated_at = 1;
  started_at = none;
  finished_at = none;
}

abbrev pub running_job : Job
running_job = record queued_job { status = running; started_at = some 2; updated_at = 2 }

abbrev pub asked_job : Job
asked_job = record running_job { cancel_requested_at = some 3 }

abbrev pub done_job : Job
done_job = record running_job {
  status = success;
  progress = 100;
  finished_at = some 4;
  row_count = some 3;
  matched_count = some 1;
}

abbrev pub only : Job → Table
only j i = if i == 7 then some j else none

pub queued-TableInv : TableInv (only queued_job)
queued-TableInv i = ground arith

pub asked-TableInv : TableInv (only asked_job)
asked-TableInv i = ground arith

-- A run of the queued job, with a cancel request that comes too late.
abbrev finished_table : Table
finished_table = (finish_run 7 "out" 3 1 4 (start_run 7 2 (only queued_job)).0).0

abbrev whole_run : Steps (only queued_job) finished_table
whole_run = next (next here (started _ 7 2)) (finished _ 7 "out" 3 1 4)

Steps-TableInv_example : TableInv finished_table
Steps-TableInv_example = Steps-TableInv whole_run queued-TableInv

abbrev restarted : Steps (only asked_job) (start_run 7 9 (only asked_job)).0
restarted = next here (started _ 7 9)

Steps-KeepsRequest_example : KeepsRequest 3 ((start_run 7 9 (only asked_job)).0 7)
Steps-KeepsRequest_example = Steps-KeepsRequest restarted asked-TableInv 7 3 asked_job refl refl

Steps-Reaches_example : Reaches queued (finished_table 7)
Steps-Reaches_example = Steps-Reaches whole_run 7 queued_job refl

code-ne : ◌≢◌ {A = String} "TIMEOUT" ""
code-ne = ground (arith, eq_iff "TIMEOUT" "")

Steps-KeepsOutcome_example : KeepsOutcome done_job ((fail 7 "TIMEOUT" "late" 5 (only done_job)).0 7)
Steps-KeepsOutcome_example =
    Steps-KeepsOutcome (next here (gave_up (only done_job) 7 "TIMEOUT" "late" 5 code-ne)) 7 done_job
      refl tt
