-- ===== src/Jobs/Services.antt =====
-- backend/apps/jobs/services.py: the use cases of the API. The file and connection services that it
-- calls are arguments; before each database statement other processes may act on the table.
pub mod Laws
use rhombus_ai.Base.{
  ℕ, zero, suc, String, Bool, true, false, Option, none, some, List, [], ◌∷◌, str_eq, if◌then◌else◌,
}
use rhombus_ai.Failure.{
  Failure, domain, job_not_found, invalid_job_request, job_not_ready, job_not_cancellable,
  stored_file_not_found, preview_unavailable, Result, ok, err,
}
use rhombus_ai.Processing.Schema.{find_missing_columns}
use rhombus_ai.Results.{Output, ResultsPage, read_results_page}
use rhombus_ai.Jobs.Model.{Job, JobStatus, queued, success, TransformType, FileType, status_eq}
use rhombus_ai.Jobs.Table.{Table, update_where, request_cancel}
use rhombus_ai.Jobs.Statements.{create_job, cancel_queued}

pub record JobRequest : Type 0 where
  pub transform_type : TransformType
  pub connection_id : String
  pub source_key : String
  pub target_columns : List String
  pub nl_prompt : String
  pub pattern : String
  pub replacement_value : String

-- What the process keeps beside the table: the tasks sent after commit, and those revoked.
pub record Api : Type 0 where
  pub table : Table
  pub sent : List ℕ
  pub revoked : List String

-- `get_file_type`, `connections.load` with the bucket of the connection, the columns of
-- `get_file_preview`, and `str(uuid)`.
pub record FileServices : Type 0 where
  pub get_file_type : String → Result FileType
  pub load_bucket : String → Result String
  pub preview_columns : String → String → Result (List String)
  pub id_text : ℕ → String

abbrev check_missing : List String → Result (Unit {0})
check_missing [] = ok tt
check_missing (column ∷ missing) = err (domain invalid_job_request "target_columns")

abbrev check_preview : List String → Result (List String) → Result (Unit {0})
check_preview columns (ok available) = check_missing (find_missing_columns available columns)
check_preview columns (err (domain stored_file_not_found message)) =
    err (domain invalid_job_request message)
check_preview columns (err (domain preview_unavailable message)) = ok tt
check_preview columns (err e) = err e

unfoldable pub validate_source : FileServices → String → String → List String → Result (Unit {0})
unfolding find_missing_columns
validate_source files connection_id key columns =
    check_preview columns (files.preview_columns connection_id key)

-- `Job.objects.create` with the defaults of the model, and then the task id.
unfoldable pub new_job : FileServices → JobRequest → String → FileType → ℕ → ℕ → Job
new_job files r bucket file_type id now = record {
  id = id;
  status = queued;
  stage = "";
  progress = 0;
  connection_id = r.connection_id;
  source_bucket = bucket;
  source_key = r.source_key;
  file_type = file_type;
  target_columns = r.target_columns;
  transform_type = r.transform_type;
  nl_prompt = r.nl_prompt;
  pattern = r.pattern;
  pattern_explanation = "";
  transform_spec = none;
  llm_cached = none;
  replacement_value = r.replacement_value;
  result_path = "";
  row_count = none;
  matched_count = none;
  error_code = "";
  error_message = "";
  celery_task_id = files.id_text id;
  cancel_requested_at = none;
  created_at = now;
  updated_at = now;
  started_at = none;
  finished_at = none;
}

-- `id` is the fresh UUID. The insert and the save of the task id are one statement here, since the
-- message to the worker is sent after the commit.
unfoldable pub submit_job : FileServices → JobRequest → ℕ → ℕ → Api → Result Job × Api
unfolding new_job create_job
submit_job files r id now api = elim (files.get_file_type r.source_key) [
  | err e ↦ (err e, api)
  | ok file_type ↦ elim (files.load_bucket r.connection_id) [
    | err e ↦ (err e, api)
    | ok bucket ↦ elim (validate_source files r.connection_id r.source_key r.target_columns) [
      | err e ↦ (err e, api)
      | ok _ ↦
          let job = new_job files r bucket file_type id now in
          (ok job, record api { table = create_job job api.table; sent = id ∷ api.sent })
    ]
  ]
]

unfoldable pub get_job : ℕ → Table → Result Job
get_job job_id t = elim (t job_id) [ none ↦ err (domain job_not_found "") | some job ↦ ok job ]

-- A blank task id is not revoked; a broker that fails is logged only.
unfoldable pub revoke_task : String → Api → Api
revoke_task task_id api =
    if str_eq task_id "" then api else record api { revoked = task_id ∷ api.revoked }

module _ (others : ℕ → Table → Table) where
  -- `job.refresh_from_db()`; the row is never deleted.
  refreshed : ℕ → Api → Result Job × Api
  unfolding get_job
  refreshed job_id api = let t = others 3 api.table in (get_job job_id t, record api { table = t })

  request_or_refuse : Table × Bool → ℕ → Api → Result Job × Api
  unfolding refreshed
  request_or_refuse (t, true) job_id api = refreshed job_id (record api { table = t })
  request_or_refuse (t, false) job_id api =
      (err (domain job_not_cancellable ""), record api { table = t })

  cancel_from_queue : Table × Bool → Job → ℕ → Api → Result Job × Api
  unfolding request_or_refuse refreshed revoke_task request_cancel
  cancel_from_queue (t, true) job now api =
      refreshed job.id (revoke_task job.celery_task_id (record api { table = t }))
  cancel_from_queue (t, false) job now api =
      request_or_refuse (request_cancel job.id now (others 2 t)) job.id api

  unfoldable pub cancel_job : ℕ → ℕ → Api → Result Job × Api
  unfolding get_job cancel_from_queue cancel_queued
  cancel_job job_id now api =
      let t = others 0 api.table in
      elim (get_job job_id t) [
        | err e ↦ (err e, record api { table = t })
        | ok job ↦ cancel_from_queue (cancel_queued job.id now (others 1 t)) job now api
      ]

abbrev or_zero : Option ℕ → ℕ
or_zero none = 0
or_zero (some n) = n

-- `output` is what DuckDB reads under a result path.
unfoldable pub get_job_results :
    {Cell : Type 0} → (String → Output Cell) → ℕ → ℕ → ℕ → Table → Result (ResultsPage Cell)
unfolding get_job status_eq
get_job_results output job_id page page_size t = elim (get_job job_id t) [
  | err e ↦ err e
  | ok job ↦
      if status_eq job.status success
      then read_results_page (output job.result_path) (or_zero job.row_count) page page_size
      else err (domain job_not_ready "")
]
