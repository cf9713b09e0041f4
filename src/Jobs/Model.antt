-- ===== src/Jobs/Model.antt =====
-- backend/apps/jobs/models.py: statuses, transform types and the row of a job. Identifiers (UUIDs)
-- and times are natural numbers; `none` is a NULL column. A saved specification is never empty.
use rhombus_ai.Base.{ℕ, String, Bool, true, false, Option, some, List, [], ◌∷◌, any}

pub data JobStatus : Type 0 where
  queued running success failed : JobStatus

unfoldable pub status_eq : JobStatus → JobStatus → Bool
status_eq queued queued = true
status_eq running running = true
status_eq success success = true
status_eq failed failed = true
status_eq _ _ = false

unfoldable pub status_in : JobStatus → List JobStatus → Bool
unfolding status_eq
status_in s sources = any (status_eq s) sources

abbrev pub terminal_statuses : List JobStatus
terminal_statuses = success ∷ failed ∷ []

-- The Python table has no entry for QUEUED, and no call asks for one.
unfoldable pub allowed_source_statuses : JobStatus → List JobStatus
allowed_source_statuses running = queued ∷ running ∷ []
allowed_source_statuses success = running ∷ []
allowed_source_statuses failed = queued ∷ running ∷ []
allowed_source_statuses queued = []

abbrev pub cancelled_error_code : String
cancelled_error_code = "CANCELLED"

abbrev pub cancelled_message : String
cancelled_message = "The job was cancelled."

pub data TransformType : Type 0 where
  regex_replace normalize_format mask_pii : TransformType

pub data FileType : Type 0 where
  csv xlsx : FileType

pub record Job : Type 0 where
  pub id : ℕ
  pub status : JobStatus
  pub stage : String
  pub progress : ℕ
  pub connection_id : String
  pub source_bucket : String
  pub source_key : String
  pub file_type : FileType
  pub target_columns : List String
  pub transform_type : TransformType
  pub nl_prompt : String
  pub pattern : String
  pub pattern_explanation : String
  pub transform_spec : Option String
  pub llm_cached : Option Bool
  pub replacement_value : String
  pub result_path : String
  pub row_count : Option ℕ
  pub matched_count : Option ℕ
  pub error_code : String
  pub error_message : String
  pub celery_task_id : String
  pub cancel_requested_at : Option ℕ
  pub created_at : ℕ
  pub updated_at : ℕ
  pub started_at : Option ℕ
  pub finished_at : Option ℕ

-- The keyword arguments that the callers of `transition` pass as `**fields`.
pub data Field : Type 0 where
  set_started_at set_finished_at set_cancel_requested_at : ℕ → Field
  set_stage : String → Field
  set_progress : ℕ → Field
  set_error_code set_error_message : String → Field
  set_result_path : String → Field
  set_row_count set_matched_count : ℕ → Field

unfoldable pub set_field : Field → Job → Job
set_field (set_started_at t) j = record j { started_at = some t }
set_field (set_finished_at t) j = record j { finished_at = some t }
set_field (set_cancel_requested_at t) j = record j { cancel_requested_at = some t }
set_field (set_stage s) j = record j { stage = s }
set_field (set_progress n) j = record j { progress = n }
set_field (set_error_code s) j = record j { error_code = s }
set_field (set_error_message s) j = record j { error_message = s }
set_field (set_result_path s) j = record j { result_path = s }
set_field (set_row_count n) j = record j { row_count = some n }
set_field (set_matched_count n) j = record j { matched_count = some n }

unfoldable pub set_fields : List Field → Job → Job
unfolding set_field
set_fields [] j = j
set_fields (f ∷ fs) j = set_fields fs (set_field f j)
