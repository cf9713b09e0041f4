-- ===== src/Http/Jobs.antt =====
-- The views of backend/apps/jobs/views.py on the services, with the validation of the serializers.
-- The types, lengths and defaults of fields are checked by Django REST framework.
pub mod Answers
use rhombus_ai.Base.{ℕ, String, Bool, true, false, Option, none, some, List, []}
use rhombus_ai.Failure.{Result, ok, err}
use rhombus_ai.Regex.Checks.{Python}
use rhombus_ai.Files.Types.{from_key}
use rhombus_ai.Results.{Output, ResultsPage}
use rhombus_ai.Jobs.Model.{Job, FileType}
use rhombus_ai.Jobs.Table.{Table}
use rhombus_ai.Jobs.Services.{
  JobRequest, Api, FileServices, submit_job, get_job, cancel_job, get_job_results,
}
use rhombus_ai.Jobs.Serializers.{
  validate, validate_target_columns, validate_pattern_field, get_error, get_cancel_requested,
}
use rhombus_ai.Http.Errors.{Raised, of_app, validation_error, ErrorBody, api_exception_handler}

-- `JobSerializer`: the row, with its error and whether its cancellation was asked for.
pub record JobBody : Type 0 where
  pub job : Job
  pub error : Option (String × String)
  pub cancel_requested : Bool

unfoldable pub job_body : Job → JobBody
unfolding get_error get_cancel_requested
job_body job = record {
  job = job;
  error = get_error job;
  cancel_requested = get_cancel_requested job;
}

-- A response with its status, or an error.
pub data Response (A : Type 0) : Type 0 where
  responds : ℕ → A → Response A
  refuses : ErrorBody → Response A

abbrev pub raised : {A : Type 0} → Raised → Response A
unfolding api_exception_handler
raised r = refuses (api_exception_handler r)

abbrev pub answer_of : {A B : Type 0} → ℕ → (A → B) → Result A → Response B
unfolding raised
answer_of status show (ok a) = responds status (show a)
answer_of status show (err e) = raised (of_app e)

abbrev pub is_supported : Option FileType → Bool
is_supported none = false
is_supported (some t) = true

-- `is_valid` with the methods of `JobCreateSerializer`: those of the fields, then `validate`. `none`
-- is a `ValidationError`.
abbrev pub checked_together : JobRequest → Option (String × String) → Option JobRequest
checked_together r none = some r
checked_together r (some problem) = none

abbrev pub with_pattern : JobRequest → Result String → Option JobRequest
unfolding validate validate_target_columns
with_pattern r (err e) = none
with_pattern r (ok pattern) =
    let r' : JobRequest = record r {
      target_columns = validate_target_columns r.target_columns;
      pattern = pattern;
    } in
    checked_together r' (validate r')

unfoldable pub validated : (String → String) → Python → JobRequest → Option JobRequest
unfolding with_pattern from_key validate_pattern_field
validated extension_of python r = elim (is_supported (from_key extension_of r.source_key)) [
  | false ↦ none
  | true ↦ with_pattern r (validate_pattern_field python r.pattern)
]

abbrev pub submitted : FileServices → ℕ → ℕ → Api → Option JobRequest → Response JobBody × Api
unfolding submit_job job_body answer_of raised
submitted files id now api none = (raised validation_error, api)
submitted files id now api (some r) =
    let (result, api') = submit_job files r id now api in (answer_of 202 job_body result, api')

-- `JobCreateView.post`
unfoldable pub post_job :
    (String → String) → Python → FileServices → JobRequest → ℕ → ℕ → Api → Response JobBody × Api
unfolding submitted validated
post_job extension_of python files r id now api =
    submitted files id now api (validated extension_of python r)

-- `JobDetailView.get`
unfoldable pub get_detail : ℕ → Table → Response JobBody
unfolding get_job job_body answer_of
get_detail job_id t = answer_of 200 job_body (get_job job_id t)

-- `JobCancelView.post`
unfoldable pub post_cancel : (ℕ → Table → Table) → ℕ → ℕ → Api → Response JobBody × Api
unfolding cancel_job job_body answer_of
post_cancel others job_id now api =
    let (result, api') = cancel_job others job_id now api in (answer_of 202 job_body result, api')

-- `JobResultsView.get`
unfoldable pub get_results :
    {Cell : Type 0} → (String → Output Cell) → ℕ → ℕ → ℕ → Table → Response (ResultsPage Cell)
unfolding get_job_results answer_of
get_results output job_id page page_size t =
    answer_of 200 (λ p. p) (get_job_results output job_id page page_size t)
