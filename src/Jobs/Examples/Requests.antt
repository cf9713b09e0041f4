-- ===== src/Jobs/Examples/Requests.antt =====
-- Requests of the API: one submission accepted, one refused, and a cancellation.
use rhombus_ai.Base.{ℕ, ◌≡◌, refl, String, some, [], ◌∷◌, ◌==◌, if◌then◌else◌}
use rhombus_ai.Failure.{domain, invalid_job_request, ok, err}
use rhombus_ai.Processing.Schema.{find_missing_columns}
use rhombus_ai.Jobs.Model.{csv, regex_replace}
use rhombus_ai.Jobs.Table.{Table}
use rhombus_ai.Jobs.Services.{
  JobRequest, Api, FileServices, new_job, validate_source, submit_job, cancel_job,
}
use rhombus_ai.Jobs.Services.Laws.{cancelled_row, cancel_answer, alone, cancel_job-alone}
use rhombus_ai.Jobs.Examples.{queued_job, only, queued-TableInv}

abbrev one_file : FileServices
one_file = record {
  get_file_type = λ key. ok csv;
  load_bucket = λ c. ok "b";
  preview_columns = λ c key. ok ("email" ∷ "name" ∷ []);
  id_text = λ id. "7";
}

abbrev request_for : String → JobRequest
request_for column = record {
  transform_type = regex_replace;
  connection_id = "c";
  source_key = "people.csv";
  target_columns = column ∷ [];
  nl_prompt = "find emails";
  pattern = "";
  replacement_value = "x";
}

abbrev api_of : Table → Api
api_of t = record { table = t; sent = []; revoked = [] }

cancel_job-alone_example :
    ((cancel_job alone 7 3 (api_of (only queued_job))).0 ≡ cancel_answer queued_job 3)
    × ((i : ℕ)
        → (cancel_job alone 7 3 (api_of (only queued_job))).1.table i
          ≡ (if i == 7 then some (cancelled_row queued_job 3) else only queued_job i))
cancel_job-alone_example =
    cancel_job-alone 7 3 (api_of (only queued_job)) queued_job queued-TableInv refl

submit_job_accepts :
    (submit_job one_file (request_for "email") 8 5 (api_of (only queued_job))).0
    ≡ ok (new_job one_file (request_for "email") "b" csv 8 5)
unfolding submit_job validate_source find_missing_columns
submit_job_accepts = refl

submit_job_refuses :
    (submit_job one_file (request_for "phone") 8 5 (api_of (only queued_job))).0
    ≡ err (domain invalid_job_request "target_columns")
unfolding submit_job validate_source find_missing_columns
submit_job_refuses = refl
