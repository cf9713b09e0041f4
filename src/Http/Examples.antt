-- ===== src/Http/Examples.antt =====
-- A bucket that is connected and listed, and an answer for a missing job.
use rhombus_ai.Base.{ℕ, String, true, false, ◌≡◌, refl, Option, none, some, [], ◌∷◌, arith}
use rhombus_ai.Failure.{ok, domain, job_not_found}
use rhombus_ai.Files.Storage.{S3Answer, answered}
use rhombus_ai.Files.Connections.{S3Connection}
use rhombus_ai.Files.Connections.Laws.{serve_all}
use rhombus_ai.Files.Connections.Sample.{
  Entries, entries, entries-IsCache, readable, readable-IsCodec, minio, own, ne_texts,
}
use rhombus_ai.Files.Listing.{ListResponse, FilePage}
use rhombus_ai.Files.Listing.Sample.{extension, lists_two, bucket-IsBucket}
use rhombus_ai.Files.Listing.Walk.{IsPageOf, left_after}
use rhombus_ai.Http.Errors.{
  of_app, IsErrorBody, api_exception_handler, api_exception_handler-IsErrorBody,
}
use rhombus_ai.Http.Health.{health, run_health_checks, check_database, check_redis}
use rhombus_ai.Http.Files.{ConnectedBody, connect, get_files, validate_endpoint_url, rstrip_slashes}
use rhombus_ai.Jobs.Model.{csv, regex_replace}
use rhombus_ai.Jobs.Services.{JobRequest, Api, FileServices}
use rhombus_ai.Http.Files.Connected.{connect-get_files}

abbrev nothing : Entries
nothing key = none

abbrev any_bucket : S3Connection → String → Option String → ℕ → S3Answer ListResponse
any_bucket c prefix = lists_two

abbrev listed_one : ℕ
listed_one = 1

endpoint_stripped : validate_endpoint_url "http://minio:9000//" ≡ some "http://minio:9000"
unfolding validate_endpoint_url rstrip_slashes
endpoint_stripped = refl

endpoint_refused : validate_endpoint_url "minio:9000" ≡ none
unfolding validate_endpoint_url rstrip_slashes
endpoint_refused = refl

degraded : (health true false).http_status ≡ 503
unfolding health run_health_checks check_database check_redis
degraded = refl

connect-get_files_example :
    (body : ConnectedBody) × ((connect entries readable minio
        (answered listed_one)
        10
        5
        "id-a"
        own
        nothing).0
      ≡ ok body)
    × (body.connection_id ≡ "id-a")
    × (page : FilePage) × (get_files entries readable minio extension any_bucket 6 100
          (record {
            connection_id = body.connection_id;
            prefix = "";
            cursor = some "";
            page_size = 2;
          })
          (serve_all entries readable minio []
            (connect entries readable minio (answered listed_one) 10 5 "id-a" own nothing).1)
        ≡ some (ok page))
    × IsPageOf extension 2 (left_after extension bucket-IsBucket none) page
connect-get_files_example =
    connect-get_files entries readable minio entries-IsCache readable-IsCodec extension any_bucket
      listed_one 10 100 5 "id-a" own [] nothing 6 2 "" (some "") bucket-IsBucket
      (ne_texts "id-a" "demo" refl) (omega arith) (omega arith) tt (omega arith) (omega arith)

api_exception_handler-IsErrorBody_example :
    IsErrorBody (api_exception_handler (of_app (domain job_not_found "")))
api_exception_handler-IsErrorBody_example =
    api_exception_handler-IsErrorBody (of_app (domain job_not_found "")) tt

abbrev no_jobs : Api
no_jobs = record { table = λ i. none; sent = []; revoked = [] }

abbrev people : FileServices
people = record {
  get_file_type = λ key. ok csv;
  load_bucket = λ c. ok "sales";
  preview_columns = λ c key. ok ("email" ∷ []);
  id_text = λ id. "8";
}

abbrev find_emails : JobRequest
find_emails = record {
  transform_type = regex_replace;
  connection_id = "id-a";
  source_key = "a.csv";
  target_columns = "email" ∷ [];
  nl_prompt = "find emails";
  pattern = "";
  replacement_value = "x";
}
