-- ===== src/Http/Errors.antt =====
-- backend/config/exception_handler.py, with the statuses and default messages of the exceptions of
-- backend/apps/core/exceptions.py and of the apps. The details of an error are left out.
use rhombus_ai.Base.{
  ℕ, ◌≤◌, String, Bool, ◌≢◌, refl, str_eq, if◌then◌else◌, arith, Bool-cases, inl, inr,
}
use rhombus_ai.Failure.{
  DomainKind, job_not_found, invalid_job_request, job_not_ready, job_not_cancellable,
  results_unavailable, stored_file_not_found, unsupported_file_type, preview_unavailable,
  storage_unavailable, s3_credentials_invalid, s3_bucket_not_found, s3_connection_expired,
  domain_code, domain_code-ne, ne_blank, Failure, job_cancelled, soft_time_limit, domain,
  processing, llm, spark, unexpected,
}

unfoldable pub http_status : DomainKind → ℕ
http_status job_not_found = 404
http_status invalid_job_request = 400
http_status job_not_ready = 409
http_status job_not_cancellable = 409
http_status results_unavailable = 410
http_status stored_file_not_found = 404
http_status unsupported_file_type = 400
http_status preview_unavailable = 422
http_status storage_unavailable = 503
http_status s3_credentials_invalid = 400
http_status s3_bucket_not_found = 404
http_status s3_connection_expired = 400

unfoldable pub default_message : DomainKind → String
default_message job_not_found = "The requested job was not found."
default_message invalid_job_request = "The request contains invalid fields."
default_message job_not_ready = "Results are available only after the job has succeeded."
default_message job_not_cancellable = "Only queued or running jobs can be cancelled."
default_message results_unavailable = "Results for this job are no longer available."
default_message stored_file_not_found = "The requested file was not found."
default_message unsupported_file_type = "Only CSV (.csv) and Excel (.xlsx) files are supported."
default_message preview_unavailable = "A preview is not available for this file."
default_message storage_unavailable = "File storage is unavailable. Please retry shortly."
default_message s3_credentials_invalid =
    "S3 rejected these credentials. Check the access key and secret key."
default_message s3_bucket_not_found =
    "That bucket does not exist, or these credentials cannot see it."
default_message s3_connection_expired = "The S3 connection has expired. Connect again to continue."

-- An exception for which `drf_exception_handler` makes a response: its status, `default_code` in
-- capitals and `detail`.
pub record RestError : Type 0 where
  pub is_http_404 : Bool
  pub upper_code : String
  pub detail : String
  pub status : ℕ

-- What a view may raise.
pub data Raised : Type 0 where
  of_app : Failure → Raised
  validation_error : Raised
  of_rest_framework : RestError → Raised

pub record ErrorBody : Type 0 where
  pub code : String
  pub message : String
  pub status : ℕ

abbrev pub error_response : String → String → ℕ → ErrorBody
error_response code message status = record { code = code; message = message; status = status }

-- `text or default`
abbrev pub text_or : String → String → String
text_or default text = if str_eq text "" then default else text

abbrev pub internal_error : ErrorBody
internal_error = error_response "INTERNAL_ERROR" "An unexpected error occurred." 500

unfoldable pub api_exception_handler : Raised → ErrorBody
unfolding http_status default_message domain_code
api_exception_handler (of_app (domain kind message)) =
    error_response (domain_code kind) (text_or (default_message kind) message) (http_status kind)
api_exception_handler (of_app job_cancelled) = internal_error
api_exception_handler (of_app soft_time_limit) = internal_error
api_exception_handler (of_app (processing kind message)) = internal_error
api_exception_handler (of_app (llm kind message)) = internal_error
api_exception_handler (of_app (spark message)) = internal_error
api_exception_handler (of_app unexpected) = internal_error
api_exception_handler validation_error =
    error_response "VALIDATION_ERROR" "The request contains invalid fields." 400
api_exception_handler (of_rest_framework e) =
    if e.is_http_404
    then error_response "NOT_FOUND" "The requested resource was not found." 404
    else error_response e.upper_code (text_or "The request failed." e.detail) e.status

-- What Django REST framework documents of its exceptions.
abbrev pub IsRaised : Raised → Type 0
IsRaised (of_app e) = Unit
IsRaised validation_error = Unit
IsRaised (of_rest_framework e) = (e.upper_code ≢ "") × (400 ≤ e.status) × (e.status ≤ 599)

pub record IsErrorBody (b : ErrorBody) : Type 0 where
  pub code : b.code ≢ ""
  pub message : b.message ≢ ""
  pub low : 400 ≤ b.status
  pub high : b.status ≤ 599

text_or-ne : (default text : String) → default ≢ "" → text_or default text ≢ ""
text_or-ne default text h = elim (Bool-cases (str_eq text "")) [
  | inl blank ↦ rw blank h
  | inr given ↦ rw given (ne_blank text given)
]

default_message-ne : (k : DomainKind) → default_message k ≢ ""
unfolding default_message
default_message-ne job_not_found = ne_blank _ refl
default_message-ne invalid_job_request = ne_blank _ refl
default_message-ne job_not_ready = ne_blank _ refl
default_message-ne job_not_cancellable = ne_blank _ refl
default_message-ne results_unavailable = ne_blank _ refl
default_message-ne stored_file_not_found = ne_blank _ refl
default_message-ne unsupported_file_type = ne_blank _ refl
default_message-ne preview_unavailable = ne_blank _ refl
default_message-ne storage_unavailable = ne_blank _ refl
default_message-ne s3_credentials_invalid = ne_blank _ refl
default_message-ne s3_bucket_not_found = ne_blank _ refl
default_message-ne s3_connection_expired = ne_blank _ refl

http_status-error : (k : DomainKind) → (400 ≤ http_status k) × (http_status k ≤ 599)
unfolding http_status
http_status-error k = ground arith

internal : IsErrorBody internal_error
internal = record {
  code = ne_blank _ refl;
  message = ne_blank _ refl;
  low = omega arith;
  high = omega arith;
}

-- Every exception is answered by an error with a code and a message, neither of them blank, and a
-- status from 400 to 599, given that Django REST framework's own exceptions have such a status and a
-- code.
pub api_exception_handler-IsErrorBody :
    (r : Raised) → IsRaised r → IsErrorBody (api_exception_handler r)
unfolding api_exception_handler
api_exception_handler-IsErrorBody (of_app (domain kind message)) h =
    let (low, high) = http_status-error kind in
    record {
      code = domain_code-ne kind;
      message = text_or-ne (default_message kind) message (default_message-ne kind);
      low = low;
      high = high;
    }
api_exception_handler-IsErrorBody (of_app job_cancelled) h = internal
api_exception_handler-IsErrorBody (of_app soft_time_limit) h = internal
api_exception_handler-IsErrorBody (of_app (processing kind message)) h = internal
api_exception_handler-IsErrorBody (of_app (llm kind message)) h = internal
api_exception_handler-IsErrorBody (of_app (spark message)) h = internal
api_exception_handler-IsErrorBody (of_app unexpected) h = internal
api_exception_handler-IsErrorBody validation_error h = record {
  code = ne_blank _ refl;
  message = ne_blank _ refl;
  low = omega arith;
  high = omega arith;
}
api_exception_handler-IsErrorBody (of_rest_framework e) h = elim (Bool-cases e.is_http_404) [
  | inl missing ↦ rw missing (record {
    code = ne_blank _ refl;
    message = ne_blank _ refl;
    low = omega arith;
    high = omega arith;
  })
  | inr other ↦ rw other (record {
    code = h.0;
    message = text_or-ne "The request failed." e.detail (ne_blank _ refl);
    low = h.1;
    high = h.2;
  })
]
