-- ===== src/Failure.antt =====
-- The exceptions that the application raises itself: backend/apps/core/exceptions.py and the
-- exceptions.py of each app (`DomainError`), backend/processing/errors.py (`ProcessingError`) and
-- backend/apps/llm/exceptions.py (`LLMError`). A function that may raise returns a `Result`.
pub mod Exec
use rhombus_ai.Base.{String, Bool, true, false, ◌≡◌, ◌≢◌, refl, str_eq, eq_iff}

pub data DomainKind : Type 0 where
  job_not_found invalid_job_request job_not_ready job_not_cancellable : DomainKind
  results_unavailable stored_file_not_found unsupported_file_type : DomainKind
  preview_unavailable storage_unavailable s3_credentials_invalid : DomainKind
  s3_bucket_not_found s3_connection_expired : DomainKind

unfoldable pub domain_code : DomainKind → String
domain_code job_not_found = "JOB_NOT_FOUND"
domain_code invalid_job_request = "VALIDATION_ERROR"
domain_code job_not_ready = "JOB_NOT_READY"
domain_code job_not_cancellable = "JOB_NOT_CANCELLABLE"
domain_code results_unavailable = "RESULTS_UNAVAILABLE"
domain_code stored_file_not_found = "FILE_NOT_FOUND"
domain_code unsupported_file_type = "UNSUPPORTED_FILE_TYPE"
domain_code preview_unavailable = "PREVIEW_UNAVAILABLE"
domain_code storage_unavailable = "STORAGE_UNAVAILABLE"
domain_code s3_credentials_invalid = "S3_CREDENTIALS_INVALID"
domain_code s3_bucket_not_found = "S3_BUCKET_NOT_FOUND"
domain_code s3_connection_expired = "S3_CONNECTION_EXPIRED"

pub data ProcessingKind : Type 0 where
  column_not_found source_read_error source_unavailable : ProcessingKind
  invalid_pattern invalid_spec : ProcessingKind

unfoldable pub processing_code : ProcessingKind → String
processing_code column_not_found = "COLUMN_NOT_FOUND"
processing_code source_read_error = "SOURCE_READ_ERROR"
processing_code source_unavailable = "STORAGE_UNAVAILABLE"
processing_code invalid_pattern = "INVALID_PATTERN"
processing_code invalid_spec = "INVALID_SPEC"

unfoldable pub processing_retryable : ProcessingKind → Bool
processing_retryable source_unavailable = true
processing_retryable _ = false

pub data LlmKind : Type 0 where
  llm_not_configured llm_unavailable llm_request_failed llm_invalid_response : LlmKind
  pattern_not_expressible normalization_not_possible : LlmKind

unfoldable pub llm_code : LlmKind → String
llm_code llm_not_configured = "LLM_NOT_CONFIGURED"
llm_code llm_unavailable = "LLM_UNAVAILABLE"
llm_code llm_request_failed = "LLM_REQUEST_FAILED"
llm_code llm_invalid_response = "LLM_INVALID_RESPONSE"
llm_code pattern_not_expressible = "PATTERN_NOT_EXPRESSIBLE"
llm_code normalization_not_possible = "NORMALIZATION_NOT_POSSIBLE"

unfoldable pub llm_retryable : LlmKind → Bool
llm_retryable llm_unavailable = true
llm_retryable _ = false

-- `spark` is one of Spark's own exceptions (`CapturedException`, `Py4JJavaError`) with its text;
-- `unexpected` is any other exception. A blank message stands for the default of the class.
pub data Failure : Type 0 where
  job_cancelled soft_time_limit : Failure
  domain : DomainKind → String → Failure
  processing : ProcessingKind → String → Failure
  llm : LlmKind → String → Failure
  spark : String → Failure
  unexpected : Failure

pub data Result {ℓ} (A : Type ℓ) : Type ℓ where
  ok : A → Result A
  err : Failure → Result A

-- No recorded code is blank, so that a failed job always shows an error.
pub ne_blank : (s : String) → str_eq s "" ≡ false → s ≢ ""
ne_blank s h p = cc ((eq_iff s "").1 p, h)

pub domain_code-ne : (k : DomainKind) → domain_code k ≢ ""
unfolding domain_code
domain_code-ne job_not_found = ne_blank _ refl
domain_code-ne invalid_job_request = ne_blank _ refl
domain_code-ne job_not_ready = ne_blank _ refl
domain_code-ne job_not_cancellable = ne_blank _ refl
domain_code-ne results_unavailable = ne_blank _ refl
domain_code-ne stored_file_not_found = ne_blank _ refl
domain_code-ne unsupported_file_type = ne_blank _ refl
domain_code-ne preview_unavailable = ne_blank _ refl
domain_code-ne storage_unavailable = ne_blank _ refl
domain_code-ne s3_credentials_invalid = ne_blank _ refl
domain_code-ne s3_bucket_not_found = ne_blank _ refl
domain_code-ne s3_connection_expired = ne_blank _ refl

pub processing_code-ne : (k : ProcessingKind) → processing_code k ≢ ""
unfolding processing_code
processing_code-ne column_not_found = ne_blank _ refl
processing_code-ne source_read_error = ne_blank _ refl
processing_code-ne source_unavailable = ne_blank _ refl
processing_code-ne invalid_pattern = ne_blank _ refl
processing_code-ne invalid_spec = ne_blank _ refl

pub llm_code-ne : (k : LlmKind) → llm_code k ≢ ""
unfolding llm_code
llm_code-ne llm_not_configured = ne_blank _ refl
llm_code-ne llm_unavailable = ne_blank _ refl
llm_code-ne llm_request_failed = ne_blank _ refl
llm_code-ne llm_invalid_response = ne_blank _ refl
llm_code-ne pattern_not_expressible = ne_blank _ refl
llm_code-ne normalization_not_possible = ne_blank _ refl
