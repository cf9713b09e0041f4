-- ===== src/Processing/Errors.antt =====
-- backend/processing/errors.py: which of Spark's errors are storage outages, and the error that a
-- source that cannot be read becomes. `describe_error`, which reads Spark's exception, is a parameter.
use Prim.Native.String.{◌++◌}
use text.Mathlib.Text.{find?}
use rhombus_ai.Base.{String, Bool, true, false, none, some, List, [], ◌∷◌, any, if◌then◌else◌}
use rhombus_ai.Failure.{
  Failure, processing, spark, source_unavailable, source_read_error, Result, ok, err,
}

pub transient_storage_markers : List String
transient_storage_markers =
    "java.net.ConnectException" ∷ "java.net.SocketTimeoutException"
    ∷ "java.net.UnknownHostException" ∷ "org.apache.hadoop.fs.s3a.AWSClientIOException"
    ∷ "com.amazonaws.SdkClientException" ∷ "Unable to execute HTTP request" ∷ "Connection refused"
    ∷ "503 Service Unavailable" ∷ "SlowDown" ∷ []

-- `marker in text`
abbrev occurs_in : String → String → Bool
occurs_in marker text = elim (find? text marker) [ none ↦ false | some _ ↦ true ]

unfoldable pub is_transient_storage_error : String → Bool
unfolding transient_storage_markers
is_transient_storage_error text = any (λ marker. occurs_in marker text) transient_storage_markers

module _ (describe : String → String) where
  -- `_source_error` of pipeline.py
  unfoldable pub source_error : String → Failure
  source_error text =
      if is_transient_storage_error text
      then processing source_unavailable ("The source file could not be reached: " ++ describe text)
      else processing source_read_error ("Could not read the source file: " ++ describe text)

  -- `except _SPARK_ERRORS as exc: raise _source_error(exc)`
  unfoldable pub spark_errors_as_source_errors : {A : Type 0} → Result A → Result A
  unfolding source_error
  spark_errors_as_source_errors (err (spark text)) = err (source_error text)
  spark_errors_as_source_errors (err e) = err e
  spark_errors_as_source_errors (ok a) = ok a

  -- Only an outage is translated; any other Spark error is raised as it is.
  unfoldable pub storage_outages_as_unavailable : {A : Type 0} → Result A → Result A
  storage_outages_as_unavailable (err (spark text)) =
      if is_transient_storage_error text
      then err (
          processing source_unavailable ("The source file could not be reached: " ++ describe text))
      else err (spark text)
  storage_outages_as_unavailable (err e) = err e
  storage_outages_as_unavailable (ok a) = ok a
