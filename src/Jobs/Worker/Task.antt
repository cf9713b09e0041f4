-- ===== src/Jobs/Worker/Task.antt =====
-- `run_job` of backend/apps/jobs/tasks.py and what it calls, `builder_for` and `_generate_spec` of
-- backend/apps/jobs/transform_builders.py.
use Prim.Native.Nat.{◌^◌}
use rhombus_ai.Base.{
  ℕ, suc, ◌+◌, ◌*◌, String, Bool, true, false, not, ◌&&◌, Option, none, some, ltb, str_eq,
  if◌then◌else◌,
}
use rhombus_ai.Failure.{
  Failure, job_cancelled, soft_time_limit, domain, processing, llm, spark, unexpected, domain_code,
  processing_code, processing_retryable, llm_code, llm_retryable, invalid_pattern, Result, ok, err,
}
use rhombus_ai.Failure.Exec.{Exec, pure, raise, lift, ◌>>=◌, ◌>>◌}
use rhombus_ai.Progress.{new_tracker, generating_regex, generating_spec}
use rhombus_ai.Processing.Pipeline.{RunStats, run_transform}
use rhombus_ai.Jobs.Model.{
  Job, TransformType, regex_replace, normalize_format, mask_pii, cancelled_error_code,
  cancelled_message,
}
use rhombus_ai.Jobs.Table.{is_cancel_requested}
use rhombus_ai.Jobs.Statements.{start_run, finish_run, fail, save_pattern, save_spec}
use rhombus_ai.Jobs.Worker.Externals.{
  Externals, World, GeneratedSpec, reading, building, writing, counting, statement, write, enter,
  during, raise_if_cancel_requested,
}

abbrev pub max_transient_retries : ℕ
max_transient_retries = 3

-- In milliseconds, with the jitter that was drawn.
unfoldable pub retry_delay : ℕ → ℕ → ℕ
retry_delay retries_so_far jitter = 15 * 2 ^ retries_so_far * 1000 + jitter

-- How a run ends: `skipped` where the job could not be started, `missing` where its row is gone,
-- `completed` after the last statement of a success, `recorded` with the code of a failure, or
-- `retrying` with the countdown to the retry that was scheduled.
pub data Outcome : Type 0 where
  skipped missing completed : Outcome
  recorded : String → Outcome
  retrying : ℕ → Outcome

module _ (E : Externals) where
  module _ (job : Job) where
    unfoldable pub resolve_pattern : Exec World String
    resolve_pattern =
        if not (str_eq job.pattern "")
        then lift (E.validate_pattern job.pattern)
        else if str_eq job.nl_prompt ""
        then raise (processing invalid_pattern "The job has neither a pattern nor a description.")
        else do
          enter E job.id generating_regex
          generated ← lift (E.generate_pattern job.nl_prompt)
          write E (λ now t.
              save_pattern job.id generated.pattern generated.explanation generated.cached t)
          pure generated.pattern

    unfoldable pub generate_spec :
        {Spec : Type 0} → E.Frame → (E.Samples → Result (GeneratedSpec Spec)) → Exec World Spec
    generate_spec df generate = do
      samples ← during E job.id building (E.sample_column_values df job.target_columns)
      raise_if_cancel_requested E job.id
      enter E job.id generating_spec
      generated ← lift (generate samples)
      write E
          (λ now t. save_spec job.id generated.suggestion generated.explanation generated.cached t)
      raise_if_cancel_requested E job.id
      pure generated.spec

    unfoldable pub normalization_spec : E.Frame → Option String → Exec World E.NormalizationSpec
    normalization_spec df (some suggestion) = lift (E.normalization_spec_from_suggestion suggestion)
    normalization_spec df none = generate_spec df (E.generate_normalization job.nl_prompt)

    unfoldable pub pii_spec : E.Frame → Option String → Exec World E.PiiSpec
    pii_spec df (some suggestion) = lift (E.pii_spec_from_suggestion suggestion job.target_columns)
    pii_spec df none = generate_spec df E.classify_pii

    -- A find-and-replace job without its pattern is a `ValueError` before any stage begins.
    unfoldable pub builder_for :
        TransformType → Option String → Result (E.Frame → Exec World E.Frame)
    builder_for regex_replace none = err unexpected
    builder_for regex_replace (some pattern) =
        ok (λ df. lift (E.regex_replace df job.target_columns pattern job.replacement_value))
    builder_for normalize_format pattern = ok (λ df. do
      spec ← normalization_spec df job.transform_spec
      lift (E.normalize_format df job.target_columns spec))
    builder_for mask_pii pattern =
        ok (λ df. do spec ← pii_spec df job.transform_spec; lift (E.mask_pii df spec))

    unfoldable pub run_spark : Option String → String → Exec World RunStats
    run_spark pattern output_path = do
      connection ← lift (E.load_connection job.connection_id)
      lift (E.start_spark connection)
      build ← lift (builder_for job.transform_type pattern)
      run_transform E.describe_error (enter E job.id)
          (during E job.id reading (E.read_source connection job.source_key job.file_type)) build
          (λ df. during E job.id writing (E.write_parquet df output_path))
          (during E job.id counting (E.collect_stats output_path))

    -- Only find and replace resolves a pattern before any data is read.
    unfoldable pub resolve_for : TransformType → Exec World (Option String)
    resolve_for regex_replace = do pattern ← resolve_pattern; pure (some pattern)
    resolve_for _ = pure none

    -- The `try` block of `run_job`.
    unfoldable pub run_body : ℕ → String → Exec World RunStats
    run_body job_id output_path = do
      raise_if_cancel_requested E job_id
      pattern ← resolve_for job.transform_type
      raise_if_cancel_requested E job_id
      run_spark pattern output_path

  module _ (job_id retries : ℕ) where
    unfoldable pub record_failure : String → String → World → Outcome × World
    record_failure code message w =
        let (_, w') = statement E (λ now t. fail job_id code message now t) w in (recorded code, w')

    -- A `ProcessingError` or `LLMError`.
    unfoldable pub handle_transient : Bool → String → String → World → Outcome × World
    unfolding record_failure
    handle_transient retryable code message w =
        if retryable && ltb retries max_transient_retries
        then (retrying (retry_delay retries E.jitter), w)
        else record_failure code message w

    unfoldable pub handle_by_type : Failure → World → Outcome × World
    unfolding record_failure handle_transient
    handle_by_type job_cancelled w = record_failure cancelled_error_code cancelled_message w
    handle_by_type soft_time_limit w =
        record_failure "TIMEOUT" "The job exceeded its time limit."
          (record w { spark_cancels = suc w.spark_cancels })
    handle_by_type (domain kind message) w = record_failure (domain_code kind) message w
    handle_by_type (processing kind message) w =
        handle_transient (processing_retryable kind) (processing_code kind) message w
    handle_by_type (llm kind message) w =
        handle_transient (llm_retryable kind) (llm_code kind) message w
    handle_by_type (spark text) w =
        record_failure "INTERNAL_ERROR" "An unexpected error occurred while processing the job." w
    handle_by_type unexpected w =
        record_failure "INTERNAL_ERROR" "An unexpected error occurred while processing the job." w

    unfoldable pub handle_unless_asked : Bool → Failure → World → Outcome × World
    unfolding handle_by_type record_failure
    handle_unless_asked true e w = record_failure cancelled_error_code cancelled_message w
    handle_unless_asked false e w = handle_by_type e w

    -- `isinstance(exc, JobCancelled) or is_cancel_requested(job_id)`: the first alone asks nothing.
    unfoldable pub handle_failure : Failure → World → Outcome × World
    unfolding handle_unless_asked handle_by_type is_cancel_requested
    handle_failure job_cancelled w = handle_by_type job_cancelled w
    handle_failure e w =
        let t = E.others w.turn w.table in
        handle_unless_asked (is_cancel_requested job_id t) e
          (record w { table = t; turn = suc w.turn })

    -- `else:` of the `try` statement
    unfoldable pub conclude : String → Result RunStats → World → Outcome × World
    unfolding handle_failure
    conclude output_path (err e) w = handle_failure e w
    conclude output_path (ok stats) w =
        let (_, w') =
          statement E
            (λ now t. finish_run job_id output_path stats.row_count stats.matched_count now t) w in
        (completed, w')

    unfoldable pub attempt : Option Job → World → Outcome × World
    attempt none w = (missing, w)
    attempt (some job) w =
        let output_path = E.result_path_for job.id in
        let (result, w') = run_body job job_id output_path w in conclude output_path result w'

    -- The row is read, and a new tracker made, once the job is RUNNING.
    unfoldable pub run_started : Bool → World → Outcome × World
    unfolding attempt
    run_started false w = (skipped, w)
    run_started true w =
        let w' : World = record w {
          table = E.others w.turn w.table;
          tracker = new_tracker E.second;
          turn = suc w.turn;
        } in
        attempt (w'.table job_id) w'

    unfoldable pub run_job : World → Outcome × World
    unfolding run_started start_run
    run_job w =
        let (t, begun) = start_run job_id (E.now w.turn) (E.others w.turn w.table) in
        run_started begun (record w { table = t; turn = suc w.turn })
