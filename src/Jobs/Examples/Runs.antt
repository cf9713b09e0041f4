-- ===== src/Jobs/Examples/Runs.antt =====
-- Runs of the task on one job, with a language model that is down.
use rhombus_ai.Base.{◌+◌, ◌*◌, ◌<◌, ◌≡◌, ◌≢◌, refl, false, [], ◌∷◌, arith}
use Prim.Native.Nat.{◌^◌}
use rhombus_ai.Failure.{llm, llm_unavailable, llm_retryable, ok, err}
use rhombus_ai.Progress.{new_tracker}
use rhombus_ai.Progress.Arithmetic.{hundredths, hundredths-IsLawful}
use rhombus_ai.Jobs.Model.{Job}
use rhombus_ai.Jobs.Table.{is_cancel_requested}
use rhombus_ai.Jobs.Lifecycle.{Steps, here}
use rhombus_ai.Jobs.Worker.Externals.{Externals, World}
use rhombus_ai.Jobs.Worker.Task.{
  run_job, handle_failure, handle_unless_asked, handle_by_type, handle_transient, retry_delay,
  retrying,
}
use rhombus_ai.Jobs.Worker.Safety.{OthersStep}
use rhombus_ai.Jobs.Worker.Runs.{run_job-Steps}
use rhombus_ai.Jobs.Worker.Retries.{IsTransient, handle_failure-retrying, run_job-ne-retrying}
use rhombus_ai.Jobs.Examples.{queued_job, running_job, only}

-- Every external call answers, except that the language model is down.
abbrev model_down : Externals
model_down = record {
  floats = hundredths;
  Connection = Unit;
  Frame = Unit;
  Samples = Unit;
  NormalizationSpec = Unit;
  PiiSpec = Unit;
  others = λ n t. t;
  now = λ n. n;
  monotonic = λ n. n;
  second = 1;
  reports = λ a. 10 ∷ [];
  validate_pattern = λ p. ok p;
  generate_pattern = λ p. err (llm llm_unavailable "");
  load_connection = λ c. ok tt;
  start_spark = λ c. ok tt;
  read_source = λ c key type. ok tt;
  sample_column_values = λ f columns. ok tt;
  generate_normalization = λ p s. err (llm llm_unavailable "");
  classify_pii = λ s. err (llm llm_unavailable "");
  normalization_spec_from_suggestion = λ s. ok tt;
  pii_spec_from_suggestion = λ s columns. ok tt;
  regex_replace = λ f columns p r. ok f;
  normalize_format = λ f columns s. ok f;
  mask_pii = λ f s. ok f;
  write_parquet = λ f path. ok tt;
  collect_stats = λ path. ok (record { row_count = 3; matched_count = 1 });
  result_path_for = λ id. "out";
  describe_error = λ text. text;
  message = λ e. "";
  jitter = 5;
}

model_down-OthersStep : OthersStep model_down
model_down-OthersStep n t = here

abbrev world_of : Job → World
world_of j = record { table = only j; tracker = new_tracker 1; turn = 0; spark_cancels = 0 }

run_job-Steps_example :
    Steps (only queued_job) (run_job model_down 7 0 (world_of queued_job)).1.table
run_job-Steps_example =
    run_job-Steps model_down model_down-OthersStep hundredths-IsLawful 7 0 (world_of queued_job)

handle_failure_retries :
    (handle_failure model_down 7 1 (llm llm_unavailable "") (world_of running_job)).0
    ≡ retrying 30005
unfolding handle_failure handle_unless_asked handle_by_type handle_transient llm_retryable
    retry_delay is_cancel_requested
handle_failure_retries = refl

handle_failure-retrying_example :
    (is_cancel_requested 7 (only running_job) ≡ false)
    × IsTransient (llm llm_unavailable "")
    × (1 < 3)
    × (30005 ≡ 15000 * 2 ^ 1 + 5)
handle_failure-retrying_example =
    handle_failure-retrying model_down 7 1 (llm llm_unavailable "") (world_of running_job) 30005
      handle_failure_retries

run_job-ne-retrying_example : (run_job model_down 7 3 (world_of queued_job)).0 ≢ retrying 120005
run_job-ne-retrying_example =
    run_job-ne-retrying model_down 7 3 (world_of queued_job) 120005 (omega arith)
