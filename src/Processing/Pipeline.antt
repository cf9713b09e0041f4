-- ===== src/Processing/Pipeline.antt =====
-- backend/processing/pipeline.py: `run_transform`, over the calls that it makes of Spark.
use rhombus_ai.Base.{ℕ, String, List}
use rhombus_ai.Failure.{Result}
use rhombus_ai.Failure.Exec.{Exec, ◌>>=◌, ◌>>◌}
use rhombus_ai.Processing.Errors.{spark_errors_as_source_errors, storage_outages_as_unavailable}
use rhombus_ai.Jobs.Model.{FileType}
use rhombus_ai.Progress.{Stage, loading, transforming, finalizing}

-- backend/processing/pipeline_stats.py
pub record RunStats : Type 0 where
  pub row_count : ℕ
  pub matched_count : ℕ

pub record RegexReplaceSpec : Type 0 where
  pub source_uri : String
  pub file_type : FileType
  pub columns : List String
  pub pattern : String
  pub replacement : String
  pub output_path : String

-- Apply a context manager that translates exceptions to an action.
unfoldable pub translated : {W A : Type 0} → (Result A → Result A) → Exec W A → Exec W A
translated f m w = let (r, w') = m w in (f r, w')

module _ {W Frame : Type 0} (describe : String → String) where
  abbrev pub load_source : Exec W Frame → Exec W Frame
  load_source read = translated (spark_errors_as_source_errors describe) read

  -- The arguments are the stage callback, `with_row_id(read_source(…))`, the builder, the write of
  -- the Parquet output and `collect_stats`; each may raise.
  unfoldable pub run_transform :
      (Stage → Exec W (Unit {0}))
      → Exec W Frame
      → (Frame → Exec W Frame)
      → (Frame → Exec W (Unit {0}))
      → Exec W RunStats
      → Exec W RunStats
  run_transform notify read build write collect_stats = do
    notify loading
    source ← load_source read
    transformed ← translated (spark_errors_as_source_errors describe) (build source)
    notify transforming
    translated (storage_outages_as_unavailable describe) (write transformed)
    notify finalizing
    collect_stats

  -- `run_regex_replace`, with the readers and writers at the specification's paths.
  unfoldable pub run_regex_replace :
      (Stage → Exec W (Unit {0}))
      → (String → FileType → Exec W Frame)
      → (Frame → List String → String → String → Exec W Frame)
      → (Frame → String → Exec W (Unit {0}))
      → (String → Exec W RunStats)
      → RegexReplaceSpec
      → Exec W RunStats
  unfolding run_transform
  run_regex_replace notify read regex_replace write collect_stats spec =
      run_transform notify (read spec.source_uri spec.file_type)
        (λ df. regex_replace df spec.columns spec.pattern spec.replacement)
        (λ df. write df spec.output_path) (collect_stats spec.output_path)
