-- ===== src/Jobs/Worker/Externals.antt =====
-- What the task calls and does not implement, the state of a run, and the actions on it.
use rhombus_ai.Base.{ℕ, suc, String, Bool, none, some, List, [], ◌∷◌, if◌then◌else◌}
use rhombus_ai.Failure.{Failure, job_cancelled, Result, ok}
use rhombus_ai.Failure.Exec.{Exec, pure, raise, ◌>>=◌, ◌>>◌}
use rhombus_ai.Progress.{Stage, stage_name, ProgressTracker, Emitted, Event, handle}
use rhombus_ai.Progress.Arithmetic.{Floats}
use rhombus_ai.Processing.Pipeline.{RunStats}
use rhombus_ai.Jobs.Model.{FileType}
use rhombus_ai.Jobs.Table.{Table, update_progress, is_cancel_requested}

-- `GeneratedPattern` and `GeneratedSpec` of backend/apps/llm/service.py; the suggestion is the JSON
-- text that is saved on the job.
pub record GeneratedPattern : Type 0 where
  pub pattern : String
  pub explanation : String
  pub cached : Bool

pub record GeneratedSpec (Spec : Type 0) : Type 0 where
  pub spec : Spec
  pub suggestion : String
  pub explanation : String
  pub cached : Bool

-- The long calls during which the monitor thread reports fractions.
pub data Activity : Type 0 where
  reading building writing counting : Activity

-- Spark, the LLM layer, the connection store, the clocks and the other processes. A call that may
-- raise answers with a `Result`; a soft time limit may interrupt any of them.
pub record Externals : Type 1 where
  pub floats : Floats
  pub Connection : Type 0
  pub Frame : Type 0
  pub Samples : Type 0
  pub NormalizationSpec : Type 0
  pub PiiSpec : Type 0
  -- what other processes do to the table before the n-th statement, and the two clocks then
  pub others : ℕ → Table → Table
  pub now : ℕ → ℕ
  pub monotonic : ℕ → ℕ
  -- one second of the monotonic clock, the tracker's `min_interval`
  pub second : ℕ
  pub reports : Activity → List floats.Float
  pub validate_pattern : String → Result String
  pub generate_pattern : String → Result GeneratedPattern
  pub load_connection : String → Result Connection
  pub start_spark : Connection → Result (Unit {0})
  pub read_source : Connection → String → FileType → Result Frame
  pub sample_column_values : Frame → List String → Result Samples
  pub generate_normalization : String → Samples → Result (GeneratedSpec NormalizationSpec)
  pub classify_pii : Samples → Result (GeneratedSpec PiiSpec)
  pub normalization_spec_from_suggestion : String → Result NormalizationSpec
  pub pii_spec_from_suggestion : String → List String → Result PiiSpec
  pub regex_replace : Frame → List String → String → String → Result Frame
  pub normalize_format : Frame → List String → NormalizationSpec → Result Frame
  pub mask_pii : Frame → PiiSpec → Result Frame
  pub write_parquet : Frame → String → Result (Unit {0})
  pub collect_stats : String → Result RunStats
  pub result_path_for : ℕ → String
  pub describe_error : String → String
  -- `str(exc)`
  pub message : Failure → String
  -- milliseconds of `random.uniform(0, 5)`
  pub jitter : ℕ

pub record World : Type 0 where
  pub table : Table
  pub tracker : ProgressTracker
  pub turn : ℕ
  -- how often `_cancel_spark_work` was called
  pub spark_cancels : ℕ

module _ (E : Externals) where
  -- One statement: the others act, then it runs at the time of its turn.
  unfoldable pub statement : {A : Type 0} → (ℕ → Table → Table × A) → Exec World A
  statement f w =
      let (t', a) = f (E.now w.turn) (E.others w.turn w.table) in
      (ok a, record w { table = t'; turn = suc w.turn })

  unfoldable pub write : (ℕ → Table → Table) → Exec World (Unit {0})
  unfolding statement
  write f = statement (λ now t. (f now t, tt))

  unfoldable pub query : {A : Type 0} → (Table → A) → Exec World A
  unfolding statement
  query f = statement (λ now t. (t, f t))

  module _ (job_id : ℕ) where
    -- The tracker's callback, for what a method emitted.
    unfoldable pub write_progress : Emitted → Exec World (Unit {0})
    write_progress none = pure tt
    write_progress (some (stage, percent)) =
        write (λ now t. update_progress job_id (stage_name stage) percent now t)

    -- One call of a tracker's method, with the write that its callback makes.
    unfoldable pub track : Event E.floats → Exec World (Unit {0})
    track event w =
        let (tracker, emitted) = handle E.floats event w.tracker in
        write_progress emitted (record w { tracker = tracker })

    unfoldable pub enter : Stage → Exec World (Unit {0})
    enter stage w = track (Event.enter stage (E.monotonic w.turn)) w

    unfoldable pub report : E.floats.Float → Exec World (Unit {0})
    report x w = track (Event.fraction x (E.monotonic w.turn)) w

    -- The monitor thread's reports, one after the other.
    unfoldable pub monitor : List E.floats.Float → Exec World (Unit {0})
    monitor [] = pure tt
    monitor (x ∷ xs) = do report x; monitor xs

    -- A Spark call under the monitor.
    unfoldable pub during : {A : Type 0} → Activity → Result A → Exec World A
    during activity result w = let (_, w') = monitor (E.reports activity) w in (result, w')

    -- cancellation.py
    unfoldable pub raise_if_cancel_requested : Exec World (Unit {0})
    unfolding is_cancel_requested
    raise_if_cancel_requested = do
      asked ← query (λ t. is_cancel_requested job_id t)
      if asked then raise job_cancelled else pure tt
