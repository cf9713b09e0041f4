-- ===== src/Jobs/Worker/Runs.antt =====
-- A whole run of the task is a sequence of the lifecycle's statements.
use rhombus_ai.Base.{
  ℕ, ◌≡◌, ◌≢◌, refl, String, Bool, true, false, Option, none, some, arith, Bool-cases, inl, inr,
  str_eq, eq_iff, ltb, ◌&&◌,
}
use rhombus_ai.Failure.{
  Failure, job_cancelled, soft_time_limit, domain, processing, llm, spark, unexpected,
  domain_code-ne, processing_code-ne, llm_code-ne, Result, ok, err,
}
use rhombus_ai.Failure.Exec.{Exec, lift, ◌>>=◌}
use rhombus_ai.Progress.Arithmetic.{IsLawful}
use rhombus_ai.Processing.Pipeline.{RunStats, run_transform}
use rhombus_ai.Jobs.Model.{Job, TransformType, regex_replace, normalize_format, mask_pii}
use rhombus_ai.Jobs.Table.{Table}
use rhombus_ai.Jobs.Lifecycle.{Steps, next, pattern_saved, spec_saved, started, gave_up, finished}
use rhombus_ai.Jobs.Worker.Externals.{Externals, World, GeneratedSpec, statement, enter}
use rhombus_ai.Jobs.Worker.Task.{
  resolve_pattern, generate_spec, normalization_spec, pii_spec, builder_for, run_spark, resolve_for,
  run_body, record_failure, handle_transient, handle_by_type, handle_unless_asked, handle_failure,
  conclude, attempt, run_started, run_job,
}
use rhombus_ai.Jobs.Worker.Safety.{
  OthersStep, IsFrom, Keeps, Keeps-pure, Keeps-lift, Keeps-translated, Keeps-bind, Keeps-write,
  Keeps-enter, Keeps-during, Keeps-raise_if_cancel_requested, Steps-trans, keeps_rules,
}

module _ (E : Externals) (rely : OthersStep E) (L : IsLawful E.floats) (t : Table) where
  Keeps-run_transform :
      (id : ℕ) (read : Exec World E.Frame) (build : E.Frame → Exec World E.Frame)
      (store : E.Frame → Exec World (Unit {0})) (stats : Exec World RunStats)
      → Keeps t read
      → ((df : E.Frame) → Keeps t (build df))
      → ((df : E.Frame) → Keeps t (store df))
      → Keeps t stats
      → Keeps t (run_transform E.describe_error (enter E id) read build store stats)
  unfolding run_transform
  Keeps-run_transform id read build store stats kr kb kw ks =
      Keeps-bind _ _ (Keeps-enter E rely L id _) λ _.
        Keeps-bind _ _ (Keeps-translated _ _ kr) λ source.
          Keeps-bind _ _ (Keeps-translated _ _ (kb source)) λ transformed.
            Keeps-bind _ _ (Keeps-enter E rely L id _) λ _.
              Keeps-bind _ _ (Keeps-translated _ _ (kw transformed))
                λ _. Keeps-bind _ _ (Keeps-enter E rely L id _) λ _. ks

  module _ (job : Job) where
    Keeps-resolve_pattern : Keeps t (resolve_pattern E job)
    unfolding resolve_pattern
    Keeps-resolve_pattern =
        search (keeps_rules, Keeps-enter E rely L, Keeps-write E rely L, pattern_saved) depth 12

    Keeps-generate_spec :
        {Spec : Type 0} (df : E.Frame) (generate : E.Samples → Result (GeneratedSpec Spec))
        → Keeps t (generate_spec E job df generate)
    unfolding generate_spec
    Keeps-generate_spec df generate =
        search
          (
            keeps_rules,
            Keeps-enter E rely L,
            Keeps-write E rely L,
            Keeps-during E rely L,
            Keeps-raise_if_cancel_requested E rely L,
            spec_saved,
          )
          depth 16

    abbrev KeepsBuilder : Result (E.Frame → Exec World E.Frame) → Type 0
    KeepsBuilder (err e) = Unit
    KeepsBuilder (ok build) = (df : E.Frame) → Keeps t (build df)

    Keeps-normalization_spec :
        (df : E.Frame) (saved : Option String) → Keeps t (normalization_spec E job df saved)
    unfolding normalization_spec
    Keeps-normalization_spec df (some suggestion) = Keeps-lift _
    Keeps-normalization_spec df none = Keeps-generate_spec df _

    Keeps-pii_spec : (df : E.Frame) (saved : Option String) → Keeps t (pii_spec E job df saved)
    unfolding pii_spec
    Keeps-pii_spec df (some suggestion) = Keeps-lift _
    Keeps-pii_spec df none = Keeps-generate_spec df _

    builder_for-KeepsBuilder :
        (type : TransformType) (pattern : Option String)
        → KeepsBuilder (builder_for E job type pattern)
    unfolding builder_for
    builder_for-KeepsBuilder regex_replace none = tt
    builder_for-KeepsBuilder regex_replace (some pattern) = λ df. Keeps-lift _
    builder_for-KeepsBuilder normalize_format pattern =
        λ df. Keeps-bind _ _ (Keeps-normalization_spec df _) (λ spec. Keeps-lift _)
    builder_for-KeepsBuilder mask_pii pattern =
        λ df. Keeps-bind _ _ (Keeps-pii_spec df _) (λ spec. Keeps-lift _)

    -- The rest of the block may use that the builder was found.
    Keeps-with_builder :
        {B : Type 0} (r : Result (E.Frame → Exec World E.Frame))
        (f : (E.Frame → Exec World E.Frame) → Exec World B)
        → KeepsBuilder r
        → ((build : E.Frame → Exec World E.Frame)
            → ((df : E.Frame) → Keeps t (build df))
            → Keeps t (f build))
        → Keeps t (lift r >>= f)
    unfolding ◌>>=◌
    Keeps-with_builder (ok build) f k kf = record { at = λ w h. (kf build k).at w h }
    Keeps-with_builder (err e) f k kf = record { at = λ w h. h }

    Keeps-run_spark :
        (pattern : Option String) (output_path : String)
        → Keeps t (run_spark E job pattern output_path)
    unfolding run_spark
    Keeps-run_spark pattern output_path = Keeps-bind _ _ (Keeps-lift _) λ connection.
        Keeps-bind _ _ (Keeps-lift _) λ _.
          Keeps-with_builder _ _ (builder_for-KeepsBuilder _ pattern) λ build kb.
            Keeps-run_transform job.id _ build _ _ (Keeps-during E rely L job.id _ _) kb
              (λ df. Keeps-during E rely L job.id _ _) (Keeps-during E rely L job.id _ _)

    Keeps-resolve_for : (type : TransformType) → Keeps t (resolve_for E job type)
    unfolding resolve_for
    Keeps-resolve_for regex_replace = Keeps-bind _ _ Keeps-resolve_pattern (λ pattern. Keeps-pure _)
    Keeps-resolve_for _ = Keeps-pure none

    pub Keeps-run_body :
        (job_id : ℕ) (output_path : String) → Keeps t (run_body E job job_id output_path)
    unfolding run_body
    Keeps-run_body job_id output_path =
        Keeps-bind _ _ (Keeps-raise_if_cancel_requested E rely L job_id) λ _.
          Keeps-bind _ _ (Keeps-resolve_for _) λ pattern.
            Keeps-bind _ _ (Keeps-raise_if_cancel_requested E rely L job_id)
              λ _. Keeps-run_spark pattern output_path

  module _ (job_id retries : ℕ) where
    pub record_failure-IsFrom :
        (code message : String) (w : World)
        → code ≢ ""
        → IsFrom t w
        → IsFrom t (record_failure E job_id retries code message w).1
    unfolding record_failure statement
    record_failure-IsFrom code message w real h = record {
      steps =
          next (Steps-trans h.steps (rely w.turn w.table)) (gave_up _ job_id code message _ real);
      below = h.below;
    }

    handle_transient-IsFrom :
        (retryable : Bool) (code message : String) (w : World)
        → code ≢ ""
        → IsFrom t w
        → IsFrom t (handle_transient E job_id retries retryable code message w).1
    unfolding handle_transient
    handle_transient-IsFrom retryable code message w real h =
        elim (Bool-cases (retryable && ltb retries 3)) [
          | inl again ↦ rw again h
          | inr last ↦ rw last (record_failure-IsFrom code message w real h)
        ]

    blank : (s : String) → str_eq s "" ≡ false → s ≢ ""
    blank s h p = cc ((eq_iff s "").1 p, h)

    pub handle_by_type-IsFrom :
        (e : Failure) (w : World) → IsFrom t w → IsFrom t (handle_by_type E job_id retries e w).1
    unfolding handle_by_type
    handle_by_type-IsFrom job_cancelled w h = record_failure-IsFrom _ _ w (blank _ refl) h
    handle_by_type-IsFrom soft_time_limit w h =
        record_failure-IsFrom _ _ _ (blank _ refl) (record { steps = h.steps; below = h.below })
    handle_by_type-IsFrom (domain kind message) w h =
        record_failure-IsFrom _ message w (domain_code-ne kind) h
    handle_by_type-IsFrom (processing kind message) w h =
        handle_transient-IsFrom _ _ message w (processing_code-ne kind) h
    handle_by_type-IsFrom (llm kind message) w h =
        handle_transient-IsFrom _ _ message w (llm_code-ne kind) h
    handle_by_type-IsFrom (spark text) w h = record_failure-IsFrom _ _ w (blank _ refl) h
    handle_by_type-IsFrom unexpected w h = record_failure-IsFrom _ _ w (blank _ refl) h

    handle_unless_asked-IsFrom :
        (asked : Bool) (e : Failure) (w : World)
        → IsFrom t w
        → IsFrom t (handle_unless_asked E job_id retries asked e w).1
    unfolding handle_unless_asked
    handle_unless_asked-IsFrom true e w h = record_failure-IsFrom _ _ w (blank _ refl) h
    handle_unless_asked-IsFrom false e w h = handle_by_type-IsFrom e w h

    handle_failure-IsFrom :
        (e : Failure) (w : World) → IsFrom t w → IsFrom t (handle_failure E job_id retries e w).1
    unfolding handle_failure
    handle_failure-IsFrom job_cancelled w h = handle_by_type-IsFrom job_cancelled w h
    handle_failure-IsFrom e w h =
        handle_unless_asked-IsFrom _ e _
          (record { steps = Steps-trans h.steps (rely w.turn w.table); below = h.below })

    conclude-IsFrom :
        (path : String) (r : Result RunStats) (w : World)
        → IsFrom t w
        → IsFrom t (conclude E job_id retries path r w).1
    unfolding conclude statement
    conclude-IsFrom path (err e) w h = handle_failure-IsFrom e w h
    conclude-IsFrom path (ok stats) w h = record {
      steps = next (Steps-trans h.steps (rely w.turn w.table)) (finished _ job_id path _ _ _);
      below = h.below;
    }

    attempt-IsFrom :
        (o : Option Job) (w : World) → IsFrom t w → IsFrom t (attempt E job_id retries o w).1
    unfolding attempt
    attempt-IsFrom none w h = h
    attempt-IsFrom (some job) w h =
        conclude-IsFrom _ _ _ ((Keeps-run_body job job_id (E.result_path_for job.id)).at w h)

    run_started-Steps :
        (begun : Bool) (w : World)
        → Steps t w.table
        → Steps t (run_started E job_id retries begun w).1.table
    unfolding run_started
    run_started-Steps false w h = h
    run_started-Steps true w h =
        (attempt-IsFrom _ _
          (record { steps = Steps-trans h (rely w.turn w.table); below = omega arith })).steps

module _ (E : Externals) (rely : OthersStep E) (L : IsLawful E.floats) (job_id retries : ℕ) where
  -- A run of the task, on any failure of any external call and with any statements of other
  -- processes in between, changes the table only by statements of the lifecycle.
  pub run_job-Steps : (w : World) → Steps w.table (run_job E job_id retries w).1.table
  unfolding run_job
  run_job-Steps w =
      run_started-Steps E rely L w.table job_id retries _ _
        (next (rely w.turn w.table) (started _ job_id (E.now w.turn)))
