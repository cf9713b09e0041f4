-- ===== src/Progress.antt =====
-- backend/processing/progress.py: stage-weighted percentages that only grow.
pub mod Arithmetic
pub mod Laws
pub mod Monitor
mod Examples
use rhombus_ai.Base.{
  ℕ, ◌+◌, ◌-◌, min, max, String, Bool, true, false, ◌||◌, Option, none, some, List, [], ◌∷◌, leb,
  ltb, ◌==◌, if◌then◌else◌,
}
use rhombus_ai.Progress.Arithmetic.{Floats}

-- The keys of `STAGE_RANGES`. The tracker's initial stage "" is `none` below.
pub data Stage : Type 0 where
  generating_regex loading generating_spec transforming finalizing : Stage

unfoldable pub stage_name : Stage → String
stage_name generating_regex = "GENERATING_REGEX"
stage_name loading = "LOADING"
stage_name generating_spec = "GENERATING_SPEC"
stage_name transforming = "TRANSFORMING"
stage_name finalizing = "FINALIZING"

unfoldable pub stage_ranges : Stage → ℕ × ℕ
stage_ranges generating_regex = (0, 5)
stage_ranges loading = (5, 8)
stage_ranges generating_spec = (8, 10)
stage_ranges transforming = (10, 90)
stage_ranges finalizing = (90, 99)

-- `last_emit` is `none` for minus infinity. The callback and the clock are arguments of the
-- methods: a method returns what it emits, and takes the time that `self._clock()` reads.
pub record ProgressTracker : Type 0 where
  pub min_interval : ℕ
  pub stage : Option Stage
  pub percent : ℕ
  pub last_emit : Option ℕ

abbrev pub new_tracker : ℕ → ProgressTracker
new_tracker min_interval = record {
  min_interval = min_interval;
  stage = none;
  percent = 0;
  last_emit = none;
}

abbrev pub Emitted : Type 0
Emitted = Option (Stage × ℕ)

unfoldable pub enter_stage : Stage → ℕ → ProgressTracker → ProgressTracker × (Stage × ℕ)
unfolding stage_ranges
enter_stage stage now p =
    let percent = max p.percent (stage_ranges stage).0 in
    (record p { stage = some stage; percent = percent; last_emit = some now }, (stage, percent))

-- `now - self._last_emit < self._min_interval`
abbrev pub too_soon : ℕ → Option ℕ → ℕ → Bool
too_soon now none min_interval = false
too_soon now (some last) min_interval = ltb now (last + min_interval)

module _ (F : Floats) where
  -- `int((end - start) * min(max(fraction, 0.0), 1.0))`
  unfoldable pub within_stage : Stage → F.Float → ℕ
  unfolding stage_ranges
  within_stage stage fraction =
      let (start, end) = stage_ranges stage in
      start + F.to_int (F.times (end - start) (F.fmin (F.fmax fraction F.zero) F.one))

  unfoldable pub update_fraction : F.Float → ℕ → ProgressTracker → ProgressTracker × Emitted
  update_fraction fraction now p = elim p.stage [
    | none ↦ (p, none)
    | some stage ↦
        let percent = within_stage stage fraction in
        if leb percent p.percent || too_soon now p.last_emit p.min_interval
        then (p, none)
        else (record p { percent = percent; last_emit = some now }, some (stage, percent))
  ]

  -- The loop over `(num_tasks, num_completed)`, with `total` and `completed`.
  unfoldable pub sum_tasks : List (ℕ × ℕ) → ℕ → ℕ → ℕ × ℕ
  sum_tasks [] total completed = (total, completed)
  sum_tasks ((num_tasks, num_completed) ∷ stages) total completed =
      sum_tasks stages (total + num_tasks) (completed + min num_completed num_tasks)

  unfoldable pub task_fraction : List (ℕ × ℕ) → F.Float
  unfolding sum_tasks
  task_fraction stages =
      let (total, completed) = sum_tasks stages 0 0 in
      if total == 0 then F.zero else F.divide completed total

-- What the task thread and the monitor thread do to one tracker, under its lock.
pub data Event (F : Floats) : Type 0 where
  enter : Stage → ℕ → Event F
  fraction : F.Float → ℕ → Event F

module _ (F : Floats) where
  unfoldable pub handle : Event F → ProgressTracker → ProgressTracker × Emitted
  unfolding enter_stage update_fraction
  handle (enter stage now) p = let (p', e) = enter_stage stage now p in (p', some e)
  handle (fraction x now) p = update_fraction F x now p

  abbrev pub emit : Emitted → List (Stage × ℕ) → List (Stage × ℕ)
  emit none rest = rest
  emit (some e) rest = e ∷ rest

  -- Everything that the callback receives, in order.
  unfoldable pub emissions : List (Event F) → ProgressTracker → List (Stage × ℕ)
  unfolding handle
  emissions [] p = []
  emissions (e ∷ es) p = let (p', out) = handle e p in emit out (emissions es p')
