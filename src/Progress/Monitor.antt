-- ===== src/Progress/Monitor.antt =====
-- `SparkJobMonitor` of backend/processing/progress.py: one call of `_tick` for each turn of the
-- thread's loop. What Spark and the callbacks answer in a tick, or that they raise, is its input.
use rhombus_ai.Base.{
  ℕ, suc, ◌+◌, ◌≡◌, refl, Bool, true, false, Option, none, some, List, [], ◌∷◌, ◌++◌, arith, any,
  if◌then◌else◌, Bool-cases, inl, inr,
}
use rhombus_ai.Progress.{task_fraction}
use rhombus_ai.Progress.Arithmetic.{Floats}

-- `statusTracker()`: the job ids of the group, a job's stage ids, and a stage's
-- `(numTasks, numCompletedTasks)`.
pub record StatusTracker : Type 0 where
  pub job_ids : List ℕ
  pub job_info : ℕ → Option (List ℕ)
  pub stage_info : ℕ → Option (ℕ × ℕ)

stages_of_job : StatusTracker → List ℕ → List (ℕ × ℕ)
stages_of_job t [] = []
stages_of_job t (i ∷ ids) =
    let rest = stages_of_job t ids in elim (t.stage_info i) [ none ↦ rest | some s ↦ s ∷ rest ]

stages_of_group : StatusTracker → List ℕ → List (ℕ × ℕ)
stages_of_group t [] = []
stages_of_group t (i ∷ ids) =
    let rest = stages_of_group t ids in
    elim (t.job_info i) [ none ↦ rest | some stage_ids ↦ stages_of_job t stage_ids ++ rest ]

-- What `_tick` meets: `none` where the call raises.
pub record Tick : Type 0 where
  pub should_cancel : Option Bool
  pub cancel_raises : Bool
  pub status : Option StatusTracker

module _ (F : Floats) where
  pub data Call : Type 0 where
    cancel_job_group : Call
    on_fraction : F.Float → Call

  fraction_of : List (ℕ × ℕ) → Option F.Float
  fraction_of [] = none
  fraction_of (s ∷ stages) = some (task_fraction F (s ∷ stages))

  unfoldable pub group_fraction : StatusTracker → Option F.Float
  unfolding stages_of_group stages_of_job fraction_of
  group_fraction t = fraction_of (stages_of_group t t.job_ids)

  unfoldable pub report_fraction : Option F.Float → List Call
  report_fraction none = []
  report_fraction (some x) = on_fraction x ∷ []

  unfoldable pub report : Option StatusTracker → List Call
  report none = []
  report (some t) = report_fraction (group_fraction t)

  -- The state is `self._cancelled`, set before the call that cancels.
  unfoldable pub tick : Tick → Bool → Bool × List Call
  tick t true = (true, report t.status)
  tick t false = elim t.should_cancel [
    | none ↦ (false, [])
    | some true ↦ (true, cancel_job_group ∷ (if t.cancel_raises then [] else report t.status))
    | some false ↦ (false, report t.status)
  ]

  -- `_run`, with the ticks that it makes before it is stopped.
  unfoldable pub run : List Tick → Bool → List Call
  run [] cancelled = []
  run (t ∷ ticks) cancelled =
      let (cancelled', calls) = tick t cancelled in calls ++ run ticks cancelled'

  unfoldable pub cancellations : List Call → ℕ
  cancellations [] = 0
  cancellations (cancel_job_group ∷ calls) = suc (cancellations calls)
  cancellations (on_fraction x ∷ calls) = cancellations calls

abbrev asked : Option Bool → Bool
asked none = false
asked (some b) = b

-- Some tick of the run saw the request.
abbrev pub requested : List Tick → Bool
requested = any (λ t. asked t.should_cancel)

module _ (F : Floats) where
  report-cancellations :
      (s : Option StatusTracker) (rest : List (Call F))
      → cancellations F (report F s ++ rest) ≡ cancellations F rest
  unfolding report report_fraction cancellations
  report-cancellations none rest = refl
  report-cancellations (some t) rest = ground arith

  run_cancelled : (ticks : List Tick) → cancellations F (run F ticks true) ≡ 0
  unfolding run tick cancellations
  run_cancelled [] = refl
  run_cancelled (t ∷ ticks) = rw (report-cancellations t.status) (run_cancelled ticks)

  tick-cancellations :
      (t : Tick) (rest : List (Call F))
      → cancellations F ((tick F t false).1 ++ rest)
        ≡ (if asked t.should_cancel then 1 else 0) + cancellations F rest
  unfolding tick cancellations
  tick-cancellations t rest = ground (arith, report-cancellations t.status rest)

  tick-asked : (t : Tick) → (tick F t false).0 ≡ asked t.should_cancel
  unfolding tick
  tick-asked t = ground arith

  -- The thread asks Spark to cancel the group exactly once if some tick saw the request, and never
  -- otherwise, whichever calls raise.
  pub cancellations-run :
      (ticks : List Tick) → cancellations F (run F ticks false) ≡ (if requested ticks then 1 else 0)
  unfolding run
  cancellations-run [] = unfold cancellations in refl
  cancellations-run (t ∷ ticks) = elim (Bool-cases (asked t.should_cancel)) [
    | inl yes_ ↦
        rw (tick-cancellations t (run F ticks (tick F t false).0), tick-asked t, yes_)
          (omega (arith, run_cancelled ticks))
    | inr no_ ↦
        rw (tick-cancellations t (run F ticks (tick F t false).0), tick-asked t, no_)
          (omega (arith, cancellations-run ticks))
  ]
