-- ===== src/Progress/Laws.antt =====
-- The percentage stays in the stage's range, only grows and never reaches 100.
use rhombus_ai.Base.{
  ℕ, ◌+◌, ◌-◌, ◌≤◌, min, ◌≡◌, refl, Option, none, some, List, [], ◌∷◌, arith, ◌==◌, Bool-cases, inl,
  inr, Option-cases, false,
}
use rhombus_ai.Progress.Arithmetic.{Floats, IsLawful}
use rhombus_ai.Progress.{
  Stage, stage_ranges, ProgressTracker, Emitted, Event, enter, fraction, enter_stage, within_stage,
  update_fraction, too_soon, sum_tasks, task_fraction, handle, emit, emissions,
}

-- Stages lie inside 0 to 99.
range_bounds : (s : Stage) → ((stage_ranges s).0 ≤ (stage_ranges s).1) × ((stage_ranges s).1 ≤ 99)
unfolding stage_ranges
range_bounds s = ground arith

module _ (F : Floats) (L : IsLawful F) where
  -- `min(_, 1.0)` keeps a fraction inside its stage.
  pub within_stage_bounds :
      (s : Stage) (x : F.Float)
      → ((stage_ranges s).0 ≤ within_stage F s x) × (within_stage F s x ≤ (stage_ranges s).1)
  unfolding within_stage
  within_stage_bounds s x =
      let (start, end) = stage_ranges s in
      let y = F.fmin (F.fmax x F.zero) F.one in
      let below = L.to_int-times-mono (end - start) y F.one (L.fmin-le-right _ _) in
      let full = L.to_int-times-one (end - start) (omega (arith, range_bounds s)) in
      omega (arith, below, full, range_bounds s)

  handle-percent_le : (e : Event F) (p : ProgressTracker) → p.percent ≤ (handle F e p).0.percent
  unfolding handle
  handle-percent_le e p = ground arith

  -- What the callback receives is the tracker's percentage after the event.
  pub handle-emits :
      (e : Event F) (p : ProgressTracker) (s : Stage) (n : ℕ)
      → (handle F e p).1 ≡ some (s, n)
      → ((handle F e p).0.percent ≡ n)
  unfolding handle
  handle-emits e p s n h = ground arith

  pub handle-percent_bound :
      (e : Event F) (p : ProgressTracker) → p.percent ≤ 99 → (handle F e p).0.percent ≤ 99
  unfolding handle
  handle-percent_bound (enter s now) p h = ground (arith, range_bounds s)
  handle-percent_bound (fraction x now) p h = elim (Option-cases p.stage) [
    | inl idle ↦ rw (idle, handle, update_fraction) h
    | inr (s, at) ↦ ground (arith, at, within_stage_bounds s x, range_bounds s)
  ]

abbrev pub IsAscendingFrom : ℕ → List (Stage × ℕ) → Type 0
IsAscendingFrom low [] = Unit
IsAscendingFrom low ((s, n) ∷ rest) = (low ≤ n) × (n ≤ 99) × IsAscendingFrom n rest

IsAscendingFrom-weaken :
    (a b : ℕ) (out : List (Stage × ℕ)) → a ≤ b → IsAscendingFrom b out → IsAscendingFrom a out
IsAscendingFrom-weaken a b [] h k = tt
IsAscendingFrom-weaken a b ((s, n) ∷ out) h k = (omega arith, k.1, k.2)

module _ (F : Floats) (L : IsLawful F) where
  emit-IsAscendingFrom :
      (e : Event F) (p : ProgressTracker) (rest : List (Stage × ℕ))
      → p.percent ≤ 99
      → IsAscendingFrom (handle F e p).0.percent rest
      → IsAscendingFrom p.percent (emit F (handle F e p).1 rest)
  emit-IsAscendingFrom e p rest h k = elim (Option-cases (handle F e p).1) [
    | inl quiet ↦ rw quiet (
        IsAscendingFrom-weaken p.percent (handle F e p).0.percent rest (handle-percent_le F L e p)
          k)
    | inr ((s, n), out) ↦
        let at : (handle F e p).0.percent ≡ n = handle-emits F L e p s n out in
        rw out (
          omega (arith, at, handle-percent_le F L e p),
          omega (arith, at, handle-percent_bound F L e p h),
          rw at at k,
        )
  ]

  -- Whatever stages are entered and fractions are reported, in any order and at any times, the
  -- percentages that the callback receives never fall, none is above 99, and all are at least
  -- the tracker's percentage at the start.
  pub emissions-IsAscendingFrom :
      (es : List (Event F)) (p : ProgressTracker)
      → p.percent ≤ 99
      → IsAscendingFrom p.percent (emissions F es p)
  unfolding emissions
  emissions-IsAscendingFrom [] p h = tt
  emissions-IsAscendingFrom (e ∷ es) p h =
      emit-IsAscendingFrom e p _ h
        (emissions-IsAscendingFrom es (handle F e p).0 (handle-percent_bound F L e p h))

abbrev pub IsAfter : Option ℕ → ℕ → ℕ → Type 0
IsAfter none interval now = Unit
IsAfter (some last) interval now = last + interval ≤ now

too_soon-IsAfter :
    (last : Option ℕ) (interval now : ℕ)
    → too_soon now last interval ≡ false
    → IsAfter last interval now
too_soon-IsAfter none interval now h = tt
too_soon-IsAfter (some last) interval now h = ground arith

module _ (F : Floats) where
  -- Each event with what it emits, in order.
  pub emission_log : List (Event F) → ProgressTracker → List (Event F × Emitted)
  emission_log [] p = []
  emission_log (e ∷ es) p = let (p', out) = handle F e p in (e, out) ∷ emission_log es p'

  abbrev pub IsThrottled : ℕ → Option ℕ → List (Event F × Emitted) → Type 0
  IsThrottled interval last [] = Unit
  IsThrottled interval last ((enter s now, none) ∷ rest) = ⊥
  IsThrottled interval last ((enter s now, some e) ∷ rest) =
      (e.0 ≡ s) × IsThrottled interval (some now) rest
  IsThrottled interval last ((fraction x now, none) ∷ rest) = IsThrottled interval last rest
  IsThrottled interval last ((fraction x now, some e) ∷ rest) =
      IsAfter last interval now × IsThrottled interval (some now) rest

  quiet_fraction :
      (x : F.Float) (now : ℕ) (p : ProgressTracker)
      → (update_fraction F x now p).1 ≡ none
      → (update_fraction F x now p).0 ≡ p
  unfolding update_fraction
  quiet_fraction x now p h = ground arith

  loud_fraction :
      (x : F.Float) (now : ℕ) (p : ProgressTracker) (e : Stage × ℕ)
      → (update_fraction F x now p).1 ≡ some e
      → ((update_fraction F x now p).0.last_emit ≡ some now)
        × ((update_fraction F x now p).0.min_interval ≡ p.min_interval)
        × (too_soon now p.last_emit p.min_interval ≡ false)
  unfolding update_fraction
  loud_fraction x now p e h = ground arith

  fraction-IsThrottled :
      (x : F.Float) (now : ℕ) (p : ProgressTracker) (rest : List (Event F × Emitted))
      → IsThrottled
          (update_fraction F x now p).0.min_interval
          (update_fraction F x now p).0.last_emit
          rest
      → IsThrottled p.min_interval p.last_emit
          ((fraction x now, (update_fraction F x now p).1) ∷ rest)
  fraction-IsThrottled x now p rest later = elim (Option-cases (update_fraction F x now p).1) [
    | inl quiet ↦ rw quiet (rw (quiet_fraction x now p quiet) at later)
    | inr (e, out) ↦
        let (emitted, interval, spaced) = loud_fraction x now p e out in
        rw out (too_soon-IsAfter p.last_emit _ now spaced, rw (emitted, interval) at later)
  ]

  -- Every stage change is emitted at once, under its own name; a fraction is emitted only when at
  -- least `min_interval` has passed since the last emission of either kind.
  pub emission_log-IsThrottled :
      (es : List (Event F)) (p : ProgressTracker)
      → IsThrottled p.min_interval p.last_emit (emission_log es p)
  unfolding emission_log handle
  emission_log-IsThrottled [] p = tt
  emission_log-IsThrottled (enter s now ∷ es) p =
      (refl, emission_log-IsThrottled es (enter_stage s now p).0)
  emission_log-IsThrottled (fraction x now ∷ es) p =
      fraction-IsThrottled x now p _ (emission_log-IsThrottled es (update_fraction F x now p).0)

  sum_tasks_le :
      (stages : List (ℕ × ℕ)) (total completed : ℕ)
      → completed ≤ total
      → (sum_tasks F stages total completed).1 ≤ (sum_tasks F stages total completed).0
  unfolding sum_tasks
  sum_tasks_le [] total completed h = h
  sum_tasks_le ((n, c) ∷ stages) total completed h =
      sum_tasks_le stages (total + n) (completed + min c n) (omega arith)

  -- The completed share of the tasks is at most one, also where Spark reports more completed
  -- tasks than tasks, and where there are no tasks.
  pub task_fraction-le-one :
      IsLawful F → (stages : List (ℕ × ℕ)) → F.Le (task_fraction F stages) F.one
  unfolding task_fraction
  task_fraction-le-one L stages =
      let (total, completed) = sum_tasks F stages 0 0 in
      elim (Bool-cases (total == 0)) [
        | inl idle ↦ rw idle L.zero-le-one
        | inr busy ↦
            rw busy (
              L.divide-le-one completed total (ground arith)
                (sum_tasks_le stages 0 0 (omega arith)))
      ]
