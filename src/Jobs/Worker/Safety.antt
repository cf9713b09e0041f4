-- ===== src/Jobs/Worker/Safety.antt =====
-- Every action of a run is a sequence of the lifecycle's statements, whatever the external calls
-- answer and whatever other processes do in between.
use rhombus_ai.Base.{
  ℕ, ◌≤◌, Bool, true, false, some, List, [], ◌∷◌, inl, inr, Option-cases, if◌then◌else◌,
}
use rhombus_ai.Failure.{Result, ok, err, Failure}
use rhombus_ai.Failure.Exec.{Exec, pure, raise, lift, resume, ◌>>=◌}
use rhombus_ai.Progress.{Stage, Event, handle}
use rhombus_ai.Progress.Arithmetic.{IsLawful}
use rhombus_ai.Progress.Laws.{handle-percent_bound, handle-emits}
use rhombus_ai.Processing.Pipeline.{translated}
use rhombus_ai.Jobs.Table.{Table}
use rhombus_ai.Jobs.Lifecycle.{Step, Steps, here, next, progressed}
use rhombus_ai.Jobs.Worker.Externals.{
  Externals, World, Activity, query, write, write_progress, track, enter, report, monitor, during,
  raise_if_cancel_requested,
}

pub Steps-trans : {t u v : Table} → Steps t u → Steps u v → Steps t v
Steps-trans r here = r
Steps-trans r (next s st) = next (Steps-trans r s) st

-- The other processes issue the lifecycle's statements too.
abbrev pub OthersStep : Externals → Type 0
OthersStep E = (n : ℕ) (t : Table) → Steps t (E.others n t)

pub record IsFrom (t : Table) (w : World) : Type 0 where
  pub steps : Steps t w.table
  pub below : w.tracker.percent ≤ 99

-- `m` goes on from any world that the statements reach, whether it returns or raises.
pub record Keeps {A : Type 0} (t : Table) (m : Exec World A) : Type 0 where
  pub at : (w : World) → IsFrom t w → IsFrom t (m w).1

module _ {t : Table} {A : Type 0} where
  pub Keeps-pure : (a : A) → Keeps t (pure {W = World} a)
  unfolding pure
  Keeps-pure a = record { at = λ w h. h }

  pub Keeps-raise : (e : Failure) → Keeps t (raise {W = World} {A = A} e)
  unfolding raise
  Keeps-raise e = record { at = λ w h. h }

  pub Keeps-lift : (r : Result A) → Keeps t (lift {W = World} r)
  unfolding lift
  Keeps-lift r = record { at = λ w h. h }

  pub Keeps-if :
      (b : Bool) (m n : Exec World A) → Keeps t m → Keeps t n → Keeps t (if b then m else n)
  Keeps-if true m n km kn = km
  Keeps-if false m n km kn = kn

  pub Keeps-translated :
      (f : Result A → Result A) (m : Exec World A) → Keeps t m → Keeps t (translated f m)
  unfolding translated
  Keeps-translated f m km = record { at = λ w h. km.at w h }

module _ {t : Table} {A B : Type 0} where
  resume-IsFrom :
      (r : Result A) (f : A → Exec World B) (w : World)
      → ((a : A) → Keeps t (f a))
      → IsFrom t w
      → IsFrom t (resume r f w).1
  resume-IsFrom (ok a) f w kf h = (kf a).at w h
  resume-IsFrom (err e) f w kf h = h

  pub Keeps-bind :
      (m : Exec World A) (f : A → Exec World B)
      → Keeps t m
      → ((a : A) → Keeps t (f a))
      → Keeps t (m >>= f)
  unfolding ◌>>=◌
  Keeps-bind m f km kf = record {
    at = λ w h. let (r, w') = m w in resume-IsFrom r f w' kf (km.at w h);
  }

module _ (E : Externals) (rely : OthersStep E) (L : IsLawful E.floats) {t : Table} where
  pub Keeps-write :
      (f : ℕ → Table → Table) → ((now : ℕ) (u : Table) → Step u (f now u)) → Keeps t (write E f)
  unfolding write
  Keeps-write f step = record {
    at = λ w h. record {
      steps =
          next (Steps-trans h.steps (rely w.turn w.table))
            (step (E.now w.turn) (E.others w.turn w.table));
      below = h.below;
    };
  }

  pub Keeps-query : {A : Type 0} (f : Table → A) → Keeps t (query E f)
  unfolding query
  Keeps-query f = record {
    at = λ w h. record { steps = Steps-trans h.steps (rely w.turn w.table); below = h.below };
  }

  module _ (job_id : ℕ) where
    Keeps-write_progress :
        (s : Stage) (n : ℕ) → n ≤ 99 → Keeps t (write_progress E job_id (some (s, n)))
    unfolding write_progress
    Keeps-write_progress s n b = Keeps-write _ (λ now u. progressed u job_id s n now b)

    track-IsFrom : (e : Event E.floats) (w : World) → IsFrom t w → IsFrom t (track E job_id e w).1
    unfolding track
    track-IsFrom e w h =
        let (p, out) = handle E.floats e w.tracker in
        let low : p.percent ≤ 99 = handle-percent_bound E.floats L e w.tracker h.below in
        let w' : World = record w { tracker = p } in
        let h' : IsFrom t w' = record { steps = h.steps; below = low } in
        elim (Option-cases out) [
          | inl quiet ↦ rw quiet (unfold write_progress pure in h')
          | inr ((s, n), loud) ↦ rw loud (
              (Keeps-write_progress s n
                  (rw (handle-emits E.floats L e w.tracker s n loud) at low)).at
                w' h')
        ]

    pub Keeps-enter : (s : Stage) → Keeps t (enter E job_id s)
    unfolding enter
    Keeps-enter s = record { at = λ w h. track-IsFrom _ w h }

    Keeps-report : (x : E.floats.Float) → Keeps t (report E job_id x)
    unfolding report
    Keeps-report x = record { at = λ w h. track-IsFrom _ w h }

    Keeps-monitor : (xs : List E.floats.Float) → Keeps t (monitor E job_id xs)
    unfolding monitor
    Keeps-monitor [] = Keeps-pure tt
    Keeps-monitor (x ∷ xs) = Keeps-bind _ _ (Keeps-report x) (λ _. Keeps-monitor xs)

    pub Keeps-during : {A : Type 0} (a : Activity) (r : Result A) → Keeps t (during E job_id a r)
    unfolding during
    Keeps-during a r = record { at = λ w h. (Keeps-monitor (E.reports a)).at w h }

    pub Keeps-raise_if_cancel_requested : Keeps t (raise_if_cancel_requested E job_id)
    unfolding raise_if_cancel_requested
    Keeps-raise_if_cancel_requested =
        Keeps-bind _ _ (Keeps-query _) (λ asked. Keeps-if asked _ _ (Keeps-raise _) (Keeps-pure tt))

pub ruleset keeps_rules =
    (Keeps-pure, Keeps-raise, Keeps-lift, Keeps-if, Keeps-translated, Keeps-bind)
