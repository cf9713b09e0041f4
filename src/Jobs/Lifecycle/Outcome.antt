-- ===== src/Jobs/Lifecycle/Outcome.antt =====
-- The moves between statuses, and that a finished job stays as it is.
use rhombus_ai.Base.{ℕ, ◌≡◌, Bool, true, false, Option, none, some, arith, Option-cases, inl, inr}
use rhombus_ai.Jobs.Model.{JobStatus, queued, running, success, failed, Job}
use rhombus_ai.Jobs.Table.{Table, update_progress, request_cancel}
use rhombus_ai.Jobs.Statements.{
  create_job, start_run, finish_run, fail, cancel_queued, save_pattern, save_spec,
}
use rhombus_ai.Jobs.Lifecycle.{
  Step, submitted, started, progressed, pattern_saved, spec_saved, cancelled_in_queue, cancel_asked,
  finished, gave_up, Steps, here, next,
}

-- The lifecycle graph.
abbrev pub may_move : JobStatus → JobStatus → Bool
may_move queued success = false
may_move queued _ = true
may_move running queued = false
may_move running _ = true
may_move success success = true
may_move success _ = false
may_move failed failed = true
may_move failed _ = false

abbrev pub MovesTo : JobStatus → Option Job → Type 0
MovesTo s none = ⊥
MovesTo s (some k) = may_move s k.status ≡ true

-- One statement moves a job only along the lifecycle: from QUEUED to RUNNING or FAILED, from
-- RUNNING to SUCCESS or FAILED, or not at all; no row disappears.
pub Step-MovesTo :
    {t u : Table} → Step t u → (i : ℕ) (j : Job) → t i ≡ some j → MovesTo j.status (u i)
unfolding create_job start_run update_progress save_pattern save_spec cancel_queued request_cancel
    finish_run fail
Step-MovesTo (submitted t k new fresh) i j at = ground arith
Step-MovesTo (started t id now) i j at = ground arith
Step-MovesTo (progressed t id s percent now b) i j at = ground arith
Step-MovesTo (pattern_saved t id pattern explanation cached) i j at = ground arith
Step-MovesTo (spec_saved t id suggestion explanation cached) i j at = ground arith
Step-MovesTo (cancelled_in_queue t id now) i j at = ground arith
Step-MovesTo (cancel_asked t id now) i j at = ground arith
Step-MovesTo (finished t id path rows matched now) i j at = ground arith
Step-MovesTo (gave_up t id code message now real) i j at = ground arith

-- What a client is told of a finished job.
pub record SameOutcome (j k : Job) : Type 0 where
  pub status : k.status ≡ j.status
  pub progress : k.progress ≡ j.progress
  pub error_code : k.error_code ≡ j.error_code
  pub error_message : k.error_message ≡ j.error_message
  pub result_path : k.result_path ≡ j.result_path
  pub row_count : k.row_count ≡ j.row_count
  pub matched_count : k.matched_count ≡ j.matched_count
  pub finished_at : k.finished_at ≡ j.finished_at

abbrev pub IsTerminal : JobStatus → Type 0
IsTerminal queued = ⊥
IsTerminal running = ⊥
IsTerminal success = Unit
IsTerminal failed = Unit

abbrev pub KeepsOutcome : Job → Option Job → Type 0
KeepsOutcome j none = ⊥
KeepsOutcome j (some k) = SameOutcome j k

Step-KeepsOutcome :
    {t u : Table}
    → Step t u
    → (i : ℕ) (j : Job) → t i ≡ some j
    → IsTerminal j.status
    → KeepsOutcome j (u i)
unfolding create_job start_run update_progress save_pattern save_spec cancel_queued request_cancel
    finish_run fail
Step-KeepsOutcome (submitted t k new fresh) i j at done = ground arith
Step-KeepsOutcome (started t id now) i j at done = ground arith
Step-KeepsOutcome (progressed t id s percent now b) i j at done = ground arith
Step-KeepsOutcome (pattern_saved t id pattern explanation cached) i j at done = ground arith
Step-KeepsOutcome (spec_saved t id suggestion explanation cached) i j at done = ground arith
Step-KeepsOutcome (cancelled_in_queue t id now) i j at done = ground arith
Step-KeepsOutcome (cancel_asked t id now) i j at done = ground arith
Step-KeepsOutcome (finished t id path rows matched now) i j at done = ground arith
Step-KeepsOutcome (gave_up t id code message now real) i j at done = ground arith

SameOutcome-trans :
    (j k : Job) (o : Option Job) → SameOutcome j k → KeepsOutcome k o → KeepsOutcome j o
SameOutcome-trans j k none h g = g
SameOutcome-trans j k (some l) h g = ground arith

-- Once a job has succeeded or failed, no later statement of any process changes its status,
-- progress, error, result path, counts or finish time.
pub Steps-KeepsOutcome :
    {t u : Table}
    → Steps t u
    → (i : ℕ) (j : Job) → t i ≡ some j
    → IsTerminal j.status
    → KeepsOutcome j (u i)
Steps-KeepsOutcome here i j at done = rw at (ground arith)
Steps-KeepsOutcome (next {u} r s) i j at done = elim (Option-cases (u i)) [
  | inl gone ↦ absurd (rw gone at (Steps-KeepsOutcome r i j at done))
  | inr (k, found) ↦
      let same : SameOutcome j k = rw found at (Steps-KeepsOutcome r i j at done) in
      SameOutcome-trans j k _ same (Step-KeepsOutcome s i k found (rw same.status done))
]

-- Where several moves lead.
abbrev pub may_reach : JobStatus → JobStatus → Bool
may_reach queued _ = true
may_reach running queued = false
may_reach running _ = true
may_reach success success = true
may_reach success _ = false
may_reach failed failed = true
may_reach failed _ = false

abbrev pub Reaches : JobStatus → Option Job → Type 0
Reaches s none = ⊥
Reaches s (some k) = may_reach s k.status ≡ true

may_reach-move :
    (a b c : JobStatus) → may_reach a b ≡ true → may_move b c ≡ true → may_reach a c ≡ true
may_reach-move a b c h k = ground arith

Reaches-move :
    (a : JobStatus) (k : Job) (o : Option Job)
    → may_reach a k.status ≡ true
    → MovesTo k.status o
    → Reaches a o
Reaches-move a k none h m = m
Reaches-move a k (some l) h m = may_reach-move a k.status l.status h m

may_reach_refl : (a : JobStatus) → may_reach a a ≡ true
may_reach_refl a = ground arith

-- Over any sequence of statements no row disappears, no job returns to an earlier status, and a
-- succeeded or failed job keeps its status.
pub Steps-Reaches :
    {t u : Table} → Steps t u → (i : ℕ) (j : Job) → t i ≡ some j → Reaches j.status (u i)
Steps-Reaches here i j at = rw at (may_reach_refl j.status)
Steps-Reaches (next {u} r s) i j at = elim (Option-cases (u i)) [
  | inl gone ↦ absurd (rw gone at (Steps-Reaches r i j at))
  | inr (k, found) ↦
      Reaches-move j.status k _ (rw found at (Steps-Reaches r i j at)) (Step-MovesTo s i k found)
]

may_reach_trans :
    (a b c : JobStatus) → may_reach a b ≡ true → may_reach b c ≡ true → may_reach a c ≡ true
may_reach_trans a b c h k = ground arith

Reaches-weaken :
    (a b : JobStatus) (o : Option Job) → may_reach a b ≡ true → Reaches b o → Reaches a o
Reaches-weaken a b none h r = r
Reaches-weaken a b (some l) h r = may_reach_trans a b l.status h r

pub Reaches-Steps :
    {t u : Table} (i : ℕ) (a : JobStatus) → Reaches a (t i) → Steps t u → Reaches a (u i)
Reaches-Steps {t} i a h r = elim (Option-cases (t i)) [
  | inl gone ↦ absurd (rw gone at h)
  | inr (k, found) ↦ Reaches-weaken a k.status _ (rw found at h) (Steps-Reaches r i k found)
]
