-- ===== src/Jobs/Lifecycle/Invariant.antt =====
-- What every row satisfies, and that a cancel request is never lost.
use rhombus_ai.Base.{ℕ, ◌≤◌, ◌≡◌, ◌≢◌, Option, none, some, arith, eq_iff, Option-cases, inl, inr}
use rhombus_ai.Jobs.Model.{JobStatus, queued, running, success, failed, Job}
use rhombus_ai.Jobs.Table.{Table, update_progress, request_cancel}
use rhombus_ai.Jobs.Statements.{
  create_job, start_run, finish_run, fail, cancel_queued, save_pattern, save_spec,
}
use rhombus_ai.Jobs.Lifecycle.{
  Step, submitted, started, progressed, pattern_saved, spec_saved, cancelled_in_queue, cancel_asked,
  finished, gave_up, Steps, here, next,
}

abbrev pub StatusInv : JobStatus → Job → Type 0
StatusInv queued j =
    (j.progress ≡ 0)
    × (j.error_code ≡ "")
    × (j.cancel_requested_at ≡ none)
    × (j.started_at ≡ none)
    × (j.finished_at ≡ none)
StatusInv running j =
    (j.progress ≤ 99) × (j.error_code ≡ "") × (j.started_at ≢ none) × (j.finished_at ≡ none)
StatusInv success j =
    (j.progress ≡ 100)
    × (j.error_code ≡ "")
    × (j.started_at ≢ none)
    × (j.finished_at ≢ none)
    × (j.row_count ≢ none)
    × (j.matched_count ≢ none)
StatusInv failed j = (j.progress ≤ 99) × (j.error_code ≢ "") × (j.finished_at ≢ none)

abbrev pub RowInv : ℕ → Option Job → Type 0
RowInv i none = Unit
RowInv i (some j) = (j.id ≡ i) × StatusInv j.status j

abbrev pub TableInv : Table → Type 0
TableInv t = (i : ℕ) → RowInv i (t i)

Step-TableInv : {t u : Table} → Step t u → TableInv t → TableInv u
unfolding create_job start_run update_progress save_pattern save_spec cancel_queued request_cancel
    finish_run fail
Step-TableInv (submitted t j new fresh) h i = ground (arith, h i)
Step-TableInv (started t id now) h i = ground (arith, h i, h id)
Step-TableInv (progressed t id s percent now b) h i = ground (arith, h i, h id)
Step-TableInv (pattern_saved t id pattern explanation cached) h i = ground (arith, h i, h id)
Step-TableInv (spec_saved t id suggestion explanation cached) h i = ground (arith, h i, h id)
Step-TableInv (cancelled_in_queue t id now) h i = ground (arith, h i, h id, eq_iff "CANCELLED" "")
Step-TableInv (cancel_asked t id now) h i = ground (arith, h i, h id)
Step-TableInv (finished t id path rows matched now) h i = ground (arith, h i, h id)
Step-TableInv (gave_up t id code message now real) h i = ground (arith, h i, h id)

-- At every point of every interleaving of statements, from a table of which this holds such as the
-- empty one, each row has its key as id, and: a queued job has no progress, error, cancel request
-- or times; a running one is below 100 percent, without error, started and unfinished; a succeeded
-- one is at 100 percent, without error, started, finished and counted; a failed one is below 100
-- percent, has an error code and is finished.
pub Steps-TableInv : {t u : Table} → Steps t u → TableInv t → TableInv u
Steps-TableInv here h = h
Steps-TableInv (next r s) h = Step-TableInv s (Steps-TableInv r h)

abbrev pub KeepsRequest : ℕ → Option Job → Type 0
KeepsRequest c none = ⊥
KeepsRequest c (some k) = k.cancel_requested_at ≡ some c

Step-KeepsRequest :
    {t u : Table}
    → Step t u
    → TableInv t
    → (i c : ℕ) (j : Job) → t i ≡ some j
    → j.cancel_requested_at ≡ some c
    → KeepsRequest c (u i)
unfolding create_job start_run update_progress save_pattern save_spec cancel_queued request_cancel
    finish_run fail
Step-KeepsRequest (submitted t k new fresh) h i c j at asked = ground arith
Step-KeepsRequest (started t id now) h i c j at asked = ground arith
Step-KeepsRequest (progressed t id s percent now b) h i c j at asked = ground arith
Step-KeepsRequest (pattern_saved t id pattern explanation cached) h i c j at asked = ground arith
Step-KeepsRequest (spec_saved t id suggestion explanation cached) h i c j at asked = ground arith
Step-KeepsRequest (cancelled_in_queue t id now) h i c j at asked = ground (arith, h i)
Step-KeepsRequest (cancel_asked t id now) h i c j at asked = ground arith
Step-KeepsRequest (finished t id path rows matched now) h i c j at asked = ground arith
Step-KeepsRequest (gave_up t id code message now real) h i c j at asked = ground arith

-- A cancel request, once recorded, stays with the time of the first request, across retries and
-- whatever else happens to the job.
pub Steps-KeepsRequest :
    {t u : Table}
    → Steps t u
    → TableInv t
    → (i c : ℕ) (j : Job) → t i ≡ some j
    → j.cancel_requested_at ≡ some c
    → KeepsRequest c (u i)
Steps-KeepsRequest here h i c j at asked = rw at asked
Steps-KeepsRequest (next {u} r s) h i c j at asked = elim (Option-cases (u i)) [
  | inl gone ↦ absurd (rw gone at (Steps-KeepsRequest r h i c j at asked))
  | inr (k, found) ↦
      Step-KeepsRequest s (Steps-TableInv r h) i c k found
        (rw found at (Steps-KeepsRequest r h i c j at asked))
]
