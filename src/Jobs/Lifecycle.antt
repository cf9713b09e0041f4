-- ===== src/Jobs/Lifecycle.antt =====
-- The lifecycle of a job over every sequence of database statements, in any interleaving of the API
-- and the workers.
pub mod Invariant
pub mod Outcome
use rhombus_ai.Base.{
  ℕ, ◌≤◌, ◌≡◌, ◌≢◌, refl, String, Bool, true, false, Option, none, some, List, [], ◌∷◌, arith, ◌==◌,
  eq_iff, str_eq, ==_iff, if◌then◌else◌, Bool-cases, Option-cases, inl, inr,
}
use rhombus_ai.Progress.{Stage, stage_name}
use rhombus_ai.Jobs.Model.{JobStatus, queued, running, success, failed, Job}
use rhombus_ai.Jobs.Table.{
  Table, update_row, update_where, transition, update_progress, request_cancel, is_cancel_requested,
}
use rhombus_ai.Jobs.Statements.{
  create_job, start_run, finish_run, fail, cancel_queued, save_pattern, save_spec,
}

-- What a submitted row looks like.
pub record IsNew (j : Job) : Type 0 where
  pub status : j.status ≡ queued
  pub progress : j.progress ≡ 0
  pub error_code : j.error_code ≡ ""
  pub cancel_requested_at : j.cancel_requested_at ≡ none
  pub started_at : j.started_at ≡ none
  pub finished_at : j.finished_at ≡ none

pub data Step : Table → Table → Type 0 where
  submitted : (t : Table) (j : Job) → IsNew j → t j.id ≡ none → Step t (create_job j t)
  started : (t : Table) (id now : ℕ) → Step t (start_run id now t).0
  progressed :
      (t : Table) (id : ℕ) (s : Stage) (percent now : ℕ)
      → percent ≤ 99
      → Step t (update_progress id (stage_name s) percent now t)
  pattern_saved :
      (t : Table) (id : ℕ) (pattern explanation : String) (cached : Bool)
      → Step t (save_pattern id pattern explanation cached t)
  spec_saved :
      (t : Table) (id : ℕ) (suggestion explanation : String) (cached : Bool)
      → Step t (save_spec id suggestion explanation cached t)
  cancelled_in_queue : (t : Table) (id now : ℕ) → Step t (cancel_queued id now t).0
  cancel_asked : (t : Table) (id now : ℕ) → Step t (request_cancel id now t).0
  finished :
      (t : Table) (id : ℕ) (path : String) (rows matched now : ℕ)
      → Step t (finish_run id path rows matched now t).0
  gave_up :
      (t : Table) (id : ℕ) (code message : String) (now : ℕ)
      → code ≢ ""
      → Step t (fail id code message now t).0

pub data Steps (t : Table) : Table → Type 0 where
  here : Steps t t
  next : {u v : Table} → Steps t u → Step u v → Steps t v
