-- ===== src/Jobs/Services/Laws.antt =====
-- What submitting, cancelling and reading a job do to the table and answer.
use rhombus_ai.Base.{
  ℕ, String, Bool, true, false, none, some, ◌∷◌, ◌≡◌, sym, arith, ◌==◌, if◌then◌else◌, Option-cases,
  inl, inr,
}
use rhombus_ai.Failure.{Failure, domain, job_not_cancellable, Result, ok, err}
use rhombus_ai.Jobs.Model.{Job, queued, running, failed}
use rhombus_ai.Jobs.Table.{Table}
use rhombus_ai.Jobs.Lifecycle.{IsNew, Steps, next, cancelled_in_queue, cancel_asked}
use rhombus_ai.Jobs.Lifecycle.Invariant.{TableInv}
use rhombus_ai.Jobs.Worker.Safety.{Steps-trans}
use mathlib.Core.Path.{subst}
use rhombus_ai.Jobs.Services.{
  JobRequest, Api, FileServices, submit_job, get_job, revoke_task, cancel_job, cancel_from_queue,
  request_or_refuse, refreshed,
}

abbrev pub alone : ℕ → Table → Table
alone n t = t

-- What cancelling makes of a row.
abbrev pub cancelled_row : Job → ℕ → Job
cancelled_row j now = elim j.status [
  | queued ↦ record j {
    status = failed;
    updated_at = now;
    finished_at = some now;
    cancel_requested_at = some now;
    error_code = "CANCELLED";
    error_message = "The job was cancelled.";
  }
  | running ↦ elim j.cancel_requested_at [
    | none ↦ record j { cancel_requested_at = some now; updated_at = now }
    | some _ ↦ j
  ]
  | _ ↦ j
]

abbrev pub cancel_answer : Job → ℕ → Result Job
cancel_answer j now = elim j.status [
  | queued ↦ ok (cancelled_row j now)
  | running ↦ ok (cancelled_row j now)
  | _ ↦ err (domain job_not_cancellable "")
]

-- Cancelling a job that no other process touches meanwhile: a queued job fails as cancelled at once,
-- a running one is flagged with the time of its first request, a finished one is refused and left
-- alone; no other row changes, and the caller is answered with the row.
pub cancel_job-alone :
    (id now : ℕ) (api : Api) (j : Job)
    → TableInv api.table
    → api.table id ≡ some j
    → ((cancel_job alone id now api).0 ≡ cancel_answer j now)
      × ((i : ℕ)
          → (cancel_job alone id now api).1.table i
            ≡ (if i == id then some (cancelled_row j now) else api.table i))
unfolding cancel_job
cancel_job-alone id now api j inv at = (ground (arith, inv id), λ i. ground (arith, inv id))

module _ (others : ℕ → Table → Table) (rely : (n : ℕ) (t : Table) → Steps t (others n t)) where
  refreshed-Steps :
      (id : ℕ) (api : Api) {t : Table}
      → Steps t api.table
      → Steps t (refreshed others id api).1.table
  unfolding refreshed
  refreshed-Steps id api r = Steps-trans r (rely 3 api.table)

  request_or_refuse-Steps :
      (u : Table) (asked : Bool) (id : ℕ) (api : Api) {t : Table}
      → Steps t u
      → Steps t (request_or_refuse others (u, asked) id api).1.table
  unfolding request_or_refuse
  request_or_refuse-Steps u true id api r = refreshed-Steps id (record api { table = u }) r
  request_or_refuse-Steps u false id api r = r

  revoke_task-table : (id : String) (api : Api) → (revoke_task id api).table ≡ api.table
  unfolding revoke_task
  revoke_task-table id api = ground arith

  cancel_from_queue-Steps :
      (u : Table) (cancelled : Bool) (j : Job) (now : ℕ) (api : Api) {t : Table}
      → Steps t u
      → Steps t (cancel_from_queue others (u, cancelled) j now api).1.table
  unfolding cancel_from_queue
  cancel_from_queue-Steps u true j now api {t} r =
      let revoked = revoke_task j.celery_task_id (record api { table = u }) in
      refreshed-Steps j.id revoked
        (subst (Steps t) (sym (revoke_task-table j.celery_task_id (record api { table = u }))) r)
  cancel_from_queue-Steps u false j now api r =
      request_or_refuse-Steps _ _ j.id api
        (next (Steps-trans r (rely 2 u)) (cancel_asked (others 2 u) j.id now))

  -- Whatever other processes do between its statements, cancelling changes the table only by
  -- statements of the lifecycle.
  pub cancel_job-Steps :
      (id now : ℕ) (api : Api) → Steps api.table (cancel_job others id now api).1.table
  unfolding cancel_job
  cancel_job-Steps id now api = elim (Option-cases (others 0 api.table id)) [
    | inl gone ↦ rw (gone, cancel_job, get_job) (rely 0 api.table)
    | inr (j, found) ↦
        rw (found, cancel_job, get_job)
          (cancel_from_queue-Steps _ _ j now api
            (next (Steps-trans (rely 0 api.table) (rely 1 _)) (cancelled_in_queue _ j.id now)))
  ]

-- A submission that is refused, for its file, its connection or its columns, changes nothing and
-- sends no task.
pub submit_job_refused :
    (files : FileServices) (r : JobRequest) (id now : ℕ) (api : Api) (e : Failure)
    → (submit_job files r id now api).0 ≡ err e
    → (submit_job files r id now api).1 ≡ api
unfolding submit_job
submit_job_refused files r id now api e h = ground arith

-- An accepted submission inserts a new queued row under the given id, with the request's columns
-- and a task id, sends exactly this id to the workers, and leaves every other row.
pub submit_job_accepted :
    (files : FileServices) (r : JobRequest) (id now : ℕ) (api : Api) (j : Job)
    → (submit_job files r id now api).0 ≡ ok j
    → IsNew j
      × (j.id ≡ id)
      × (j.target_columns ≡ r.target_columns)
      × (j.celery_task_id ≡ files.id_text id)
      × ((submit_job files r id now api).1.sent ≡ id ∷ api.sent)
      × ((i : ℕ)
          → (submit_job files r id now api).1.table i ≡ (if i == id then some j else api.table i))
unfolding submit_job
submit_job_accepted files r id now api j h =
    (ground arith, ground arith, ground arith, ground arith, ground arith, λ i. ground arith)
