-- ===== src/Jobs/Table.antt =====
-- `JobQuerySet` of backend/apps/jobs/models.py. The table is a map from primary keys to rows, and
-- each `UPDATE … WHERE` is one atomic step on it that returns the number of rows it changed.
use rhombus_ai.Base.{
  ℕ, String, Bool, true, false, ◌&&◌, Option, none, some, List, [], ◌∷◌, ◌==◌, if◌then◌else◌,
}
use rhombus_ai.Jobs.Model.{
  JobStatus, running, Job, Field, status_in, status_eq, allowed_source_statuses, set_fields,
}

abbrev pub Table : Type 0
Table = ℕ → Option Job

-- `filter(pk=k, p).update(f)`
abbrev pub update_row : (Job → Bool) → (Job → Job) → Option Job → Option Job
update_row p f none = none
update_row p f (some j) = some (if p j then f j else j)

abbrev pub row_matches : (Job → Bool) → Option Job → Bool
row_matches p none = false
row_matches p (some j) = p j

abbrev pub update_where : ℕ → (Job → Bool) → (Job → Job) → Table → Table × ℕ
update_where k p f t =
    (λ i. if i == k then update_row p f (t k) else t i, if row_matches p (t k) then 1 else 0)

-- `sources & frozenset(only_from)`
unfoldable pub narrow : List JobStatus → Option (List JobStatus) → List JobStatus
unfolding status_in
narrow sources none = sources
narrow [] (some only) = []
narrow (s ∷ sources) (some only) =
    let rest = narrow sources (some only) in if status_in s only then s ∷ rest else rest

unfoldable pub transition :
    ℕ → JobStatus → Option (List JobStatus) → List Field → ℕ → Table → Table × Bool
unfolding narrow allowed_source_statuses set_fields
transition job_id status only_from fields now t =
    let sources = narrow (allowed_source_statuses status) only_from in
    let (t', updated) =
      update_where job_id (λ j. status_in j.status sources)
        (λ j. set_fields fields (record j { status = status; updated_at = now })) t in
    (t', updated == 1)

unfoldable pub update_progress : ℕ → String → ℕ → ℕ → Table → Table
unfolding status_eq
update_progress job_id stage progress now t =
    (update_where job_id (λ j. status_eq j.status running)
      (λ j. record j { stage = stage; progress = progress; updated_at = now }) t).0

abbrev pub is_null : {A : Type 0} → Option A → Bool
is_null none = true
is_null (some _) = false

abbrev pub is_not_null : {A : Type 0} → Option A → Bool
is_not_null none = false
is_not_null (some _) = true

unfoldable pub request_cancel : ℕ → ℕ → Table → Table × Bool
unfolding status_eq
request_cancel job_id now t =
    let t' =
      (update_where job_id (λ j. status_eq j.status running && is_null j.cancel_requested_at)
        (λ j. record j { cancel_requested_at = some now; updated_at = now }) t).0 in
    (
      t',
      row_matches (λ j. status_eq j.status running && is_not_null j.cancel_requested_at)
          (t' job_id),
    )

unfoldable pub is_cancel_requested : ℕ → Table → Bool
is_cancel_requested job_id t = row_matches (λ j. is_not_null j.cancel_requested_at) (t job_id)
