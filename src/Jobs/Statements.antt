-- ===== src/Jobs/Statements.antt =====
-- The database statements that the services and the task issue: the calls of `transition` in
-- backend/apps/jobs/services.py and tasks.py with their fields, the saves of tasks.py and
-- transform_builders.py, and the insert of `submit_job`.
use rhombus_ai.Base.{ℕ, String, Bool, true, none, some, [], ◌∷◌, ◌==◌, if◌then◌else◌}
use rhombus_ai.Jobs.Model.{
  queued, running, success, failed, Job, set_started_at, set_finished_at, set_cancel_requested_at,
  set_stage, set_progress, set_error_code, set_error_message, set_result_path, set_row_count,
  set_matched_count, cancelled_error_code, cancelled_message,
}
use rhombus_ai.Jobs.Table.{Table, update_where, transition}

unfoldable pub create_job : Job → Table → Table
create_job j t = λ i. if i == j.id then some j else t i

unfoldable pub start_run : ℕ → ℕ → Table → Table × Bool
unfolding transition
start_run job_id now t =
    transition job_id running none
      (set_started_at now
        ∷ set_stage ""
        ∷ set_progress 0
        ∷ set_error_code ""
        ∷ set_error_message ""
        ∷ [])
      now t

unfoldable pub finish_run : ℕ → String → ℕ → ℕ → ℕ → Table → Table × Bool
unfolding transition
finish_run job_id output_path row_count matched_count now t =
    transition job_id success none
      (set_progress 100
        ∷ set_finished_at now
        ∷ set_result_path output_path
        ∷ set_row_count row_count
        ∷ set_matched_count matched_count
        ∷ [])
      now t

-- `_fail`
unfoldable pub fail : ℕ → String → String → ℕ → Table → Table × Bool
unfolding transition
fail job_id code message now t =
    transition job_id failed none
      (set_finished_at now ∷ set_error_code code ∷ set_error_message message ∷ []) now t

-- The transition of `cancel_job`
unfoldable pub cancel_queued : ℕ → ℕ → Table → Table × Bool
unfolding transition
cancel_queued job_id now t =
    transition job_id failed (some (queued ∷ []))
      (set_finished_at now
        ∷ set_cancel_requested_at now
        ∷ set_error_code cancelled_error_code
        ∷ set_error_message cancelled_message
        ∷ [])
      now t

-- The save in `_resolve_pattern`; it leaves `updated_at` alone.
unfoldable pub save_pattern : ℕ → String → String → Bool → Table → Table
save_pattern job_id pattern explanation cached t =
    (update_where job_id (λ j. true)
      (λ j. record j {
        pattern = pattern;
        pattern_explanation = explanation;
        llm_cached = some cached;
      })
      t).0

-- The save in `_generate_spec`
unfoldable pub save_spec : ℕ → String → String → Bool → Table → Table
save_spec job_id suggestion explanation cached t =
    (update_where job_id (λ j. true)
      (λ j. record j {
        transform_spec = some suggestion;
        pattern_explanation = explanation;
        llm_cached = some cached;
      })
      t).0
