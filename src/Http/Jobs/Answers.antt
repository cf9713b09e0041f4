-- ===== src/Http/Jobs/Answers.antt =====
-- What a submission does, by how it is answered.
use rhombus_ai.Base.{ℕ, false, ◌≡◌, ◌==◌, none, some, ◌∷◌, if◌then◌else◌}
use rhombus_ai.Failure.{Failure}
use rhombus_ai.Jobs.Lifecycle.{IsNew}
use rhombus_ai.Jobs.Services.{Api}
use rhombus_ai.Http.Errors.{IsErrorBody}
use rhombus_ai.Http.Jobs.{JobBody, Response, responds, refuses}

-- Accepted: a new row and its task, and nothing else. Refused: an error, and no change.
abbrev pub IsAnswered : ℕ → Api → Response JobBody → Api → Type 0
IsAnswered id api (responds status body) api' =
    (status ≡ 202)
    × IsNew body.job
    × (body.job.id ≡ id)
    × (body.error ≡ none)
    × (body.cancel_requested ≡ false)
    × (api'.sent ≡ id ∷ api.sent)
    × ((i : ℕ) → api'.table i ≡ (if i == id then some body.job else api.table i))
IsAnswered id api (refuses error) api' = IsErrorBody error × (api' ≡ api)
