-- ===== src/Llm/Client.antt =====
-- `OllamaLLM.complete` of backend/apps/llm/client.py, from what the Ollama client does in `chat`.
use rhombus_ai.Base.{
  ℕ, String, true, ◌≡◌, Option, none, some, List, [], ◌∷◌, any, ◌==◌, if◌then◌else◌, str_eq,
}
use rhombus_ai.Failure.{
  llm, llm_unavailable, llm_not_configured, llm_request_failed, llm_invalid_response, Result, ok,
  err,
}

abbrev pub transient_statuses : List ℕ
transient_statuses = 408 ∷ 429 ∷ 500 ∷ 502 ∷ 503 ∷ 504 ∷ []

-- `unreachable` is a `ConnectionError` or a transport error of httpx, `response_error` has the
-- status code, and `answer` the reason that decoding stopped and the content.
pub data Reply : Type 0 where
  unreachable : Reply
  response_error : ℕ → Reply
  answer : String → String → Reply

abbrev not_installed : String
not_installed = "The language model is not installed on the Ollama server. Enter a regex instead."

abbrev pub parsed_or_invalid : {A : Type 0} → Option A → Result A
parsed_or_invalid none = err (llm llm_invalid_response "")
parsed_or_invalid (some a) = ok a

-- `parse` is `model_validate_json`, `none` where it raises.
unfoldable pub complete : {A : Type 0} → (String → Option A) → Reply → Result A
complete parse unreachable = err (llm llm_unavailable "")
complete parse (response_error status) =
    if status == 404
    then err (llm llm_not_configured not_installed)
    else if any (λ s. status == s) transient_statuses
    then err (llm llm_unavailable "")
    else err (llm llm_request_failed "")
complete parse (answer reason content) =
    if str_eq reason "length"
    then err (llm llm_invalid_response "")
    else parsed_or_invalid (parse content)

-- `get_llm`: a blank base URL is a language model that is not configured.
unfoldable pub ask : {A : Type 0} → String → (String → Option A) → Reply → Result A
unfolding complete
ask base_url parse reply =
    if str_eq base_url "" then err (llm llm_not_configured "") else complete parse reply

abbrev pub IsOutage : Reply → Type 0
IsOutage unreachable = Unit
IsOutage (response_error status) = any (λ s. status == s) transient_statuses ≡ true
IsOutage (answer reason content) = ⊥
