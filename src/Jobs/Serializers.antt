-- ===== src/Jobs/Serializers.antt =====
-- backend/apps/jobs/serializers.py: the rule on which fields go together in a submission, and what a
-- client is shown of a job's error and cancellation.
use rhombus_ai.Base.{
  String, Bool, not, ◌||◌, ◌≡◌, ◌≢◌, ◌↔◌, ◌⊎◌, Option, none, some, List, str_eq, eq_iff,
  if◌then◌else◌, arith, ℕ,
}
use rhombus_ai.Failure.{Result, ok, err}
use rhombus_ai.Processing.Schema.{fromkeys}
use rhombus_ai.Regex.Checks.{Python, check_syntax}
use rhombus_ai.Jobs.Model.{Job, failed, TransformType, regex_replace, normalize_format, mask_pii}
use rhombus_ai.Jobs.Table.{Table, is_not_null}
use rhombus_ai.Jobs.Lifecycle.Invariant.{TableInv}
use rhombus_ai.Jobs.Services.{JobRequest}

abbrev pub given : String → Bool
given s = not (str_eq s "")

-- The field and the message of the `ValidationError`, none where the attributes are accepted.
unfoldable pub validate : JobRequest → Option (String × String)
validate r =
    let has_prompt = given r.nl_prompt in
    let has_pattern = given r.pattern in
    let has_replacement = given r.replacement_value in
    elim r.transform_type [
      | regex_replace ↦
          if has_prompt
          then (if has_pattern
              then some ("nl_prompt", "Provide either a description or a regex, not both.")
              else none)
          else (if has_pattern
              then none
              else some ("nl_prompt", "Describe what to find, or enter a regex."))
      | normalize_format ↦
          if has_pattern || has_replacement
          then some ("pattern", "Only find-and-replace jobs take a regex or replacement value.")
          else if has_prompt
          then none
          else some ("nl_prompt", "Describe the target format, for example dates as YYYY-MM-DD.")
      | mask_pii ↦
          if has_prompt || has_pattern || has_replacement
          then some (
            "transform_type",
            "Masking personal data takes no description, regex or replacement value.",
          )
          else none
    ]

unfoldable pub validate_target_columns : List String → List String
unfolding fromkeys
validate_target_columns columns = fromkeys columns

-- A blank pattern is not checked.
unfoldable pub validate_pattern_field : Python → String → Result String
unfolding check_syntax
validate_pattern_field python pattern =
    if given pattern
    then elim (check_syntax python pattern) [ err e ↦ err e | ok _ ↦ ok pattern ]
    else ok pattern

unfoldable pub get_error : Job → Option (String × String)
get_error j = if given j.error_code then some (j.error_code, j.error_message) else none

unfoldable pub get_cancel_requested : Job → Bool
get_cancel_requested j = is_not_null j.cancel_requested_at

-- The fields that each transform takes.
abbrev pub FieldsFit : TransformType → JobRequest → Type 0
FieldsFit regex_replace r =
    ((r.nl_prompt ≢ "") × (r.pattern ≡ "")) ⊎ ((r.nl_prompt ≡ "") × (r.pattern ≢ ""))
FieldsFit normalize_format r = (r.nl_prompt ≢ "") × (r.pattern ≡ "") × (r.replacement_value ≡ "")
FieldsFit mask_pii r = (r.nl_prompt ≡ "") × (r.pattern ≡ "") × (r.replacement_value ≡ "")

-- A submission passes exactly if its fields fit its transform: find and replace takes a description
-- or a pattern and not both, a normalization takes only a description, masking takes nothing.
pub validate-FieldsFit : (r : JobRequest) → (validate r ≡ none) ↔ FieldsFit r.transform_type r
unfolding validate
validate-FieldsFit r =
    ground (arith, eq_iff r.nl_prompt "", eq_iff r.pattern "", eq_iff r.replacement_value "")

-- In a table that satisfies the lifecycle's invariant, a client is shown an error exactly for the
-- jobs that failed.
pub get_error-failed :
    (t : Table) (i : ℕ) (j : Job)
    → TableInv t
    → t i ≡ some j
    → (get_error j ≢ none) ↔ (j.status ≡ failed)
unfolding get_error
get_error-failed t i j inv at = ground (arith, inv i, eq_iff j.error_code "")
