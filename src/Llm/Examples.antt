-- ===== src/Llm/Examples.antt =====
-- A cache with one key, a rule with one group reference, and an answer about two columns.
use rhombus_ai.Base.{
  ℕ, zero, suc, ◌≡◌, refl, String, true, false, Option, none, some, List, [], ◌∷◌,
}
use rhombus_ai.Failure.{llm, llm_invalid_response, Result, ok, err}
use rhombus_ai.Regex.Checks.{with_inline_flags}
use rhombus_ai.Regex.Matching.{Matches, refers_back}
use rhombus_ai.Regex.Repeats.{WideBodiesConsume}
use rhombus_ai.Regex.Examples.{ascii_engine, as_and_b, quick, quick_accepts}
use rhombus_ai.Llm.Patterns.{
  RegexSuggestion, flagged, pattern_from_suggestion, pattern_from_suggestion-ok,
}
use rhombus_ai.Llm.Completion.{
  LlmState, Redis, get_cached, complete_cached, AllValid, complete_cached-AllValid,
}
use rhombus_ai.Llm.Specs.{RewriteRule, SpecPython}
use rhombus_ai.Llm.Pii.{
  PiiColumn, email, IsMaskingOf, pii_spec_from_suggestion, pii_spec_from_suggestion-IsMaskingOf,
}

abbrev suggested : RegexSuggestion
suggested = record {
  feasible = true;
  pattern = "a+b";
  case_insensitive = false;
  multiline = false;
  dotall = false;
  explanation = "";
}

suggested_passes : pattern_from_suggestion quick suggested ≡ ok "a+b"
unfolding pattern_from_suggestion with_inline_flags
suggested_passes = quick_accepts

pattern_from_suggestion-ok_example :
    (suggested.feasible ≡ true)
    × (◌≡◌ {A = String} "a+b" (flagged suggested))
    × (¬ Matches ascii_engine as_and_b [])
    × WideBodiesConsume ascii_engine as_and_b
unfolding refers_back
pattern_from_suggestion-ok_example =
    pattern_from_suggestion-ok quick ascii_engine suggested "a+b" refl suggested_passes

abbrev parse_nothing : String → Option ℕ
parse_nothing content = none

abbrev working : Redis ℕ
working = record { reads = true; writes = true; parses = λ s. true }

abbrev empty_state : LlmState ℕ
empty_state = record { entries = λ key. none; asked = 0 }

abbrev accept_positive : ℕ → Result ℕ
accept_positive zero = err (llm llm_invalid_response "")
accept_positive (suc n) = ok n

nothing_cached : get_cached working "k" empty_state ≡ none
unfolding get_cached
nothing_cached = refl

complete_cached-AllValid_example :
    AllValid accept_positive (complete_cached working accept_positive "k" (ok 5) empty_state).1
complete_cached-AllValid_example =
    complete_cached-AllValid working accept_positive "k" (ok 5) empty_state (λ key s found. cc)

abbrev one_group : SpecPython
one_group = record {
  text_length = λ text. 2;
  reads = λ format. true;
  renders = λ format. true;
  names_weekday = λ format. false;
  has_backslash = λ text. false;
  has_stray_dollar = λ text. false;
  references = λ text. record { number = 1; digit_follows = false } ∷ [];
  groups = λ pattern. 1;
  validate_pattern = λ pattern. ok pattern;
}

abbrev one_rule : List RewriteRule
one_rule = record { pattern = "(a)b"; replacement = "$1" } ∷ []

abbrev two_answers : List PiiColumn
two_answers =
    record { column = "mail"; pii_types = some email ∷ none ∷ [] }
    ∷ record { column = "invented"; pii_types = some email ∷ [] }
    ∷ []

pii_spec_from_suggestion-IsMaskingOf_example :
    IsMaskingOf ("mail" ∷ []) (pii_spec_from_suggestion two_answers ("mail" ∷ []))
pii_spec_from_suggestion-IsMaskingOf_example =
    pii_spec_from_suggestion-IsMaskingOf two_answers ("mail" ∷ [])
