-- ===== src/Regex/Checks.antt =====
-- `check_syntax`, `validate_pattern` and `with_inline_flags` of backend/processing/regex_safety.py.
use rhombus_ai.Base.{
  ℕ, String, Bool, Option, none, some, List, [], ◌∷◌, ltb, str_eq, any, if◌then◌else◌,
}
use Prim.Native.String.{◌++◌}
use rhombus_ai.Failure.{processing, invalid_pattern, Result, ok, err}
use rhombus_ai.Regex.Charset.{CharTests}
use rhombus_ai.Regex.Syntax.{Items}
use rhombus_ai.Regex.Analysis.{nullable}
use rhombus_ai.Regex.Safety.{find_backtracking_risk}
use rhombus_ai.Regex.Probes.{probe_inputs}

abbrev pub max_pattern_length : ℕ
max_pattern_length = 500

-- The detectors of `_JAVA_INCOMPATIBLE`.
pub data Detector : Type 0 where
  python_named_group named_group conditional_group inline_comment : Detector

abbrev pub detectors : List Detector
detectors = python_named_group ∷ named_group ∷ conditional_group ∷ inline_comment ∷ []

unfoldable pub detector_message : Detector → String
detector_message python_named_group = "Python-style named groups (?P<name>...) are not supported."
detector_message named_group =
    "Named groups are not supported; use a non-capturing group (?:...) instead."
detector_message conditional_group = "Conditional groups (?(...)...) are not supported."
detector_message inline_comment = "Inline comments (?#...) are not supported."

-- `len`, a detector's `search`, the error of `re.compile`, `re._parser.parse`, and whether the
-- engine's search of a text runs into the timeout. The `regex` package compiles here what `re` does.
pub record Python : Type 0 where
  pub tests : CharTests
  pub text_length : String → ℕ
  pub finds : Detector → String → Bool
  pub compile_error : String → Option String
  pub parse : String → Items
  pub times_out : String → List ℕ → Bool

module _ (python : Python) where
  unfoldable pub first_detected : List Detector → String → Option Detector
  first_detected [] pattern = none
  first_detected (d ∷ ds) pattern =
      let rest = first_detected ds pattern in if python.finds d pattern then some d else rest

  unfoldable pub check_syntax : String → Result (Unit {0})
  unfolding first_detected detector_message
  check_syntax pattern =
      if str_eq pattern ""
      then err (processing invalid_pattern "The pattern is empty.")
      else if ltb max_pattern_length (python.text_length pattern)
      then err (processing invalid_pattern "The pattern is longer than 500 characters.")
      else elim (first_detected detectors pattern) [
        | some d ↦ err (processing invalid_pattern (detector_message d))
        | none ↦ elim (python.compile_error pattern) [
          | some e ↦ err (processing invalid_pattern ("Invalid regular expression: " ++ e))
          | none ↦ ok tt
        ]
      ]

  unfoldable pub check_performance : String → Items → Result (Unit {0})
  check_performance pattern parsed =
      if any (python.times_out pattern) (probe_inputs parsed)
      then err (
          processing invalid_pattern
            "The pattern is too slow on long inputs and could stall processing.")
      else ok tt

  unfoldable pub check_parsed : String → Items → Result String
  unfolding check_performance
  check_parsed pattern parsed =
      if nullable parsed
      then err (
          processing invalid_pattern
            "The pattern can match empty text, which would insert the replacement between every character. Make at least one part of it required.")
      else elim (find_backtracking_risk python.tests parsed) [
        | some risk ↦ err (
            processing invalid_pattern
              ("The pattern risks catastrophic backtracking: it contains " ++ risk ++ "."))
        | none ↦ elim (check_performance pattern parsed) [ err e ↦ err e | ok _ ↦ ok pattern ]
      ]

  unfoldable pub validate_pattern : String → Result String
  unfolding check_syntax check_parsed
  validate_pattern pattern = elim (check_syntax pattern) [
    | err e ↦ err e
    | ok _ ↦ check_parsed pattern (python.parse pattern)
  ]

abbrev flag : Bool → String → String
flag enabled letter = if enabled then letter else ""

unfoldable pub with_inline_flags : String → Bool → Bool → Bool → String
with_inline_flags pattern case_insensitive multiline dotall =
    let flags = flag case_insensitive "i" ++ flag multiline "m" ++ flag dotall "s" in
    if str_eq flags "" then pattern else "(?" ++ flags ++ ")" ++ pattern
