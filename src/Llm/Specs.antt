-- ===== src/Llm/Specs.antt =====
-- backend/processing/specs.py and `normalization_spec_from_suggestion` of backend/apps/llm/service.py:
-- what a normalization may ask of Spark. `len` and the regexes of the module are parameters.
use rhombus_ai.Base.{
  ℕ, suc, ◌≤◌, String, Bool, false, not, ◌||◌, ◌≡◌, List, [], ◌∷◌, All, length, ltb, if◌then◌else◌,
}
use rhombus_ai.Failure.{processing, invalid_spec, llm, normalization_not_possible, Result, ok, err}
use rhombus_ai.Processing.Schema.{fromkeys}

abbrev pub max_rules : ℕ
max_rules = 10

abbrev pub max_date_formats : ℕ
max_date_formats = 10

abbrev pub max_date_format_length : ℕ
max_date_format_length = 40

abbrev pub max_replacement_length : ℕ
max_replacement_length = 200

pub record RewriteRule : Type 0 where
  pub pattern : String
  pub replacement : String

pub record DateNormalization : Type 0 where
  pub input_formats : List String
  pub output_format : String

pub data NormalizationSpec : Type 0 where
  date_normalization : DateNormalization → NormalizationSpec
  rule_normalization : List RewriteRule → NormalizationSpec

-- A `$n` in a replacement: its group number, and whether a digit follows it.
pub record GroupReference : Type 0 where
  pub number : ℕ
  pub digit_follows : Bool

-- `_INPUT_FORMAT`, `_OUTPUT_FORMAT` and `_GROUP_REFERENCE` with the tests of a text around them,
-- `re.compile(pattern).groups`, and `validate_pattern`.
pub record SpecPython : Type 0 where
  pub text_length : String → ℕ
  pub reads : String → Bool
  pub renders : String → Bool
  pub names_weekday : String → Bool
  pub has_backslash : String → Bool
  pub has_stray_dollar : String → Bool
  pub references : String → List GroupReference
  pub groups : String → ℕ
  pub validate_pattern : String → Result String

abbrev pub invalid : {A : Type 0} → String → Result A
invalid message = err (processing invalid_spec message)

-- The model's answer, after `_parse`.
pub record NormalizationSuggestion : Type 0 where
  pub feasible : Bool
  pub is_date : Bool
  pub input_formats : List String
  pub output_format : String
  pub rules : List RewriteRule
  pub explanation : String

module _ (py : SpecPython) where
  unfoldable pub check_date_format : (String → Bool) → String → Bool
  check_date_format allowed format =
      not (ltb max_date_format_length (py.text_length format) || not (allowed format))

  unfoldable pub check_input_formats : List String → Result (Unit {0})
  unfolding check_date_format
  check_input_formats [] = ok tt
  check_input_formats (format ∷ formats) =
      let rest = check_input_formats formats in
      if py.names_weekday format
      then invalid "Weekday names (E) cannot be used to read dates."
      else if check_date_format py.reads format
      then rest
      else invalid "Unsupported date format."

  unfoldable pub validate_date_normalization : DateNormalization → Result DateNormalization
  unfolding check_input_formats check_date_format
  validate_date_normalization spec = elim spec.input_formats [
    | [] ↦ invalid "The specification lists no input date formats."
    | _ ∷ _ ↦
        if ltb max_date_formats (length spec.input_formats)
        then invalid "The specification lists more than 10 input date formats."
        else elim (check_input_formats spec.input_formats) [
          | err e ↦ err e
          | ok _ ↦
              if check_date_format py.renders spec.output_format
              then ok spec
              else invalid "Unsupported date format."
        ]
  ]

  -- The loop over the references of a replacement.
  unfoldable pub check_references : ℕ → List GroupReference → Result (Unit {0})
  check_references groups [] = ok tt
  check_references groups (r ∷ references) =
      let rest = check_references groups references in
      if ltb groups r.number
      then invalid "A replacement refers to a group the pattern does not have."
      else if r.digit_follows
      then invalid "A replacement has an ambiguous group reference."
      else rest

  unfoldable pub validate_replacement : RewriteRule → Result (Unit {0})
  unfolding check_references
  validate_replacement rule =
      if ltb max_replacement_length (py.text_length rule.replacement)
      then invalid "A replacement is longer than 200 characters."
      else if py.has_backslash rule.replacement
      then invalid "Replacements may not contain backslashes."
      else if py.has_stray_dollar rule.replacement
      then invalid "A '$' in a replacement must be followed by a group number."
      else check_references (py.groups rule.pattern) (py.references rule.replacement)

  unfoldable pub check_rules : List RewriteRule → Result (Unit {0})
  unfolding validate_replacement
  check_rules [] = ok tt
  check_rules (rule ∷ rules) =
      let rest = check_rules rules in
      elim (py.validate_pattern rule.pattern) [
        | err e ↦ err e
        | ok _ ↦ elim (validate_replacement rule) [ err e ↦ err e | ok _ ↦ rest ]
      ]

  unfoldable pub validate_rule_normalization : List RewriteRule → Result (List RewriteRule)
  unfolding check_rules
  validate_rule_normalization [] = invalid "The specification lists no rewrite rules."
  validate_rule_normalization (rule ∷ rules) =
      if ltb max_rules (suc (length rules))
      then invalid "The specification lists more than 10 rewrite rules."
      else elim (check_rules (rule ∷ rules)) [ err e ↦ err e | ok _ ↦ ok (rule ∷ rules) ]

  abbrev pub as_dates : Result DateNormalization → Result NormalizationSpec
  as_dates (err e) = err e
  as_dates (ok spec) = ok (date_normalization spec)

  abbrev pub as_rules : Result (List RewriteRule) → Result NormalizationSpec
  as_rules (err e) = err e
  as_rules (ok spec) = ok (rule_normalization spec)

  unfoldable pub normalization_spec_from_suggestion :
      NormalizationSuggestion → Result NormalizationSpec
  unfolding fromkeys validate_date_normalization validate_rule_normalization
  normalization_spec_from_suggestion s =
      if not s.feasible
      then err (llm normalization_not_possible s.explanation)
      else if s.is_date
      then as_dates (
          validate_date_normalization
            (record { input_formats = fromkeys s.input_formats; output_format = s.output_format }))
      else as_rules (validate_rule_normalization s.rules)

  abbrev pub IsResolved : ℕ → GroupReference → Type 0
  IsResolved groups r = (r.number ≤ groups) × (r.digit_follows ≡ false)

  -- What Spark relies on of a rule.
  pub record IsSound (rule : RewriteRule) : Type 0 where
    pub length : py.text_length rule.replacement ≤ 200
    pub backslash : py.has_backslash rule.replacement ≡ false
    pub stray_dollar : py.has_stray_dollar rule.replacement ≡ false
    pub references : All (IsResolved (py.groups rule.pattern)) (py.references rule.replacement)
