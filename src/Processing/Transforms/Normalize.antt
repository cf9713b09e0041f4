-- ===== src/Processing/Transforms/Normalize.antt =====
-- backend/processing/transforms/normalize.py. The specifications are those of Llm/Specs.
use rhombus_ai.Base.{String, Option, none, some, List, [], ◌∷◌, ◌++◌, map}
use rhombus_ai.Failure.{Result, ok, err, processing, invalid_spec, unexpected}
use rhombus_ai.Processing.Schema.{require_columns}
use rhombus_ai.Llm.Specs.{
  RewriteRule, DateNormalization, NormalizationSpec, date_normalization, rule_normalization,
}
use rhombus_ai.Processing.Transforms.Functions.{Text, Cond, Functions}
use rhombus_ai.Processing.Transforms.Columns.{OutRow, rewrite_columns}
use rhombus_ai.Processing.Transforms.Replace.{ensure_java_pattern, after_checks}

-- `DateTimeFormatter.ofPattern` of each format, in order: the first error's description.
unfoldable pub ensure_java_date_formats : (String → Option String) → List String → Result (Unit {0})
ensure_java_date_formats format_error [] = ok tt
ensure_java_date_formats format_error (format ∷ formats) = elim (format_error format) [
  | none ↦ ensure_java_date_formats format_error formats
  | some description ↦ err (processing invalid_spec description)
]

unfoldable pub ensure_rule_patterns :
    (String → Option String) → List RewriteRule → Result (Unit {0})
ensure_rule_patterns compile_error [] = ok tt
ensure_rule_patterns compile_error (rule ∷ rules) =
    elim (ensure_java_pattern compile_error rule.pattern) [
      | ok done ↦ ensure_rule_patterns compile_error rules
      | err e ↦ err e
    ]

module _ {Row Date : Type 0} (f : Functions Row Date) where
  unfoldable pub normalize_date : DateNormalization → Text → Text × Cond
  normalize_date spec value =
      let trimmed = f.trim value in
      let parsed = f.coalesce_dates (map (f.to_date trimmed) spec.input_formats) in
      let recognised = f.is_not_null parsed in
      (f.case_when recognised (f.date_format parsed spec.output_format) value, recognised)

  -- The chain of `when`, which ends in `otherwise(value)`.
  unfoldable pub rewritten_by : List RewriteRule → Text → Text
  rewritten_by [] value = value
  rewritten_by (rule ∷ rules) value =
      f.case_when (f.rlike value rule.pattern)
        (f.regexp_replace value rule.pattern rule.replacement) (rewritten_by rules value)

  -- `reduce(or_, matches)`
  unfoldable pub any_rule : Cond → List RewriteRule → Text → Cond
  any_rule so_far [] value = so_far
  any_rule so_far (rule ∷ rules) value =
      any_rule (f.or_ so_far (f.rlike value rule.pattern)) rules value

  unfoldable pub apply_rules : RewriteRule → List RewriteRule → Text → Text × Cond
  unfolding rewritten_by any_rule
  apply_rules first rest value =
      (rewritten_by (first ∷ rest) value, any_rule (f.rlike value first.pattern) rest value)

  module _ (message : List String → String)
      (compile_error format_error : String → Option String) where
    -- `first, *rest = spec.rules` raises where there are no rules, for the first target.
    abbrev pub without_rules : List String → Result (List String) → Result (Row → OutRow)
    unfolding rewrite_columns
    without_rules available (err e) = err e
    without_rules available (ok []) =
        ok (λ row. rewrite_columns f row (λ name value. (value, none)) available [])
    without_rules available (ok (target ∷ targets)) = err unexpected

    unfoldable pub with_rules : List String → List String → List RewriteRule → Result (Row → OutRow)
    unfolding without_rules ensure_rule_patterns apply_rules rewrite_columns require_columns
    with_rules available columns [] =
        without_rules available (require_columns message available columns)
    with_rules available columns (first ∷ rest) =
        after_checks (require_columns message available columns)
          (ensure_rule_patterns compile_error (first ∷ rest))
          (λ targets row.
            rewrite_columns f row (λ name value. apply_rules first rest value) available targets)

    unfoldable pub normalize_format :
        List String → List String → NormalizationSpec → Result (Row → OutRow)
    unfolding with_rules ensure_java_date_formats normalize_date rewrite_columns require_columns
    normalize_format available columns (date_normalization spec) =
        after_checks (require_columns message available columns)
          (ensure_java_date_formats format_error (spec.input_formats ++ spec.output_format ∷ []))
          (λ targets row.
            rewrite_columns f row (λ name value. normalize_date spec value) available targets)
    normalize_format available columns (rule_normalization rules) =
        with_rules available columns rules
