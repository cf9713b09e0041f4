-- ===== src/Processing/Transforms/Built.antt =====
-- The rows that each transformation writes.
use rhombus_ai.Base.{String, ◌≡◌, ◌≢◌, refl, Option, none, List, [], ◌∷◌, ◌++◌}
use rhombus_ai.Failure.{Result, ok}
use rhombus_ai.Processing.Schema.{find_missing_columns, fromkeys, require_columns}
use rhombus_ai.Llm.Specs.{NormalizationSpec, date_normalization, rule_normalization}
use rhombus_ai.Processing.Transforms.Functions.{Text, Cond, Functions, IsSpark}
use rhombus_ai.Processing.Transforms.Columns.{OutRow, rewrite_columns}
use rhombus_ai.Processing.Transforms.Replace.{
  escape_replacement, after_checks, ensure_java_pattern, regex_replace,
}
use rhombus_ai.Processing.Transforms.Normalize.{
  ensure_java_date_formats, ensure_rule_patterns, with_rules, normalize_format,
}
use rhombus_ai.Processing.Transforms.Rows.{IsQuiet, IsRewritten, rewrite_columns-IsRewritten}
use rhombus_ai.Processing.Transforms.Quiet.{
  replace_in-IsQuiet, normalize_date-IsQuiet, apply_rules-IsQuiet,
}

module _ {Row Date : Type 0} (f : Functions Row Date) (message : List String → String)
    (available : List String) where
  -- The transformation is built, and every row that it writes is the source's, rewritten.
  abbrev pub Writes : List String → Result (Row → OutRow) → Type 0
  Writes columns built =
      (transform : Row → OutRow) × (built ≡ ok transform)
      × ((row : Row) → IsRewritten f available (fromkeys columns) row (transform row))

  present :
      (columns : List String)
      → find_missing_columns available (fromkeys columns) ≡ []
      → require_columns message available columns ≡ ok (fromkeys columns)
  unfolding require_columns
  present columns h = rw h refl

  module _ (laws : IsSpark f) where
    built-Writes :
        (columns : List String) (checks : Result (Unit {0})) (rewrite : String → Text → Text × Cond)
        → ((name : String) → IsQuiet f (rewrite name))
        → find_missing_columns available (fromkeys columns) ≡ []
        → checks ≡ ok tt
        → Writes columns (
            after_checks
              (require_columns message available columns)
              checks
              (λ targets row. rewrite_columns f row rewrite available targets))
    built-Writes columns checks rewrite quiet h k = (
      (λ row. rewrite_columns f row rewrite available (fromkeys columns)),
      rw (present columns h) (rw k refl),
      λ row. rewrite_columns-IsRewritten f laws rewrite quiet row available (fromkeys columns),
    )

    -- With all columns in the source, a pattern that Java compiles and the documented functions of
    -- Spark, find and replace is built and writes every row with its columns in order, the other
    -- columns as they were, a match that is never null, and a row without a match as it was read.
    pub regex_replace-Writes :
        (compile_error : String → Option String) (columns : List String)
        (pattern replacement : String)
        → find_missing_columns available (fromkeys columns) ≡ []
        → compile_error pattern ≡ none
        → Writes columns
            (regex_replace f message compile_error available columns pattern replacement)
    unfolding regex_replace
    regex_replace-Writes compile_error columns pattern replacement h k =
        built-Writes columns (ensure_java_pattern compile_error pattern) _
          (λ name. replace_in-IsQuiet f laws pattern (escape_replacement replacement)) h
          (rw (k, ensure_java_pattern) refl)

    -- What the JVM checks of a specification: that it has rules, all of whose patterns compile, or
    -- that its date formats are all read.
    abbrev pub Accepted :
        (compile_error format_error : String → Option String) → NormalizationSpec → Type 0
    Accepted compile_error format_error (date_normalization spec) =
        ensure_java_date_formats format_error (spec.input_formats ++ spec.output_format ∷ [])
        ≡ ok tt
    Accepted compile_error format_error (rule_normalization rules) =
        (rules ≢ []) × (ensure_rule_patterns compile_error rules ≡ ok tt)

    -- With all columns in the source, a specification that the JVM accepts and the documented
    -- functions of Spark, a normalization by dates or rules is built and writes every row with its
    -- columns in order, the other columns as they were, a match that is never null, and a row
    -- without a match as it was read.
    pub normalize_format-Writes :
        (compile_error format_error : String → Option String) (columns : List String)
        (spec : NormalizationSpec)
        → find_missing_columns available (fromkeys columns) ≡ []
        → Accepted compile_error format_error spec
        → Writes columns
            (normalize_format f message compile_error format_error available columns spec)
    unfolding normalize_format with_rules
    normalize_format-Writes compile_error format_error columns (date_normalization spec) h k =
        built-Writes columns
          (ensure_java_date_formats format_error (spec.input_formats ++ spec.output_format ∷ [])) _
          (λ name. normalize_date-IsQuiet f laws spec) h k
    normalize_format-Writes compile_error format_error columns (rule_normalization []) h k =
        absurd (k.0 refl)
    normalize_format-Writes compile_error format_error columns (rule_normalization (first ∷ rest)) h
          k =
        built-Writes columns (ensure_rule_patterns compile_error (first ∷ rest)) _
          (λ name. apply_rules-IsQuiet f laws first rest) h k.1
