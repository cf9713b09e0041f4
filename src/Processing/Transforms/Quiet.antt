-- ===== src/Processing/Transforms/Quiet.antt =====
-- The rewritings of the transformations: what they do to a value, and that a value without a match
-- stays.
use rhombus_ai.Base.{
  String, Bool, true, false, ◌||◌, ◌≡◌, refl, sym, ap, ◌∙◌, Option, none, some, List, [], ◌∷◌, map,
  if◌then◌else◌, arith, Bool-cases, Option-cases, inl, inr,
}
use rhombus_ai.Llm.Specs.{RewriteRule, DateNormalization}
use rhombus_ai.Processing.Transforms.Functions.{Text, Cond, Functions, IsSpark}
use rhombus_ai.Processing.Transforms.Replace.{replace_in}
use rhombus_ai.Processing.Transforms.Normalize.{normalize_date, rewritten_by, any_rule, apply_rules}
use rhombus_ai.Processing.Transforms.Rows.{IsQuiet}

module _ {Row Date : Type 0} (f : Functions Row Date) (laws : IsSpark f) where
  pub replace_in-IsQuiet : (pattern literal : String) → IsQuiet f (replace_in f pattern literal)
  replace_in-IsQuiet pattern literal none = (
    false,
    rw (laws.rlike-null pattern) (laws.coalesce-null (some false)),
    λ h. laws.replace-null pattern literal,
  )
  replace_in-IsQuiet pattern literal (some v) =
      let (b, is) = laws.rlike-text v pattern in
      (
        b,
        rw is (laws.coalesce-value b (some false)),
        λ no. laws.replace_unmatched v pattern literal (is ∙ ap some no),
      )

  -- The first of the formats that reads the text gives its date.
  unfoldable pub first_date : List String → Text → Option Date
  first_date [] v = none
  first_date (format ∷ formats) v = elim (f.to_date v format) [
    | some d ↦ some d
    | none ↦ first_date formats v
  ]

  coalesce_dates-first_date :
      (formats : List String) (v : Text)
      → f.coalesce_dates (map (f.to_date v) formats) ≡ first_date formats v
  unfolding first_date
  coalesce_dates-first_date [] v = laws.coalesce_dates-nil
  coalesce_dates-first_date (format ∷ formats) v = elim (Option-cases (f.to_date v format)) [
    | inl unread ↦
        rw (unread, first_date) (laws.coalesce_dates-null _ ∙ coalesce_dates-first_date formats v)
    | inr (d, is) ↦ rw (is, first_date) (laws.coalesce_dates-date d _)
  ]

  abbrev pub by_date : String → Option Date → Text → Text × Cond
  by_date format none v = (v, some false)
  by_date format (some d) v = (f.date_format (some d) format, some true)

  -- A value is written as the date that the first fitting input format reads in it, without the
  -- blanks around it; a value that no format reads stays as it is, blanks included.
  pub normalize_date-first_date :
      (spec : DateNormalization) (v : Text)
      → normalize_date f spec v
        ≡ by_date spec.output_format (first_date spec.input_formats (f.trim v)) v
  unfolding normalize_date
  normalize_date-first_date spec v =
      rw (coalesce_dates-first_date spec.input_formats (f.trim v))
        (elim (Option-cases (first_date spec.input_formats (f.trim v))) [
          | inl unread ↦ rw unread (rw laws.is_not_null-null (rw (laws.case_false _ v) refl))
          | inr (d, is) ↦ rw is (rw (laws.is_not_null-date d) (rw (laws.case_true _ v) refl))
        ])

  by_date-IsQuiet :
      (format : String) (read : Option Date) (v : Text)
      → (b : Bool) × (f.coalesce (by_date format read v).1 (some false) ≡ some b)
        × (b ≡ false → (by_date format read v).0 ≡ v)
  by_date-IsQuiet format none v = (false, laws.coalesce-value false (some false), λ h. refl)
  by_date-IsQuiet format (some d) v = (true, laws.coalesce-value true (some false), λ h. cc h)

  pub normalize_date-IsQuiet : (spec : DateNormalization) → IsQuiet f (normalize_date f spec)
  normalize_date-IsQuiet spec v =
      rw (normalize_date-first_date spec v) (by_date-IsQuiet spec.output_format _ v)

  abbrev pub matches : String → String → Bool
  matches v pattern = (laws.rlike-text v pattern).0

  unfoldable pub first_matching : List RewriteRule → String → Option RewriteRule
  first_matching [] v = none
  first_matching (rule ∷ rules) v =
      let rest = first_matching rules v in if matches v rule.pattern then some rule else rest

  abbrev pub by_rule : Option RewriteRule → String → Text × Cond
  by_rule none v = (some v, some false)
  by_rule (some rule) v = (f.regexp_replace (some v) rule.pattern rule.replacement, some true)

  abbrev pub is_some : {A : Type 0} → Option A → Bool
  is_some none = false
  is_some (some a) = true

  rewritten_by-first_matching :
      (rules : List RewriteRule) (v : String)
      → rewritten_by f rules (some v) ≡ (by_rule (first_matching rules v) v).0
  unfolding rewritten_by first_matching
  rewritten_by-first_matching [] v = refl
  rewritten_by-first_matching (rule ∷ rules) v =
      let is = (laws.rlike-text v rule.pattern).1 in
      elim (Bool-cases (matches v rule.pattern)) [
        | inl first ↦ rw (is, rewritten_by) (rw (first, first_matching) (laws.case_true _ _))
        | inr later ↦
            rw (is, rewritten_by)
              (rw (later, first_matching)
                (laws.case_false _ _ ∙ rewritten_by-first_matching rules v))
      ]

  any_rule-first_matching :
      (so_far : Bool) (rules : List RewriteRule) (v : String)
      → any_rule f (some so_far) rules (some v) ≡ some (so_far || is_some (first_matching rules v))
  unfolding any_rule first_matching
  any_rule-first_matching so_far [] v = ground arith
  any_rule-first_matching so_far (rule ∷ rules) v =
      let is = (laws.rlike-text v rule.pattern).1 in
      rw is (
        rw (laws.or_-values so_far (matches v rule.pattern)) (
          any_rule-first_matching (so_far || matches v rule.pattern) rules v
          ∙ ap some (ground arith)))

  rule_count : (rule : Option RewriteRule) (v : String) → (by_rule rule v).1 ≡ some (is_some rule)
  rule_count none v = refl
  rule_count (some rule) v = refl

  -- With the documented functions of Spark, a text is rewritten by the first rule whose pattern
  -- matches it and by no other, and counts as matched; a text that no rule matches stays as it is
  -- and does not count.
  pub apply_rules-first_matching :
      (first : RewriteRule) (rest : List RewriteRule) (v : String)
      → apply_rules f first rest (some v) ≡ by_rule (first_matching (first ∷ rest) v) v
  unfolding apply_rules first_matching
  apply_rules-first_matching first rest v =
      let is = (laws.rlike-text v first.pattern).1 in
      let counted : any_rule f (f.rlike (some v) first.pattern) rest (some v)
          ≡ (by_rule (first_matching (first ∷ rest) v) v).1 =
        rw is (
          any_rule-first_matching (matches v first.pattern) rest v
          ∙ sym (rule_count (first_matching (first ∷ rest) v) v ∙ ap some (ground arith))) in
      let written = rewritten_by-first_matching (first ∷ rest) v in λ i. (written i, counted i)

  null_rules :
      (rules : List RewriteRule)
      → (rewritten_by f rules none ≡ none) × (any_rule f none rules none ≡ none)
  unfolding rewritten_by any_rule
  null_rules [] = (refl, refl)
  null_rules (rule ∷ rules) =
      let (same, none_) = null_rules rules in
      (
        rw (laws.rlike-null rule.pattern, rewritten_by) (laws.case_null _ _ ∙ same),
        rw (laws.rlike-null rule.pattern) (rw laws.or_-nulls none_),
      )

  apply_rules-null :
      (first : RewriteRule) (rest : List RewriteRule) → apply_rules f first rest none ≡ (none, none)
  unfolding apply_rules
  apply_rules-null first rest =
      let (same, ignored) = null_rules (first ∷ rest) in
      let none_ = (null_rules rest).1 in
      rw same (rw (laws.rlike-null first.pattern) (rw none_ refl))

  by_rule-IsQuiet :
      (rule : Option RewriteRule) (v : String)
      → (b : Bool) × (f.coalesce (by_rule rule v).1 (some false) ≡ some b)
        × (b ≡ false → (by_rule rule v).0 ≡ some v)
  by_rule-IsQuiet none v = (false, laws.coalesce-value false (some false), λ h. refl)
  by_rule-IsQuiet (some rule) v = (true, laws.coalesce-value true (some false), λ h. cc h)

  pub apply_rules-IsQuiet :
      (first : RewriteRule) (rest : List RewriteRule) → IsQuiet f (apply_rules f first rest)
  apply_rules-IsQuiet first rest none =
      rw (apply_rules-null first rest) (false, laws.coalesce-null (some false), λ h. refl)
  apply_rules-IsQuiet first rest (some v) =
      rw (apply_rules-first_matching first rest v) (by_rule-IsQuiet _ v)
