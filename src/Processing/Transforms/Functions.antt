-- ===== src/Processing/Transforms/Functions.antt =====
-- The functions of `pyspark.sql` that the transformations call, on the value that a column has in a
-- row, with what Spark documents of them. A value or a condition that is `none` is a null.
use rhombus_ai.Base.{
  String, Bool, true, false, not, ◌||◌, ◌≡◌, Option, none, some, List, [], ◌∷◌, str_eq,
}

abbrev pub Text : Type 0
Text = Option String

abbrev pub Cond : Type 0
Cond = Option Bool

-- `case_when c a b` is `F.when(c, a).otherwise(b)`; a chain of `when` nests it.
pub record Functions (Row Date : Type 0) : Type 0 where
  pub col : String → Row → Text
  pub rlike : Text → String → Cond
  pub regexp_replace : Text → String → String → Text
  pub case_when : Cond → Text → Text → Text
  pub is_null : Text → Cond
  pub differs : Text → Text → Cond
  pub or_ : Cond → Cond → Cond
  pub coalesce : Cond → Cond → Cond
  pub trim : Text → Text
  pub to_date : Text → String → Option Date
  pub coalesce_dates : List (Option Date) → Option Date
  pub is_not_null : Option Date → Cond
  pub date_format : Option Date → String → Text

-- A condition on nulls is null, but `isNull` and `isNotNull` never are; a null is no case of `when`;
-- and a text in which a pattern does not match is not changed by replacing it.
pub record IsSpark {Row Date : Type 0} (f : Functions Row Date) : Type 0 where
  pub rlike-null : (p : String) → f.rlike none p ≡ none
  pub rlike-text : (v p : String) → (b : Bool) × (f.rlike (some v) p ≡ some b)
  pub replace-null : (p r : String) → f.regexp_replace none p r ≡ none
  pub replace-text : (v p r : String) → (w : String) × (f.regexp_replace (some v) p r ≡ some w)
  pub replace_unmatched :
      (v p r : String) → f.rlike (some v) p ≡ some false → f.regexp_replace (some v) p r ≡ some v
  pub case_true : (a b : Text) → f.case_when (some true) a b ≡ a
  pub case_false : (a b : Text) → f.case_when (some false) a b ≡ b
  pub case_null : (a b : Text) → f.case_when none a b ≡ b
  pub is_null-null : f.is_null none ≡ some true
  pub is_null-text : (v : String) → f.is_null (some v) ≡ some false
  pub differs-null : (v : Text) → f.differs none v ≡ none
  pub differs-texts : (v w : String) → f.differs (some v) (some w) ≡ some (not (str_eq v w))
  pub or_-values : (a b : Bool) → f.or_ (some a) (some b) ≡ some (a || b)
  pub or_-nulls : f.or_ none none ≡ none
  pub coalesce-null : (b : Cond) → f.coalesce none b ≡ b
  pub coalesce-value : (a : Bool) (b : Cond) → f.coalesce (some a) b ≡ some a
  pub is_not_null-null : f.is_not_null none ≡ some false
  pub is_not_null-date : (d : Date) → f.is_not_null (some d) ≡ some true
  pub coalesce_dates-nil : f.coalesce_dates [] ≡ none
  pub coalesce_dates-null :
      (ds : List (Option Date)) → f.coalesce_dates (none ∷ ds) ≡ f.coalesce_dates ds
  pub coalesce_dates-date :
      (d : Date) (ds : List (Option Date)) → f.coalesce_dates (some d ∷ ds) ≡ some d
