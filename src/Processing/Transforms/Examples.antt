-- ===== src/Processing/Transforms/Examples.antt =====
-- Functions on texts in which one pattern matches one text, and a row of two columns.
use Prim.Native.String as Text
use Prim.Native.Char.{Char, code}
use rhombus_ai.Base.{
  String, Bool, true, false, not, ◌||◌, ◌≡◌, ◌≢◌, refl, Option, none, some, List, [], ◌∷◌, ◌==◌,
  str_eq, if◌then◌else◌, Bool-cases, inl, inr, arith,
}
use rhombus_ai.Processing.Schema.{find_missing_columns, fromkeys, fromkeys_after}
use rhombus_ai.Llm.Specs.{RewriteRule, DateNormalization, date_normalization}
use rhombus_ai.Llm.Pii.{PiiMaskingSpec, identifier}
use rhombus_ai.Processing.Transforms.Functions.{Text, Cond, Functions, IsSpark}
use rhombus_ai.Processing.Transforms.Replace.{escape_replacement, regex_replace}
use rhombus_ai.Processing.Transforms.Normalize.{
  ensure_java_date_formats, apply_rules, normalize_format,
}
use rhombus_ai.Processing.Transforms.Escape.{IsExpansion, expand-escape_replacement}
use rhombus_ai.Processing.Transforms.Quiet.{first_matching, apply_rules-first_matching}
use rhombus_ai.Processing.Transforms.Built.{Writes, regex_replace-Writes, normalize_format-Writes}

abbrev Row : Type 0
Row = String → Option String

abbrev lifted_rlike : Text → String → Cond
lifted_rlike none p = none
lifted_rlike (some v) p = some (str_eq v p)

abbrev lifted_replace : Text → String → String → Text
lifted_replace none p r = none
lifted_replace (some v) p r = some (if str_eq v p then r else v)

abbrev case_of : Cond → Text → Text → Text
case_of (some true) a b = a
case_of (some false) a b = b
case_of none a b = b

abbrev is_none : {A : Type 0} → Option A → Bool
is_none none = true
is_none (some a) = false

abbrev lifted_differs : Text → Text → Cond
lifted_differs none w = none
lifted_differs (some v) none = none
lifted_differs (some v) (some w) = some (not (str_eq v w))

abbrev sql_or : Cond → Cond → Cond
sql_or (some true) c = some true
sql_or (some false) c = c
sql_or none (some true) = some true
sql_or none (some false) = none
sql_or none none = none

abbrev or_else : {A : Type 0} → Option A → Option A → Option A
or_else none b = b
or_else (some a) b = some a

abbrev first_some : {A : Type 0} → List (Option A) → Option A
first_some [] = none
first_some (o ∷ os) = or_else o (first_some os)

-- The only date is written "1 May" with the format "d MMM".
abbrev read_date : Text → String → Option (Unit {0})
read_date none format = none
read_date (some v) format =
    if str_eq format "d MMM" then (if str_eq v "1 May" then some tt else none) else none

abbrev functions : Functions Row (Unit {0})
functions = record {
  col = λ name row. row name;
  rlike = lifted_rlike;
  regexp_replace = lifted_replace;
  case_when = case_of;
  is_null = λ v. some (is_none v);
  differs = lifted_differs;
  or_ = sql_or;
  coalesce = or_else;
  trim = λ v. v;
  to_date = read_date;
  coalesce_dates = first_some;
  is_not_null = λ d. some (not (is_none d));
  date_format = λ d format. some "05-01";
}

unmatched_stays :
    (v p r : String)
    → ◌≡◌ {A = Cond} (some (str_eq v p)) (some false)
    → ◌≡◌ {A = Text} (some (if str_eq v p then r else v)) (some v)
unmatched_stays v p r h = elim (Bool-cases (str_eq v p)) [
  | inl same ↦ cc (h, same)
  | inr other ↦ rw other refl
]

or_-values_lem : (a b : Bool) → sql_or (some a) (some b) ≡ some (a || b)
or_-values_lem true b = refl
or_-values_lem false b = refl

functions-IsSpark : IsSpark functions
functions-IsSpark = record {
  rlike-null = λ p. refl;
  rlike-text = λ v p. (str_eq v p, refl);
  replace-null = λ p r. refl;
  replace-text = λ v p r. ((if str_eq v p then r else v), refl);
  replace_unmatched = unmatched_stays;
  case_true = λ a b. refl;
  case_false = λ a b. refl;
  case_null = λ a b. refl;
  is_null-null = refl;
  is_null-text = λ v. refl;
  differs-null = λ v. refl;
  differs-texts = λ v w. refl;
  or_-values = or_-values_lem;
  or_-nulls = refl;
  coalesce-null = λ b. refl;
  coalesce-value = λ a b. refl;
  is_not_null-null = refl;
  is_not_null-date = λ d. refl;
  coalesce_dates-nil = refl;
  coalesce_dates-null = λ ds. refl;
  coalesce_dates-date = λ d ds. refl;
}

abbrev source_columns : List String
source_columns = "name" ∷ "day" ∷ []

abbrev no_error : String → Option String
no_error text = none

abbrev listed : List String → String
listed names = "missing"

regex_replace-Writes_example :
    Writes functions listed source_columns
      ("name" ∷ [])
      (regex_replace functions listed no_error source_columns ("name" ∷ []) "Ada" "$1")
unfolding find_missing_columns fromkeys fromkeys_after
regex_replace-Writes_example =
    regex_replace-Writes functions listed source_columns functions-IsSpark no_error ("name" ∷ [])
      "Ada" "$1" refl refl

abbrev names_are_personal : PiiMaskingSpec
names_are_personal = ("name", identifier ∷ []) ∷ []

abbrev days : DateNormalization
days = record { input_formats = "yyyy" ∷ "d MMM" ∷ []; output_format = "MM-dd" }

normalize_format-Writes_example : Writes functions listed source_columns ("day" ∷ []) (
    normalize_format functions listed no_error no_error source_columns
      ("day" ∷ [])
      (date_normalization days))
unfolding find_missing_columns fromkeys fromkeys_after ensure_java_date_formats
normalize_format-Writes_example =
    normalize_format-Writes functions listed source_columns functions-IsSpark no_error no_error
      ("day" ∷ []) (date_normalization days) refl refl

abbrev ada_rule : RewriteRule
ada_rule = record { pattern = "Ada"; replacement = "A." }

abbrev other_rule : RewriteRule
other_rule = record { pattern = "Ada"; replacement = "B." }

apply_rules-first_matching_example :
    apply_rules functions ada_rule (other_rule ∷ []) (some "Ada") ≡ (some "A.", some true)
unfolding first_matching functions-IsSpark
apply_rules-first_matching_example =
    apply_rules-first_matching functions functions-IsSpark ada_rule (other_rule ∷ []) "Ada"

-- The reading of a replacement without group references.
abbrev after_backslash : String → String → String
after_backslash Text.[] rest = ""
after_backslash (Text.◌∷◌ c s) rest = Text.◌∷◌ c rest

unfoldable expand : String → String
expand Text.[] = ""
expand (Text.◌∷◌ b Text.[]) = if code b == b'\\' then "" else Text.◌∷◌ b ""
expand (Text.◌∷◌ b (Text.◌∷◌ c s)) =
    let literal = Text.◌∷◌ c (expand s) in
    let further = Text.◌∷◌ b (expand (Text.◌∷◌ c s)) in if code b == b'\\' then literal else further

expand_plain :
    (c : Char) (s : String)
    → code c ≢ b'\\'
    → code c ≢ b'$'
    → expand (Text.◌∷◌ c s) ≡ Text.◌∷◌ c (expand s)
unfolding expand
expand_plain c Text.[] h k = ground arith
expand_plain c (Text.◌∷◌ d s) h k = ground arith

expand-IsExpansion : IsExpansion expand
unfolding expand
expand-IsExpansion = record { ends = refl; escaped = λ c s. refl; plain = expand_plain }

expand-escape_replacement_example : expand (escape_replacement "$1\\n") ≡ "$1\\n"
expand-escape_replacement_example = expand-escape_replacement expand "$1\\n" expand-IsExpansion
