-- ===== src/Llm/Pii.antt =====
-- `pii_spec_from_suggestion` of backend/apps/llm/service.py. A set of kinds is a list of its
-- members, the dictionary an association list.
use rhombus_ai.Base.{
  String, true, ◌≡◌, Option, none, some, List, [], ◌∷◌, ◌++◌, str_eq, if◌then◌else◌, Bool-cases,
  inl, inr,
}
use rhombus_ai.Processing.Schema.{contains}

pub data PiiType : Type 0 where
  email phone person_name credit_card identifier address other : PiiType

-- An answer for one column; `none` is the name "none".
pub record PiiColumn : Type 0 where
  pub column : String
  pub pii_types : List (Option PiiType)

abbrev pub PiiMaskingSpec : Type 0
PiiMaskingSpec = List (String × List PiiType)

unfoldable pub named_types : List (Option PiiType) → List PiiType
named_types [] = []
named_types (none ∷ names) = named_types names
named_types (some t ∷ names) = t ∷ named_types names

-- `columns[c] = columns.get(c, frozenset()) | types`
unfoldable pub add_types : String → List PiiType → PiiMaskingSpec → PiiMaskingSpec
add_types c types [] = (c, types) ∷ []
add_types c types ((d, ts) ∷ spec) =
    let rest = add_types c types spec in
    if str_eq c d then (d, ts ++ types) ∷ spec else (d, ts) ∷ rest

unfoldable pub keep_types : List String → String → List PiiType → PiiMaskingSpec → PiiMaskingSpec
unfolding add_types
keep_types allowed c [] spec = spec
keep_types allowed c (t ∷ types) spec =
    if contains allowed c then add_types c (t ∷ types) spec else spec

-- The loop over `parsed.columns` with the dictionary.
unfoldable pub add_columns : List String → List PiiColumn → PiiMaskingSpec → PiiMaskingSpec
unfolding keep_types named_types
add_columns allowed [] spec = spec
add_columns allowed (item ∷ items) spec =
    add_columns allowed items (keep_types allowed item.column (named_types item.pii_types) spec)

unfoldable pub pii_spec_from_suggestion : List PiiColumn → List String → PiiMaskingSpec
unfolding add_columns
pii_spec_from_suggestion items allowed = add_columns allowed items []

-- Every column of the specification was requested and has some kind of personal data.
abbrev pub IsMaskingOf : List String → PiiMaskingSpec → Type 0
IsMaskingOf allowed [] = Unit
IsMaskingOf allowed ((c, []) ∷ spec) = ⊥
IsMaskingOf allowed ((c, t ∷ ts) ∷ spec) = (contains allowed c ≡ true) × IsMaskingOf allowed spec

add_types-IsMaskingOf :
    (allowed : List String) (c : String) (t : PiiType) (types : List PiiType)
    (spec : PiiMaskingSpec)
    → contains allowed c ≡ true
    → IsMaskingOf allowed spec
    → IsMaskingOf allowed (add_types c (t ∷ types) spec)
unfolding add_types
add_types-IsMaskingOf allowed c t types [] h m = (h, tt)
add_types-IsMaskingOf allowed c t types ((d, []) ∷ spec) h m = absurd m
add_types-IsMaskingOf allowed c t types ((d, u ∷ us) ∷ spec) h m = elim (Bool-cases (str_eq c d)) [
  | inl same ↦ rw same m
  | inr other_ ↦ rw other_ (m.0, add_types-IsMaskingOf allowed c t types spec h m.1)
]

keep_types-IsMaskingOf :
    (allowed : List String) (c : String) (types : List PiiType) (spec : PiiMaskingSpec)
    → IsMaskingOf allowed spec
    → IsMaskingOf allowed (keep_types allowed c types spec)
unfolding keep_types
keep_types-IsMaskingOf allowed c [] spec m = m
keep_types-IsMaskingOf allowed c (t ∷ types) spec m = elim (Bool-cases (contains allowed c)) [
  | inl yes_ ↦ rw yes_ (add_types-IsMaskingOf allowed c t types spec yes_ m)
  | inr no_ ↦ rw no_ m
]

add_columns-IsMaskingOf :
    (allowed : List String) (items : List PiiColumn) (spec : PiiMaskingSpec)
    → IsMaskingOf allowed spec
    → IsMaskingOf allowed (add_columns allowed items spec)
unfolding add_columns
add_columns-IsMaskingOf allowed [] spec m = m
add_columns-IsMaskingOf allowed (item ∷ items) spec m =
    add_columns-IsMaskingOf allowed items _ (keep_types-IsMaskingOf allowed _ _ spec m)

-- Whatever the model answers, every column of the masking specification is one of the requested
-- columns and has at least one kind of personal data.
pub pii_spec_from_suggestion-IsMaskingOf :
    (items : List PiiColumn) (allowed : List String)
    → IsMaskingOf allowed (pii_spec_from_suggestion items allowed)
unfolding pii_spec_from_suggestion
pii_spec_from_suggestion-IsMaskingOf items allowed = add_columns-IsMaskingOf allowed items [] tt
