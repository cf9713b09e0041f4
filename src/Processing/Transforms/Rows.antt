-- ===== src/Processing/Transforms/Rows.antt =====
-- What `rewrite_columns` leaves alone.
use rhombus_ai.Base.{
  String, Bool, true, false, ◌||◌, ◌≡◌, refl, ap, ◌∙◌, some, List, [], ◌∷◌, map, All, str_eq,
  eq_iff, or_false, arith, Bool-cases, inl, inr,
}
use rhombus_ai.Processing.Schema.{contains}
use rhombus_ai.Processing.Transforms.Functions.{Text, Cond, Functions, IsSpark}
use rhombus_ai.Processing.Transforms.Columns.{
  OutRow, cell, rewritten, projected, any_match, rewrite_columns,
}

contains-All :
    (P : String → Type 0) (names : List String) (name : String)
    → All P names
    → contains names name ≡ true
    → P name
contains-All P [] name h k = cc k
contains-All P (x ∷ xs) name h k = elim (Bool-cases (str_eq name x)) [
  | inl same ↦ rw ((eq_iff name x).0 same) h.0
  | inr other ↦ contains-All P xs name h.1 (ground (arith, other, k))
]

module _ {Row Date : Type 0} (f : Functions Row Date) where
  -- Whether a value matched is known once a null counts as no, and a value that did not match stays.
  abbrev pub IsQuiet : (Text → Text × Cond) → Type 0
  IsQuiet rewrite =
      (v : Text)
      → (b : Bool) × (f.coalesce (rewrite v).1 (some false) ≡ some b)
        × (b ≡ false → (rewrite v).0 ≡ v)

  abbrev pub source_row : Row → List String → List (String × Text)
  source_row row columns = map (λ name. (name, cell f row name)) columns

  -- The columns keep their names and order; the columns that are no targets keep their values; the
  -- match is never null; and a row without a match is as it was read.
  pub record IsRewritten (columns targets : List String) (row : Row) (out : OutRow) : Type 0 where
    pub names : map (λ c. c.0) out.cells ≡ columns
    pub others : All (λ c. contains targets c.0 ≡ false → c.1 ≡ cell f row c.0) out.cells
    pub matches : Bool
    pub known : out.matched ≡ some matches
    pub untouched : matches ≡ false → out.cells ≡ source_row row columns

  module _ (laws : IsSpark f) (rewrite : String → Text → Text × Cond)
      (quiet : (name : String) → IsQuiet (rewrite name)) (row : Row) where
    abbrev NoMatch : String → Type 0
    NoMatch name = f.coalesce (rewritten f row rewrite name).1 (some false) ≡ some false

    abbrev Answer : Bool → List String → Type 0
    Answer so_far targets =
        (b : Bool) × (any_match f row rewrite (some so_far) targets ≡ some b)
        × (b ≡ false → (so_far ≡ false) × All NoMatch targets)

    any_match-Answer : (so_far : Bool) (targets : List String) → Answer so_far targets
    unfolding any_match
    any_match-Answer so_far [] = (so_far, refl, λ h. (h, tt))
    any_match-Answer so_far (name ∷ targets) =
        let (b, is, stays) = quiet name (cell f row name) in
        let (all_, answer, none_) = any_match-Answer (so_far || b) targets in
        (
          all_,
          rw is (rw (laws.or_-values so_far b) answer),
          λ h.
              let (before, rest) = none_ h in
              ((or_false so_far b before).0, (is ∙ ap some (or_false so_far b before).1, rest)),
        )

    cells_names :
        (targets columns : List String)
        → map (λ c. c.0) (map (projected f row rewrite targets) columns) ≡ columns
    cells_names targets [] = refl
    cells_names targets (name ∷ columns) = ap (λ zs. name ∷ zs) (cells_names targets columns)

    cells_others :
        (targets columns : List String)
        → All
            (λ c. contains targets c.0 ≡ false → c.1 ≡ cell f row c.0)
            (map (projected f row rewrite targets) columns)
    cells_others targets [] = tt
    cells_others targets (name ∷ columns) = ((λ h. rw h refl), cells_others targets columns)

    cells_untouched :
        (targets columns : List String)
        → All NoMatch targets
        → map (projected f row rewrite targets) columns ≡ source_row row columns
    cells_untouched targets [] h = refl
    cells_untouched targets (name ∷ columns) h = elim (Bool-cases (contains targets name)) [
      | inl target ↦
          let (b, is, stays) = quiet name (cell f row name) in
          let none_ : NoMatch name = contains-All NoMatch targets name h target in
          let no : b ≡ false = cc (is, none_) in
          rw target (
            rw (stays no)
              (ap (λ zs. (name, cell f row name) ∷ zs) (cells_untouched targets columns h)))
      | inr other ↦
          rw other (ap (λ zs. (name, cell f row name) ∷ zs) (cells_untouched targets columns h))
    ]

    pub rewrite_columns-IsRewritten :
        (columns targets : List String)
        → IsRewritten columns targets row (rewrite_columns f row rewrite columns targets)
    unfolding rewrite_columns
    rewrite_columns-IsRewritten columns targets =
        let (b, answer, none_) = any_match-Answer false targets in
        record {
          names = cells_names targets columns;
          others = cells_others targets columns;
          matches = b;
          known = answer;
          untouched = λ h. cells_untouched targets columns (none_ h).1;
        }
