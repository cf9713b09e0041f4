-- ===== src/Processing/Sampling/Examples.antt =====
-- A sample of two columns from three rows.
use rhombus_ai.Base.{ℕ, String, ◌≡◌, refl, Option, none, some, List, [], ◌∷◌}
use rhombus_ai.Failure.{Result, ok}
use rhombus_ai.Processing.Schema.{find_missing_columns, fromkeys, fromkeys_after, require_columns}
use rhombus_ai.Processing.Sampling.{
  sample_column_values, sampled, add_rows, add_row, add_value, sample_text, first_characters,
}
use rhombus_ai.Processing.Sampling.Bounds.{Returns, sample_column_values-Returns}

abbrev rows : List (List (Option String))
rows = (some "a" ∷ none ∷ []) ∷ (some "a" ∷ some "x" ∷ []) ∷ (some "b" ∷ some "" ∷ []) ∷ []

abbrev unstripped : String → String
unstripped s = s

abbrev listed : List String → String
listed names = "missing"

abbrev collected : List String → ℕ → Result (List (List (Option String)))
collected targets n = ok rows

sample_of_three :
    sample_column_values unstripped 1 listed collected ("p" ∷ "q" ∷ []) ("p" ∷ "q" ∷ "p" ∷ []) 1000
    ≡ ok (("p", "a" ∷ []) ∷ ("q", "x" ∷ []) ∷ [])
unfolding sample_column_values sampled add_rows add_row add_value sample_text first_characters
    require_columns find_missing_columns fromkeys fromkeys_after
sample_of_three = refl

sample_column_values-Returns_example : Returns unstripped 1 ("p" ∷ "q" ∷ []) (
    sample_column_values unstripped 1 listed collected ("p" ∷ "q" ∷ []) ("p" ∷ "q" ∷ "p" ∷ []) 1000)
unfolding find_missing_columns fromkeys fromkeys_after
sample_column_values-Returns_example =
    sample_column_values-Returns unstripped 1 listed collected ("p" ∷ "q" ∷ [])
      ("p" ∷ "q" ∷ "p" ∷ []) 1000 rows refl refl (refl, (refl, (refl, tt)))
