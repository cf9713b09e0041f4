-- ===== src/Processing/Sampling.antt =====
-- backend/processing/sampling.py. `str.strip` and the rows that Spark collects are parameters.
pub mod Bounds
mod Examples
use Prim.Native.String as Text
use rhombus_ai.Base.{
  ℕ, zero, suc, String, Bool, true, false, not, ◌&&◌, Option, none, some, List, [], ◌∷◌, ◌++◌, map,
  length, ltb, str_eq, if◌then◌else◌,
}
use rhombus_ai.Failure.{Result, ok, err, unexpected}
use rhombus_ai.Processing.Schema.{contains, require_columns}

abbrev pub sample_limit : ℕ
sample_limit = 1000

abbrev pub max_values_per_column : ℕ
max_values_per_column = 20

abbrev pub max_value_length : ℕ
max_value_length = 200

-- `text[:n]`
unfoldable pub first_characters : ℕ → String → String
first_characters zero s = ""
first_characters (suc n) Text.[] = ""
first_characters (suc n) (Text.◌∷◌ c s) = Text.◌∷◌ c (first_characters n s)

-- The dictionary by columns, in the order of the targets.
abbrev pub Samples : Type 0
Samples = List (String × List String)

module _ (strip : String → String) (max_values : ℕ) where
  unfoldable pub sample_text : Option String → String
  unfolding first_characters
  sample_text none = ""
  sample_text (some value) = first_characters max_value_length (strip value)

  unfoldable pub add_value : List String → Option String → List String
  unfolding sample_text
  add_value values value =
      let text = sample_text value in
      if not (str_eq text "") && ltb (length values) max_values && not (contains values text)
      then values ++ text ∷ []
      else values

  -- One row; `zip` is strict.
  abbrev pub with_column : String → List String → Option Samples → Option Samples
  with_column name values none = none
  with_column name values (some samples) = some ((name, values) ∷ samples)

  unfoldable pub add_row : Samples → List (Option String) → Option Samples
  unfolding add_value
  add_row [] [] = some []
  add_row [] (value ∷ row) = none
  add_row (column ∷ samples) [] = none
  add_row ((name, values) ∷ samples) (value ∷ row) =
      with_column name (add_value values value) (add_row samples row)

  unfoldable pub add_rows : Samples → List (List (Option String)) → Result Samples
  unfolding add_row
  add_rows samples [] = ok samples
  add_rows samples (row ∷ rows) = elim (add_row samples row) [
    | none ↦ err unexpected
    | some samples' ↦ add_rows samples' rows
  ]

  abbrev pub no_values : List String → Samples
  no_values targets = map (λ name. (name, [])) targets

  -- `collect targets n` is `df.select(…).limit(n).collect()`.
  unfoldable pub sampled :
      (List String → ℕ → Result (List (List (Option String))))
      → ℕ
      → Result (List String)
      → Result Samples
  unfolding add_rows
  sampled collect sample_rows (err e) = err e
  sampled collect sample_rows (ok targets) = elim (collect targets sample_rows) [
    | err e ↦ err e
    | ok rows ↦ add_rows (no_values targets) rows
  ]

  unfoldable pub sample_column_values :
      (List String → String)
      → (List String → ℕ → Result (List (List (Option String))))
      → List String
      → List String
      → ℕ
      → Result Samples
  unfolding sampled require_columns
  sample_column_values message collect available columns sample_rows =
      sampled collect sample_rows (require_columns message available columns)
