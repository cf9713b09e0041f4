-- ===== src/Processing/Schema.antt =====
-- backend/processing/schema.py and `require_columns` of backend/processing/transforms/columns.py.
pub mod Laws
mod Examples
use rhombus_ai.Base.{
  String, Bool, true, false, not, ◌&&◌, List, [], ◌∷◌, any, str_eq, if◌then◌else◌,
}
use rhombus_ai.Failure.{Result, ok, err, processing, column_not_found}

abbrev pub row_id_column : String
row_id_column = "__row_id"

abbrev pub matched_column : String
matched_column = "__matched"

abbrev pub reserved_columns : List String
reserved_columns = row_id_column ∷ matched_column ∷ []

-- `name in names`
abbrev pub contains : List String → String → Bool
contains names name = any (str_eq name) names

-- `column in set(available) - RESERVED_COLUMNS`
abbrev pub is_present : List String → String → Bool
is_present available column = contains available column && not (contains reserved_columns column)

unfoldable pub find_missing_columns : List String → List String → List String
find_missing_columns available [] = []
find_missing_columns available (column ∷ requested) =
    let rest = find_missing_columns available requested in
    if is_present available column then rest else column ∷ rest

-- `dict.fromkeys`: the first occurrence of each name, in order.
unfoldable pub fromkeys_after : List String → List String → List String
fromkeys_after seen [] = []
fromkeys_after seen (name ∷ names) = elim (contains seen name) [
  | true ↦ fromkeys_after seen names
  | false ↦ name ∷ fromkeys_after (name ∷ seen) names
]

unfoldable pub fromkeys : List String → List String
unfolding fromkeys_after
fromkeys names = fromkeys_after [] names

abbrev checked : (missing targets : List String) → (List String → String) → Result (List String)
checked [] targets message = ok targets
checked (m ∷ missing) targets message = err (processing column_not_found (message (m ∷ missing)))

-- The message of `ColumnNotFoundError` is a parameter.
unfoldable pub require_columns :
    (List String → String) → List String → List String → Result (List String)
unfolding fromkeys find_missing_columns
require_columns message available columns =
    let targets = fromkeys columns in
    checked (find_missing_columns available targets) targets message
