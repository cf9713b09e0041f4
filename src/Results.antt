-- ===== src/Results.antt =====
-- backend/apps/jobs/results.py: pages of a job's Parquet output. DuckDB is a parameter: what it
-- answers to the two queries, or that it raises.
pub mod Slices
pub mod Pages
mod Examples
use rhombus_ai.Base.{
  ℕ, suc, ◌+◌, ◌-◌, ◌*◌, ◌/◌, min, max, String, Bool, true, false, not, Option, none, some, List,
  [], ◌∷◌, map, any, str_eq, if◌then◌else◌,
}
use rhombus_ai.Failure.{Result, ok, err, domain, results_unavailable}
use rhombus_ai.Processing.Schema.{contains, reserved_columns, matched_column}

abbrev pub max_page_size : ℕ
max_page_size = 500

-- A record of the output: the value of its row id column, and all its cells in column order.
abbrev pub Record : Type 0 → Type 0
Record Cell = ℕ × List Cell

pub record ResultRow (Cell : Type 0) : Type 0 where
  pub row_number : ℕ
  pub matched : Bool
  pub values : List Cell

pub record ResultsPage (Cell : Type 0) : Type 0 where
  pub columns : List String
  pub rows : List (ResultRow Cell)
  pub page : ℕ
  pub page_size : ℕ
  pub total_rows : ℕ

-- `max(1, math.ceil(total_rows / page_size))`
unfoldable pub total_pages : {Cell : Type 0} → ResultsPage Cell → ℕ
total_pages p = max 1 ((p.total_rows + p.page_size - 1) / p.page_size)

-- The two queries: the least and greatest id of a page, none of an empty one, and the records with
-- an id between two bounds, with the column names. `none` is a `duckdb.Error`.
pub record Output (Cell : Type 0) : Type 0 where
  pub names : List String
  pub id_range : ℕ → ℕ → Option (Option (ℕ × ℕ))
  pub between : Option (ℕ × ℕ) → Option (List (Record Cell))
  pub truthy : Cell → Bool

-- `[names[index] for index in data_indexes]`
unfoldable pub data_columns : List String → List String
data_columns [] = []
data_columns (name ∷ names) =
    let rest = data_columns names in if contains reserved_columns name then rest else name ∷ rest

module _ {Cell : Type 0} where
  -- `[record[index] for index in data_indexes]`, of a record as long as the names
  unfoldable pub data_cells : List String → List Cell → List Cell
  data_cells [] cells = []
  data_cells (name ∷ names) [] = []
  data_cells (name ∷ names) (cell ∷ cells) =
      let rest = data_cells names cells in
      if contains reserved_columns name then rest else cell ∷ rest

  -- `bool(record[matched_index])`, at the first column of that name
  unfoldable pub matched_cell : (Cell → Bool) → List String → List Cell → Bool
  matched_cell truthy [] cells = false
  matched_cell truthy (name ∷ names) [] = false
  matched_cell truthy (name ∷ names) (cell ∷ cells) =
      let rest = matched_cell truthy names cells in
      if str_eq matched_column name then truthy cell else rest

  -- `enumerate(records)` from a position
  unfoldable pub result_rows : Output Cell → ℕ → ℕ → List (Record Cell) → List (ResultRow Cell)
  unfolding data_cells matched_cell
  result_rows out offset position [] = []
  result_rows out offset position ((id, cells) ∷ records) =
      record {
        row_number = offset + position + 1;
        matched = matched_cell out.truthy out.names cells;
        values = data_cells out.names cells;
      }
      ∷ result_rows out offset (suc position) records

  build_page : Output Cell → ℕ → ℕ → ℕ → Option (List (Record Cell)) → Result (ResultsPage Cell)
  build_page out page page_size total_rows none = err (domain results_unavailable "")
  build_page out page page_size total_rows (some records) = ok (record {
    columns = data_columns out.names;
    rows = result_rows out ((page - 1) * page_size) 0 records;
    page = page;
    page_size = page_size;
    total_rows = total_rows;
  })

  fetch : Output Cell → Option (Option (ℕ × ℕ)) → Option (List (Record Cell))
  fetch out none = none
  fetch out (some range) = out.between range

  unfoldable pub read_results_page : Output Cell → ℕ → ℕ → ℕ → Result (ResultsPage Cell)
  unfolding build_page fetch
  read_results_page out total_rows page page_size =
      let page = max 1 page in
      let page_size = max 1 (min page_size max_page_size) in
      let offset = (page - 1) * page_size in
      build_page out page page_size total_rows (fetch out (out.id_range page_size offset))
