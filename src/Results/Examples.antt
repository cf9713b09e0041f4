-- ===== src/Results/Examples.antt =====
-- An output of three records, in pages of two.
use rhombus_ai.Base.{
  ℕ, Bool, ◌≡◌, refl, List, [], ◌∷◌, some, true, false, take, drop, zero, suc, arith,
}
use rhombus_ai.Failure.{ok}
use rhombus_ai.Results.{
  Record, ResultsPage, Output, result_rows, data_columns, total_pages, read_results_page,
}
use rhombus_ai.Results.Slices.{id_bounds, select_between}
use rhombus_ai.Results.Pages.{IsOutputOf, read_results_page-slice, rows_of_pages, rows_of_pages-all}

abbrev three_records : List (Record ℕ)
three_records = (4, 4 ∷ 1 ∷ 70 ∷ []) ∷ (9, 9 ∷ 0 ∷ 71 ∷ []) ∷ (12, 12 ∷ 1 ∷ 72 ∷ []) ∷ []

abbrev nonzero : ℕ → Bool
nonzero zero = false
nonzero (suc n) = true

abbrev three_output : Output ℕ
three_output = record {
  names = "__row_id" ∷ "__matched" ∷ "email" ∷ [];
  id_range = λ n offset. some (id_bounds (take n (drop offset three_records)));
  between = λ range. some (select_between range three_records);
  truthy = nonzero;
}

three_output-IsOutputOf : IsOutputOf three_output three_records
three_output-IsOutputOf = record {
  id_range = λ n offset. refl;
  between = λ range. refl;
  ascends = (omega arith, (omega arith, tt));
}

abbrev first_page_of_three : ResultsPage ℕ
first_page_of_three = record {
  columns = "email" ∷ [];
  rows =
      record { row_number = 1; matched = true; values = 70 ∷ [] }
      ∷ record { row_number = 2; matched = false; values = 71 ∷ [] }
      ∷ [];
  page = 1;
  page_size = 2;
  total_rows = 3;
}

first_page_runs : read_results_page three_output 3 1 2 ≡ ok first_page_of_three
unfolding data_columns result_rows
first_page_runs = read_results_page-slice three_output three_records three_output-IsOutputOf 3 1 2

rows_of_pages-all_example :
    rows_of_pages three_output 3 2 (total_pages first_page_of_three) 1
    ≡ result_rows three_output 0 0 three_records
rows_of_pages-all_example =
    rows_of_pages-all three_output three_records three_output-IsOutputOf 2 first_page_of_three
      first_page_runs
