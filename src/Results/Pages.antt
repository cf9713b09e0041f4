-- ===== src/Results/Pages.antt =====
-- What a page holds, and that the pages together are the whole output.
use rhombus_ai.Base.{
  ℕ, zero, suc, ◌+◌, ◌-◌, ◌*◌, ◌/◌, ◌≤◌, ◌<◌, min, max, ◌≡◌, refl, ap, Option, some, List, [], ◌∷◌,
  ◌++◌, arith, take, drop, length,
}
use native.Mathlib.Nat.{zero-add, add-zero, suc-add}
use rhombus_ai.Failure.{Result, ok, err}
use rhombus_ai.Results.{
  Record, ResultRow, ResultsPage, Output, result_rows, data_columns, total_pages, read_results_page,
}
use rhombus_ai.Results.Slices.{Ascends, id_bounds, select_between, select_between-slice}

-- What DuckDB documents of the two queries, over the records of the output in id order. The ids are
-- distinct, as `monotonically_increasing_id` makes them.
pub record IsOutputOf {Cell : Type 0} (out : Output Cell) (records : List (Record Cell))
    : Type 0 where
  pub id_range :
      (n offset : ℕ) → out.id_range n offset ≡ some (id_bounds (take n (drop offset records)))
  pub between : (range : Option (ℕ × ℕ)) → out.between range ≡ some (select_between range records)
  pub ascends : Ascends records

-- A page size is brought into the range 1 to 500.
abbrev pub clamped : ℕ → ℕ
clamped page_size = max 1 (min page_size 500)

abbrev pub offset_of : ℕ → ℕ → ℕ
offset_of page page_size = (max 1 page - 1) * clamped page_size

module _ {Cell : Type 0} (out : Output Cell) (records : List (Record Cell))
    (q : IsOutputOf out records) where
  -- The page that is served is the slice of the output at its offset, in id order, with rows
  -- numbered from the offset; a page below 1 is page 1, and the size is brought into 1 to 500.
  pub read_results_page-slice :
      (total page page_size : ℕ)
      → read_results_page out total page page_size
        ≡ ok (record {
          columns = data_columns out.names;
          rows =
              result_rows out
                (offset_of page page_size)
                0
                (take (clamped page_size) (drop (offset_of page page_size) records));
          page = max 1 page;
          page_size = clamped page_size;
          total_rows = total;
        })
  unfolding read_results_page
  read_results_page-slice total page page_size =
      rw (q.id_range _ _) (rw (q.between _) (rw (select_between-slice _ _ records q.ascends)))

module _ {Cell : Type 0} (out : Output Cell) (total page_size : ℕ) where
  abbrev page_rows : Result (ResultsPage Cell) → List (ResultRow Cell)
  page_rows (ok p) = p.rows
  page_rows (err e) = []

  -- The rows of `n` pages in turn, from a page on.
  unfoldable pub rows_of_pages : ℕ → ℕ → List (ResultRow Cell)
  rows_of_pages zero page = []
  rows_of_pages (suc n) page =
      page_rows (read_results_page out total page page_size) ++ rows_of_pages n (suc page)

take_split :
    {Cell : Type 0} (out : Output Cell) (s b offset position : ℕ) (records : List (Record Cell))
    → result_rows out offset position (take s records)
        ++ result_rows out offset (position + s) (take b (drop s records))
      ≡ result_rows out offset position (take (s + b) records)
unfolding result_rows
take_split out zero b offset position records = simp (zero-add, add-zero)
take_split out (suc s) zero offset position [] = rw suc-add
take_split out (suc s) (suc b) offset position [] = rw suc-add
take_split out (suc s) b offset position ((id, cells) ∷ records) =
    let more : suc s + b ≡ suc (s + b) = omega arith in
    let on : position + suc s ≡ suc position + s = omega arith in
    rw (more, on) (ground (arith, take_split out s b offset (suc position) records))

result_rows-shift :
    {Cell : Type 0} (out : Output Cell) (a b position : ℕ) (records : List (Record Cell))
    → result_rows out (a + b) position records ≡ result_rows out a (b + position) records
unfolding result_rows
result_rows-shift out a b position [] = refl
result_rows-shift out a b position ((id, cells) ∷ records) =
    let on : b + suc position ≡ suc (b + position) = omega arith in
    ground (arith, on, rw on at (result_rows-shift out a b (suc position) records))

drop-drop : {A : Type 0} (a b : ℕ) (xs : List A) → drop b (drop a xs) ≡ drop (a + b) xs
drop-drop zero b xs = rw zero-add
drop-drop (suc a) zero [] = rw suc-add
drop-drop (suc a) (suc b) [] = rw suc-add
drop-drop (suc a) b (x ∷ xs) = rw suc-add (drop-drop a b xs)

take_all : {A : Type 0} (n : ℕ) (xs : List A) → length xs ≤ n → take n xs ≡ xs
take_all zero [] h = refl
take_all zero (x ∷ xs) h = absurd (omega arith)
take_all (suc n) [] h = refl
take_all (suc n) (x ∷ xs) h = ap (λ ys. x ∷ ys) (take_all n xs (omega arith))

enough_pages : (total s : ℕ) → 0 < s → total ≤ max 1 ((total + s - 1) / s) * s
enough_pages total s h = grind arith

next_slice :
    {Cell : Type 0} (out : Output Cell) (offset s b : ℕ) (records : List (Record Cell))
    → result_rows out offset 0 (take s (drop offset records))
        ++ result_rows out (offset + s) 0 (take b (drop (offset + s) records))
      ≡ result_rows out offset 0 (take (s + b) (drop offset records))
next_slice out offset s b records =
    let on : s + 0 ≡ 0 + s = omega arith in
    rw (result_rows-shift out offset s 0)
      (rw (← drop-drop offset s records, on) (take_split out s b offset 0 (drop offset records)))

module _ {Cell : Type 0} (out : Output Cell) (records : List (Record Cell))
    (q : IsOutputOf out records) where
  rows_of_pages-take :
      (page_size n before : ℕ)
      → rows_of_pages out (length records) page_size n (suc before)
        ≡ result_rows out
            (before * clamped page_size)
            0
            (take (n * clamped page_size) (drop (before * clamped page_size) records))
  unfolding rows_of_pages
  rows_of_pages-take page_size zero before =
      let none_ : 0 * clamped page_size ≡ 0 = omega arith in rw none_ (unfold result_rows in refl)
  rows_of_pages-take page_size (suc n) before =
      let s = clamped page_size in
      let at : offset_of (suc before) page_size ≡ before * s =
        ap (λ k. k * s) (first_page before) in
      let after : suc before * s ≡ before * s + s = grind arith in
      let more : suc n * s ≡ s + n * s = grind arith in
      rw (read_results_page-slice out records q (length records) (suc before) page_size) (
        rw (rows_of_pages-take page_size n (suc before))
          (rw (at, after, more) (next_slice out (before * s) s (n * s) records)))
    where
      first_page : (b : ℕ) → max 1 (suc b) - 1 ≡ b
      first_page b = omega arith

  -- The pages of one size, from the first to the last that the first page announces, together hold
  -- every row of the output once, in order, numbered from 1.
  pub rows_of_pages-all :
      (page_size : ℕ) (first : ResultsPage Cell)
      → read_results_page out (length records) 1 page_size ≡ ok first
      → rows_of_pages out (length records) page_size (total_pages first) 1
        ≡ result_rows out 0 0 records
  unfolding total_pages
  rows_of_pages-all page_size first h =
      let s = clamped page_size in
      let total = length records in
      let same = read_results_page-slice out records q total 1 page_size in
      let size : first.page_size ≡ s = ground (arith, h, same) in
      let count : first.total_rows ≡ total = ground (arith, h, same) in
      let n = max 1 ((total + s - 1) / s) in
      let enough : total ≤ n * s = enough_pages total s (omega arith) in
      let start : 0 * s ≡ 0 = omega arith in
      rw (size, count)
        (rw (rows_of_pages-take page_size n 0) (rw start (rw (take_all (n * s) records enough))))
