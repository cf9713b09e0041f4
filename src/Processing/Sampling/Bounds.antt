-- ===== src/Processing/Sampling/Bounds.antt =====
-- What a sample holds at most.
use Prim.Native.String as Text
use Prim.Native.String.{count}
use text.Mathlib.TextLemmas.{length-cons}
use rhombus_ai.Base.{
  ℕ, zero, suc, ◌≤◌, ◌<◌, String, false, not, ◌&&◌, ◌≡◌, ◌≢◌, refl, sym, ap, ◌∙◌, Option, none,
  some, List, [], ◌∷◌, ◌++◌, map, length, length-append, length-map, All, All-append, ltb, str_eq,
  eq_iff, arith, Bool-cases, inl, inr,
}
use rhombus_ai.Failure.{Result, ok}
use rhombus_ai.Processing.Schema.{contains, find_missing_columns, fromkeys, require_columns}
use rhombus_ai.Processing.Sampling.{
  max_value_length, first_characters, Samples, sample_text, add_value, add_row, add_rows, no_values,
  sampled, sample_column_values,
}

first_characters-count : (n : ℕ) (s : String) → count (first_characters n s) ≤ n
unfolding first_characters
first_characters-count zero s = omega arith
first_characters-count (suc n) Text.[] = omega arith
first_characters-count (suc n) (Text.◌∷◌ c s) =
    omega (arith, length-cons c (first_characters n s), first_characters-count n s)

-- No value stands twice.
abbrev pub AllDistinct : List String → Type 0
AllDistinct [] = Unit
AllDistinct (v ∷ values) = All (λ w. str_eq w v ≡ false) values × AllDistinct values

abbrev pub IsValue : String → Type 0
IsValue text = (text ≢ "") × (count text ≤ max_value_length)

distinct-append :
    (values : List String) (text : String)
    → AllDistinct values
    → contains values text ≡ false
    → AllDistinct (values ++ text ∷ [])
distinct-append [] text h k = (tt, tt)
distinct-append (v ∷ values) text h k = (
  All-append (λ w. str_eq w v ≡ false) values (text ∷ []) h.0 (ground (arith, k), tt),
  distinct-append values text h.1 (ground (arith, k)),
)

module _ (strip : String → String) (max_values : ℕ) where
  -- A column's values: few, distinct, none blank and all short.
  abbrev pub IsColumn : List String → Type 0
  IsColumn values = (length values ≤ max_values) × AllDistinct values × All IsValue values

  sample_text-count :
      (value : Option String) → count (sample_text strip max_values value) ≤ max_value_length
  unfolding sample_text
  sample_text-count none = omega arith
  sample_text-count (some value) = first_characters-count max_value_length (strip value)

  add_value-IsColumn :
      (values : List String) (value : Option String)
      → IsColumn values
      → IsColumn (add_value strip max_values values value)
  unfolding add_value
  add_value-IsColumn values value (few, distinct, short) =
      let text = sample_text strip max_values value in
      elim (Bool-cases
        (not (str_eq text "") && ltb (length values) max_values && not (contains values text))) [
          | inl adds ↦
              let room : length values < max_values = ground (arith, adds) in
              rw adds (
                omega (arith, length-append values (text ∷ []), room),
                distinct-append values text distinct (ground (arith, adds)),
                All-append IsValue values (text ∷ []) short
                    ((ground (arith, adds, eq_iff text ""), sample_text-count value), tt),
              )
          | inr leaves ↦ rw leaves (few, distinct, short)
        ]

  -- A sample of the columns.
  abbrev pub IsSampleOf : List String → Samples → Type 0
  IsSampleOf targets samples = (map (λ c. c.0) samples ≡ targets) × All (λ c. IsColumn c.1) samples

  abbrev pub Returns : List String → Result Samples → Type 0
  Returns targets r = (samples : Samples) × (r ≡ ok samples) × IsSampleOf targets samples

  add_row-IsSampleOf :
      (samples : Samples) (row : List (Option String))
      → length row ≡ length samples
      → All (λ c. IsColumn c.1) samples
      → (samples' : Samples) × (add_row strip max_values samples row ≡ some samples')
        × IsSampleOf (map (λ c. c.0) samples) samples'
  unfolding add_row
  add_row-IsSampleOf [] [] e h = ([], refl, (refl, tt))
  add_row-IsSampleOf [] (value ∷ row) e h = absurd (omega (arith, e))
  add_row-IsSampleOf (c ∷ samples) [] e h = absurd (omega (arith, e))
  add_row-IsSampleOf ((name, values) ∷ samples) (value ∷ row) e h =
      let (samples', is, (names, good)) = add_row-IsSampleOf samples row (omega (arith, e)) h.1 in
      (
        (name, add_value strip max_values values value) ∷ samples',
        rw is refl,
        (ap (λ ns. name ∷ ns) names, (add_value-IsColumn values value h.0, good)),
      )

  add_rows-Returns :
      (targets : List String) (samples : Samples) (rows : List (List (Option String)))
      → All (λ row. length row ≡ length targets) rows
      → IsSampleOf targets samples
      → Returns targets (add_rows strip max_values samples rows)
  unfolding add_rows
  add_rows-Returns targets samples [] e h = (samples, refl, h)
  add_rows-Returns targets samples (row ∷ rows) e (names, good) =
      let (samples', is, (same, good')) =
        add_row-IsSampleOf samples row (e.0 ∙ ap length (sym names) ∙ length-map (λ c. c.0) samples)
          good in
      rw (is, add_rows) (add_rows-Returns targets samples' rows e.1 (same ∙ names, good'))

  no_values-IsSampleOf :
      (targets : List String) → IsSampleOf targets (no_values strip max_values targets)
  no_values-IsSampleOf [] = (refl, tt)
  no_values-IsSampleOf (name ∷ targets) =
      let (names, good) = no_values-IsSampleOf targets in
      (ap (λ ns. name ∷ ns) names, ((omega arith, tt, tt), good))

  -- With all columns in the source and rows of the columns that were asked for, the sample has each of
  -- these columns once, with at most the given number of values, all of them different, none blank
  -- and none of more than 200 characters.
  pub sample_column_values-Returns :
      (message : List String → String)
      (collect : List String → ℕ → Result (List (List (Option String))))
      (available columns : List String) (sample_rows : ℕ) (rows : List (List (Option String)))
      → find_missing_columns available (fromkeys columns) ≡ []
      → collect (fromkeys columns) sample_rows ≡ ok rows
      → All (λ row. length row ≡ length (fromkeys columns)) rows
      → Returns
          (fromkeys columns)
          (sample_column_values strip max_values message collect available columns sample_rows)
  unfolding sample_column_values sampled require_columns
  sample_column_values-Returns message collect available columns sample_rows rows h k e = rw h (
      rw (k, sampled)
        (add_rows-Returns (fromkeys columns) (no_values strip max_values (fromkeys columns)) rows e
          (no_values-IsSampleOf (fromkeys columns))))
