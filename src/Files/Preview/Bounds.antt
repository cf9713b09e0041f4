-- ===== src/Files/Preview/Bounds.antt =====
-- What a preview shows at most.
use rhombus_ai.Base.{
  ℕ, suc, String, Bool, true, false, ◌≡◌, refl, ◌≤◌, ◌+◌, ◌-◌, ◌&&◌, ◌==◌, Option, none, some, List,
  [], ◌∷◌, map, take, length, ltb, length-map, length-take, if◌then◌else◌, All, arith, Bool-cases,
  inl, inr,
}
use rhombus_ai.Failure.{Result, ok, err}
use rhombus_ai.Jobs.Model.{FileType, csv, xlsx}
use rhombus_ai.Files.Types.{get_file_type}
use rhombus_ai.Files.Storage.{translate_s3_errors}
use rhombus_ai.Files.Preview.{
  sample_row_limit, xlsx_preview_max_bytes, csv_preview_bytes, upto_last_newline, FilePreview,
  Parsed, Formats, Answers, Loaded, workbook, unreadable, raises, header_and_rows, cell_text,
  sheet_rows, parse_xlsx_preview, parse_csv_preview, preview_of, csv_content, xlsx_content,
  content_of, sized, typed, get_file_preview,
}

abbrev pub Ensures : {A : Type 0} → (A → Type 0) → Result A → Type 0
Ensures P (ok a) = P a
Ensures P (err e) = Unit

-- At most ten rows, in a sheet none longer than the header.
abbrev pub IsSample : FileType → Parsed → Type 0
IsSample csv (columns, rows) = length rows ≤ sample_row_limit
IsSample xlsx (columns, rows) =
    (length rows ≤ sample_row_limit) × All (λ row. length row ≤ length columns) rows

-- A preview of the key, which has the type.
abbrev pub IsPreview : String → FileType → FilePreview → Type 0
IsPreview key t p = (p.key ≡ key) × (p.file_type ≡ t) × IsSample t (p.columns, p.sample_rows)

-- openpyxl gives at most `max_row` rows.
abbrev pub RowsUpTo : {Value : Type 0} → Loaded Value → Type 0
RowsUpTo (workbook rows) = (n : ℕ) → length (rows n) ≤ n
RowsUpTo unreadable = Unit
RowsUpTo raises = Unit

no_rows : (t : FileType) → IsSample t ([], [])
no_rows csv = omega arith
no_rows xlsx = (omega arith, tt)

header_and_rows-IsSample :
    (rows : List (List String)) (fails : Bool) → Ensures (IsSample csv) (header_and_rows rows fails)
header_and_rows-IsSample [] true = tt
header_and_rows-IsSample [] false = omega arith
header_and_rows-IsSample (header ∷ rows) fails =
    elim (Bool-cases (ltb (length rows) sample_row_limit && fails)) [
      | inl failed ↦ rw failed tt
      | inr fine ↦ rw fine (
          omega (
            arith,
            length-map (map some) (take sample_row_limit rows),
            length-take sample_row_limit rows,
          ))
    ]

module _ {Value Bytes : Type 0} (f : Formats Value Bytes) where
  rows-All :
      (n : ℕ) (rows : List (List (Option Value)))
      → All (λ row. length row ≤ n) (map (λ row. map (cell_text f) (take n row)) rows)
  rows-All n [] = tt
  rows-All n (row ∷ rows) =
      (omega (arith, length-map (cell_text f) (take n row), length-take n row), rows-All n rows)

  sheet_rows-IsSample :
      (rows : List (List (Option Value)))
      → length rows ≤ suc sample_row_limit
      → IsSample xlsx (sheet_rows f rows)
  unfolding sheet_rows
  sheet_rows-IsSample [] h = (omega arith, tt)
  sheet_rows-IsSample (first ∷ rows) h = (
    omega (
      arith,
      length-map
          (λ (row : List (Option Value)).
            map (cell_text f) (take (length (sheet_rows f (first ∷ rows)).0) row))
          rows,
    ),
    rows-All _ rows,
  )

  parse_xlsx_preview-IsSample :
      (l : Loaded Value) → RowsUpTo l → Ensures (IsSample xlsx) (parse_xlsx_preview f l)
  unfolding parse_xlsx_preview
  parse_xlsx_preview-IsSample unreadable h = tt
  parse_xlsx_preview-IsSample raises h = tt
  parse_xlsx_preview-IsSample (workbook rows) h =
      sheet_rows-IsSample (rows (sample_row_limit + 1)) (omega (arith, h (sample_row_limit + 1)))

  module _ (s3 : Answers Bytes) (key : String)
      (sheets : (content : Bytes) → RowsUpTo (f.load_workbook content)) where
    csv_content-IsSample :
        (size : ℕ) (r : Result Bytes) → Ensures (IsSample csv) (csv_content f s3 key size r)
    unfolding csv_content parse_csv_preview
    csv_content-IsSample size (err e) = tt
    csv_content-IsSample size (ok content) =
        let r = f.csv_reader (
          if ltb (f.size_of content) size
          then upto_last_newline (f.decode content)
          else f.decode content) in
        header_and_rows-IsSample r.rows r.fails

    xlsx_content-IsSample : (r : Result Bytes) → Ensures (IsSample xlsx) (xlsx_content f s3 key r)
    unfolding xlsx_content
    xlsx_content-IsSample (err e) = tt
    xlsx_content-IsSample (ok content) =
        parse_xlsx_preview-IsSample (f.load_workbook content) (sheets content)

    content_of-IsSample :
        (t : FileType) (size : ℕ) → Ensures (IsSample t) (content_of f s3 key t size)
    unfolding content_of
    content_of-IsSample csv size =
        csv_content-IsSample size
          (translate_s3_errors (some key) (s3.get_object (some (0, csv_preview_bytes - 1))))
    content_of-IsSample xlsx size = elim (Bool-cases (ltb xlsx_preview_max_bytes size)) [
      | inl large ↦ rw large tt
      | inr fine ↦
          rw fine (xlsx_content-IsSample (translate_s3_errors (some key) (s3.get_object none)))
    ]

    preview_of-IsPreview :
        (t : FileType) (r : Result Parsed)
        → Ensures (IsSample t) r
        → Ensures (IsPreview key t) (preview_of f s3 key t r)
    preview_of-IsPreview t (err e) h = tt
    preview_of-IsPreview t (ok (columns, rows)) h = (refl, refl, h)

    sized-IsPreview : (t : FileType) (r : Result ℕ) → Ensures (IsPreview key t) (sized f s3 key t r)
    unfolding sized
    sized-IsPreview t (err e) = tt
    sized-IsPreview t (ok size) = elim (Bool-cases (size == 0)) [
      | inl empty ↦ rw empty (refl, refl, no_rows t)
      | inr full ↦
          rw full (preview_of-IsPreview t (content_of f s3 key t size) (content_of-IsSample t size))
    ]

    -- A preview is of the key that was asked for and of the type of its extension, and shows at most
    -- ten rows, of an Excel file none with more cells than its header; openpyxl gives at most
    -- `max_row` rows of a sheet.
    pub get_file_preview-IsPreview :
        (extension_of : String → String) (t : FileType)
        → get_file_type extension_of key ≡ ok t
        → Ensures (IsPreview key t) (get_file_preview f s3 key extension_of)
    unfolding get_file_preview typed
    get_file_preview-IsPreview extension_of t h =
        rw h (sized-IsPreview t (translate_s3_errors (some key) s3.head_object))
