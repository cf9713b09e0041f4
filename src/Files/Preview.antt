-- ===== src/Files/Preview.antt =====
-- `get_file_preview` and the parsers of backend/apps/files/services.py. S3's answers, the decoding of
-- bytes, Python's csv module and openpyxl are parameters.
pub mod Bounds
mod Examples
use Prim.Native.String as Text
use Prim.Native.Char.{code}
use rhombus_ai.Base.{
  ℕ, String, Bool, true, false, Option, none, some, List, [], ◌∷◌, map, take, length, ltb, ◌==◌,
  ◌*◌, ◌-◌, ◌+◌, ◌&&◌, str_eq, if◌then◌else◌,
}
use rhombus_ai.Failure.{Result, ok, err, domain, preview_unavailable, unexpected}
use rhombus_ai.Jobs.Model.{FileType, csv, xlsx}
use rhombus_ai.Files.Types.{get_file_type}
use rhombus_ai.Files.Storage.{S3Answer, translate_s3_errors}

abbrev pub sample_row_limit : ℕ
sample_row_limit = 10

abbrev pub csv_preview_bytes : ℕ
csv_preview_bytes = 256 * 1024

abbrev pub xlsx_preview_max_bytes : ℕ
xlsx_preview_max_bytes = 50 * 1024 * 1024

pub record FilePreview : Type 0 where
  pub key : String
  pub file_type : FileType
  pub columns : List String
  pub sample_rows : List (List (Option String))

abbrev pub Parsed : Type 0
Parsed = List String × List (List (Option String))

-- What `csv.reader` gives: rows, and whether it then raises `csv.Error`.
pub record CsvRows : Type 0 where
  pub rows : List (List String)
  pub fails : Bool

-- What `load_workbook` gives: the rows of the first sheet up to a number, one of the exceptions
-- that the code catches, or another one.
pub data Loaded (Value : Type 0) : Type 0 where
  workbook : (ℕ → List (List (Option Value))) → Loaded Value
  unreadable raises : Loaded Value

-- `text[: text.rfind("\n") + 1]`
unfoldable pub upto_last_newline : String → String
upto_last_newline Text.[] = ""
upto_last_newline (Text.◌∷◌ c s) =
    let rest = upto_last_newline s in
    if str_eq rest "" then (if code c == 10 then "\n" else "") else Text.◌∷◌ c rest

-- `zip(range(limit), reader)`: after the limit the reader is not asked any more.
abbrev pub rows_or_error : ℕ → List (List String) → Bool → Result (List (List (Option String)))
rows_or_error limit rows fails =
    if ltb (length rows) limit && fails
    then err unexpected
    else ok (map (map some) (take limit rows))

abbrev pub with_header : List String → Result (List (List (Option String))) → Result Parsed
with_header header (err e) = err e
with_header header (ok rows) = ok (header, rows)

abbrev pub header_and_rows : List (List String) → Bool → Result Parsed
header_and_rows [] true = err unexpected
header_and_rows [] false = ok ([], [])
header_and_rows (header ∷ rows) fails =
    with_header header (rows_or_error sample_row_limit rows fails)

-- `while header_cells and header_cells[-1] is None: header_cells.pop()`
abbrev pub kept_cell : {A : Type 0} → Option A → List (Option A) → List (Option A)
kept_cell none [] = []
kept_cell none (y ∷ ys) = none ∷ y ∷ ys
kept_cell (some v) ys = some v ∷ ys

unfoldable pub without_trailing_blanks : {A : Type 0} → List (Option A) → List (Option A)
without_trailing_blanks [] = []
without_trailing_blanks (c ∷ cs) = kept_cell c (without_trailing_blanks cs)

abbrev pub text_or_blank : Option String → String
text_or_blank none = ""
text_or_blank (some s) = s

-- The libraries that read contents, and Python's texts of a cell's value.
pub record Formats (Value Bytes : Type 0) : Type 0 where
  pub is_datetime : Value → Bool
  pub isoformat : Value → String
  pub str : Value → String
  pub size_of : Bytes → ℕ
  pub decode : Bytes → String
  pub csv_reader : String → CsvRows
  pub load_workbook : Bytes → Loaded Value

-- What S3 answers for a key: its size to `head_object`, and its bytes to `get_object` with a range,
-- first and last.
pub record Answers (Bytes : Type 0) : Type 0 where
  pub head_object : S3Answer ℕ
  pub get_object : Option (ℕ × ℕ) → S3Answer Bytes

module _ {Value Bytes : Type 0} (f : Formats Value Bytes) where
  unfoldable pub cell_text : Option Value → Option String
  cell_text none = none
  cell_text (some value) = some (if f.is_datetime value then f.isoformat value else f.str value)

  abbrev pub sheet_rows : List (List (Option Value)) → Parsed
  unfolding cell_text without_trailing_blanks
  sheet_rows [] = ([], [])
  sheet_rows (first ∷ rows) =
      let header = map (λ c. text_or_blank (cell_text c)) (without_trailing_blanks first) in
      (header, map (λ row. map cell_text (take (length header) row)) rows)

  unfoldable pub parse_xlsx_preview : Loaded Value → Result Parsed
  unfolding sheet_rows
  parse_xlsx_preview unreadable =
      err (domain preview_unavailable "The Excel file could not be read.")
  parse_xlsx_preview raises = err unexpected
  parse_xlsx_preview (workbook rows) = ok (sheet_rows (rows (sample_row_limit + 1)))

  unfoldable pub parse_csv_preview : Bytes → Bool → Result Parsed
  unfolding upto_last_newline
  parse_csv_preview content truncated =
      let text = f.decode content in
      let r = f.csv_reader (if truncated then upto_last_newline text else text) in
      header_and_rows r.rows r.fails

  module _ (s3 : Answers Bytes) (key : String) where
    abbrev pub preview_of : FileType → Result Parsed → Result FilePreview
    preview_of file_type (err e) = err e
    preview_of file_type (ok (columns, rows)) =
        ok (record { key = key; file_type = file_type; columns = columns; sample_rows = rows })

    abbrev pub csv_content : ℕ → Result Bytes → Result Parsed
    unfolding parse_csv_preview
    csv_content size (err e) = err e
    csv_content size (ok content) = parse_csv_preview content (ltb (f.size_of content) size)

    abbrev pub xlsx_content : Result Bytes → Result Parsed
    unfolding parse_xlsx_preview
    xlsx_content (err e) = err e
    xlsx_content (ok content) = parse_xlsx_preview (f.load_workbook content)

    abbrev pub content_of : FileType → ℕ → Result Parsed
    unfolding translate_s3_errors csv_content xlsx_content
    content_of csv size =
        csv_content size
          (translate_s3_errors (some key) (s3.get_object (some (0, csv_preview_bytes - 1))))
    content_of xlsx size =
        let read = xlsx_content (translate_s3_errors (some key) (s3.get_object none)) in
        if ltb xlsx_preview_max_bytes size
        then err (
            domain preview_unavailable
              "This Excel file is too large to preview; its columns are checked when the job runs.")
        else read

    abbrev pub sized : FileType → Result ℕ → Result FilePreview
    unfolding content_of
    sized file_type (err e) = err e
    sized file_type (ok size) =
        if size == 0
        then ok (record { key = key; file_type = file_type; columns = []; sample_rows = [] })
        else preview_of file_type (content_of file_type size)

    abbrev pub typed : Result FileType → Result FilePreview
    unfolding sized translate_s3_errors
    typed (err e) = err e
    typed (ok file_type) = sized file_type (translate_s3_errors (some key) s3.head_object)

    unfoldable pub get_file_preview : (String → String) → Result FilePreview
    unfolding typed get_file_type
    get_file_preview extension_of = typed (get_file_type extension_of key)

-- `verify` of services.py: one request, whose answer is not read.
abbrev pub unit_of : {A : Type 0} → Result A → Result Bool
unit_of (err e) = err e
unit_of (ok a) = ok true

unfoldable pub verify : {Response : Type 0} → S3Answer Response → Result Bool
unfolding translate_s3_errors
verify answer = unit_of (translate_s3_errors none answer)
