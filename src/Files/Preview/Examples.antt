-- ===== src/Files/Preview/Examples.antt =====
-- A small sheet and a small text.
use Prim.Native.String.{len}
use rhombus_ai.Base.{
  String, false, ◌≡◌, refl, Option, none, some, List, [], ◌∷◌, take, length-take, arith,
}
use rhombus_ai.Failure.{ok}
use rhombus_ai.Jobs.Model.{xlsx}
use rhombus_ai.Files.Types.{get_file_type, from_key}
use rhombus_ai.Files.Storage.{answered, translate_s3_errors}
use rhombus_ai.Files.Preview.{
  FilePreview, CsvRows, workbook, Formats, Answers, upto_last_newline, without_trailing_blanks,
  cell_text, sheet_rows, parse_xlsx_preview, get_file_preview, content_of, xlsx_content, typed,
  sized,
}
use rhombus_ai.Files.Preview.Bounds.{Ensures, IsPreview, RowsUpTo, get_file_preview-IsPreview}

abbrev sheet : List (List (Option String))
sheet = (some "name" ∷ none ∷ none ∷ []) ∷ (some "Ada" ∷ some "x" ∷ []) ∷ (none ∷ []) ∷ []

abbrev one_row : String → CsvRows
one_row text = record { rows = (text ∷ []) ∷ []; fails = false }

abbrev formats : Formats String String
formats = record {
  is_datetime = λ v. false;
  isoformat = λ v. v;
  str = λ v. v;
  size_of = len;
  decode = λ s. s;
  csv_reader = one_row;
  load_workbook = λ content. workbook (λ n. take n sheet);
}

abbrev stored_sheet : Answers String
stored_sheet = record { head_object = answered 3; get_object = λ range. answered "PK3" }

abbrev always_xlsx : String → String
always_xlsx key = "xlsx"

newline_kept : upto_last_newline "a,b\n1,2\n3," ≡ "a,b\n1,2\n"
unfolding upto_last_newline
newline_kept = refl

shown : FilePreview
shown = record {
  key = "a.xlsx";
  file_type = xlsx;
  columns = "name" ∷ [];
  sample_rows = (some "Ada" ∷ []) ∷ (none ∷ []) ∷ [];
}

get_file_preview_sheet : get_file_preview formats stored_sheet "a.xlsx" always_xlsx ≡ ok shown
unfolding get_file_preview typed sized content_of xlsx_content parse_xlsx_preview sheet_rows
    cell_text without_trailing_blanks translate_s3_errors get_file_type from_key shown
get_file_preview_sheet = refl

sheet_upto : (content : String) → RowsUpTo (formats.load_workbook content)
sheet_upto content n = omega (arith, length-take n sheet)

get_file_preview-IsPreview_example :
    Ensures (IsPreview "a.xlsx" xlsx) (get_file_preview formats stored_sheet "a.xlsx" always_xlsx)
unfolding get_file_type from_key
get_file_preview-IsPreview_example =
    get_file_preview-IsPreview formats stored_sheet "a.xlsx" sheet_upto always_xlsx xlsx refl
