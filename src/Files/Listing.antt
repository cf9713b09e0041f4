-- ===== src/Files/Listing.antt =====
-- `list_files` of backend/apps/files/services.py, for one bucket and prefix. S3's `list_objects_v2`
-- is a parameter: what it answers to a `StartAfter` and a `MaxKeys`.
pub mod Rounds
pub mod Bucket
pub mod Cuts
pub mod Loop
pub mod Walk
pub mod Paging
pub mod Sample
mod Examples
use rhombus_ai.Base.{
  ℕ, zero, suc, String, Bool, true, false, not, ◌&&◌, ◌||◌, Option, none, some, List, [], ◌∷◌, ◌++◌,
  length, ltb, ◌==◌, str_eq, if◌then◌else◌,
}
use rhombus_ai.Failure.{Result, ok, err}
use rhombus_ai.Jobs.Model.{FileType}
use rhombus_ai.Files.Types.{from_key}
use rhombus_ai.Files.Storage.{S3Answer, answered, client_error, core_error, translate_s3_errors}

-- An entry of `Contents`, and the response of `list_objects_v2`.
pub record S3Object : Type 0 where
  pub key : String
  pub size : ℕ
  pub last_modified : ℕ

pub record ListResponse : Type 0 where
  pub contents : List S3Object
  pub is_truncated : Bool

pub record StoredFile : Type 0 where
  pub key : String
  pub size : ℕ
  pub last_modified : ℕ
  pub file_type : FileType

pub record FilePage : Type 0 where
  pub files : List StoredFile
  pub next_cursor : Option String

abbrev pub is_none_left : {A : Type 0} → List A → Bool
is_none_left [] = true
is_none_left (x ∷ xs) = false

-- The key of the last one, `contents[-1]["Key"]`, or the default of an empty list.
unfoldable pub last_key : String → List S3Object → String
last_key k [] = k
last_key k (o ∷ os) = last_key o.key os

unfoldable pub last_file_key : List StoredFile → Option String
last_file_key [] = none
last_file_key (f ∷ []) = some f.key
last_file_key (f ∷ g ∷ fs) = last_file_key (g ∷ fs)

-- How the `for` loop ends: by `break` on a full page, with whether that was the last object of the
-- response, or by its `else`.
pub data Scan : Type 0 where
  filled : List StoredFile → Bool → Scan
  finished : List StoredFile → Scan

-- The variables of the `while` loop.
pub record ListState : Type 0 where
  pub files : List StoredFile
  pub start_after : String
  pub exhausted : Bool

abbrev pub start_of : String → Option String
start_of s = if str_eq s "" then none else some s

abbrev pub unfinished : ℕ → ListState → Bool
unfinished page_size st = ltb (length st.files) page_size && not st.exhausted

abbrev pub or_blank : Option String → String
or_blank none = ""
or_blank (some c) = c

unfoldable pub page_of_state : ListState → FilePage
unfolding last_file_key
page_of_state st = record {
  files = st.files;
  next_cursor = if st.exhausted then none else last_file_key st.files;
}

abbrev pub page_of_answer : Option (S3Answer ListState) → Option (S3Answer FilePage)
page_of_answer none = none
page_of_answer (some (answered st)) = some (answered (page_of_state st))
page_of_answer (some (client_error code)) = some (client_error code)
page_of_answer (some core_error) = some core_error

abbrev pub translated_page : Option (S3Answer FilePage) → Option (Result FilePage)
translated_page none = none
translated_page (some a) = some (translate_s3_errors none a)

module _ (extension_of : String → String) where
  abbrev pub stored_file : S3Object → Option FileType → List StoredFile
  stored_file o none = []
  stored_file o (some file_type) =
      record { key = o.key; size = o.size; last_modified = o.last_modified; file_type = file_type }
      ∷ []

  -- What the loop appends for an object.
  unfoldable pub files_of : S3Object → List StoredFile
  unfolding from_key
  files_of o = stored_file o (from_key extension_of o.key)

  unfoldable pub scan : ℕ → List S3Object → List StoredFile → Scan
  unfolding files_of
  scan page_size [] files = finished files
  scan page_size (o ∷ os) files =
      let files' = files ++ files_of o in
      let rest = scan page_size os files' in
      if length files' == page_size then filled files' (is_none_left os) else rest

  abbrev pub after_scan : ListResponse → String → Scan → ListState
  after_scan r start_after (filled files last) = record {
    files = files;
    start_after = start_after;
    exhausted = last && not r.is_truncated;
  }
  after_scan r start_after (finished files) = record {
    files = files;
    start_after = last_key start_after r.contents;
    exhausted = not r.is_truncated || is_none_left r.contents;
  }

  -- The body of the `while` loop, on a response.
  unfoldable pub round : ℕ → ListResponse → ListState → ListState
  unfolding scan last_key
  round page_size r st = after_scan r st.start_after (scan page_size r.contents st.files)

  module _ (list_objects : Option String → ℕ → S3Answer ListResponse) where
    abbrev pub on_answer :
        (ListResponse → Option (S3Answer ListState))
        → S3Answer ListResponse
        → Option (S3Answer ListState)
    on_answer go (answered r) = go r
    on_answer go (client_error code) = some (client_error code)
    on_answer go core_error = some core_error

    -- The `while` loop; `none` is that the fuel ran out.
    unfoldable pub list_loop : ℕ → ℕ → ListState → Option (S3Answer ListState)
    unfolding round
    list_loop zero page_size st = none
    list_loop (suc fuel) page_size st = elim (unfinished page_size st) [
      | false ↦ some (answered st)
      | true ↦
          on_answer (λ r. list_loop fuel page_size (round page_size r st))
            (list_objects (start_of st.start_after) page_size)
    ]

    unfoldable pub list_files : ℕ → Option String → ℕ → Option (Result FilePage)
    unfolding list_loop page_of_state translate_s3_errors
    list_files fuel cursor page_size = translated_page (
        page_of_answer (
          list_loop fuel page_size
            (record { files = []; start_after = or_blank cursor; exhausted = false })))
