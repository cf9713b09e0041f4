-- ===== src/Files/Listing/Examples.antt =====
-- A page of the sample bucket, and all its pages.
use rhombus_ai.Base.{◌≡◌, refl, none, some, [], ◌∷◌, arith}
use rhombus_ai.Failure.{ok}
use rhombus_ai.Jobs.Model.{csv, xlsx}
use rhombus_ai.Files.Types.{from_key}
use rhombus_ai.Files.Listing.{
  FilePage, files_of, scan, round, list_loop, list_files, page_of_state, last_file_key, last_key,
}
use rhombus_ai.Files.Listing.Rounds.{supported}
use rhombus_ai.Files.Listing.Bucket.{filter}
use rhombus_ai.Files.Listing.Walk.{left_after}
use rhombus_ai.Files.Listing.Paging.{all_pages, all_pages-supported}
use rhombus_ai.Files.Listing.Sample.{extension, lists_two, bucket-IsBucket}

abbrev first_page : FilePage
first_page = record {
  files =
      record { key = "a.csv"; size = 10; last_modified = 0; file_type = csv }
      ∷ record { key = "c.xlsx"; size = 10; last_modified = 0; file_type = xlsx }
      ∷ [];
  next_cursor = some "c.xlsx";
}

list_files_two : list_files extension lists_two 6 none 2 ≡ some (ok first_page)
unfolding list_files list_loop round scan files_of from_key page_of_state last_file_key last_key
    filter
list_files_two = refl

all_pages-supported_example :
    all_pages extension lists_two 6 1 5 none
    ≡ some (supported extension (left_after extension bucket-IsBucket none))
all_pages-supported_example =
    all_pages-supported extension bucket-IsBucket 6 5 1 none (omega arith) (omega arith)
      (omega arith)
