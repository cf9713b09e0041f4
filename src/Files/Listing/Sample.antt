-- ===== src/Files/Listing/Sample.antt =====
-- A bucket of four objects, of which S3 lists at most two at a time.
use rhombus_ai.Base.{
  ℕ, ◌≡◌, refl, String, Bool, true, false, Option, List, [], ◌∷◌, ltb, length, take, min, str_eq,
  if◌then◌else◌, arith,
}
use rhombus_ai.Failure.{ne_blank}
use rhombus_ai.Files.Storage.{S3Answer, answered}
use rhombus_ai.Files.Listing.{S3Object, ListResponse}
use rhombus_ai.Files.Listing.Bucket.{IsBucket, remaining}

abbrev pub extension : String → String
extension key =
    if str_eq key "a.csv"
    then "csv"
    else if str_eq key "c.xlsx"
    then "xlsx"
    else if str_eq key "d.csv"
    then "csv"
    else "txt"

abbrev pub rank : String → ℕ
rank key =
    if str_eq key "a.csv"
    then 1
    else if str_eq key "b.txt"
    then 2
    else if str_eq key "c.xlsx"
    then 3
    else if str_eq key "d.csv"
    then 4
    else 0

abbrev pub earlier : String → String → Bool
earlier s t = ltb (rank s) (rank t)

abbrev pub object : String → S3Object
object key = record { key = key; size = 10; last_modified = 0 }

abbrev pub bucket : List S3Object
bucket = object "a.csv" ∷ object "b.txt" ∷ object "c.xlsx" ∷ object "d.csv" ∷ []

abbrev pub lists_two : Option String → ℕ → S3Answer ListResponse
lists_two s n = answered (record {
  contents = take (min 2 n) (remaining earlier s bucket);
  is_truncated = ltb (min 2 n) (length (remaining earlier s bucket));
})

pub earlier-irreflexive : (s : String) → earlier s s ≡ false
earlier-irreflexive s = ground arith

pub ltb_transitive : (a b c : ℕ) → ltb a b ≡ true → ltb b c ≡ true → ltb a c ≡ true
ltb_transitive a b c h k = ground arith

pub earlier-transitive :
    (s t u : String) → earlier s t ≡ true → earlier t u ≡ true → earlier s u ≡ true
earlier-transitive s t u h k = ltb_transitive (rank s) (rank t) (rank u) h k

pub bucket-IsBucket : IsBucket earlier lists_two bucket
bucket-IsBucket = record {
  irreflexive = earlier-irreflexive;
  transitive = earlier-transitive;
  ascends = ((refl, (refl, (refl, tt))), ((refl, (refl, tt)), ((refl, tt), (tt, tt))));
  keys = (ne_blank _ refl, (ne_blank _ refl, (ne_blank _ refl, (ne_blank _ refl, tt))));
  count = λ s n. min 2 n;
  count-positive = λ s n h. omega arith;
  lists = λ s n. refl;
}
