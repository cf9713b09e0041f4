-- ===== src/Files/Listing/Walk.antt =====
-- What a page of `list_files` holds, and that a client that follows the cursors sees every file.
use mathlib.Core.List.{append-nil}
use rhombus_ai.Base.{
  ℕ, suc, ◌≤◌, ◌<◌, ◌≡◌, refl, sym, ap, ◌∙◌, String, Bool, true, false, Option, none, some, List,
  [], ◌∷◌, ◌++◌, ◌⊎◌, length, arith, inl, inr,
}
use rhombus_ai.Failure.{ok}
use rhombus_ai.Files.Storage.{S3Answer}
use rhombus_ai.Files.Listing.{
  S3Object, ListResponse, StoredFile, FilePage, filled, finished, scan, files_of, ListState,
  start_of, or_blank, page_of_state, list_files,
}
use rhombus_ai.Files.Listing.Rounds.{
  supported, supported-append, scan-finished, scan-filled, IsFilled,
}
use rhombus_ai.Files.Listing.Bucket.{IsBucket, remaining}
use rhombus_ai.Files.Listing.Loop.{Ends, list_loop-Runs, none_left_nil, Scan-cases}

module _ (extension_of : String → String) where
  -- Either the page holds all the files that remain and there is no cursor; or it is full, the
  -- cursor is the key of an object `at`, and it holds the files up to that object.
  abbrev pub IsPageOf : ℕ → List S3Object → FilePage → Type 0
  IsPageOf n xs page =
      ((page.next_cursor ≡ none)
        × (page.files ≡ supported extension_of xs)
        × (length page.files ≤ n))
      ⊎ ((front : List S3Object) × (at : S3Object) × (behind : List S3Object) × (xs
            ≡ front ++ at ∷ behind)
          × (page.next_cursor ≡ some at.key)
          × (page.files ≡ supported extension_of (front ++ at ∷ []))
          × (length page.files ≡ n))

  supported-upto :
      (front : List S3Object) (o : S3Object)
      → supported extension_of (front ++ o ∷ [])
        ≡ supported extension_of front ++ files_of extension_of o
  unfolding supported
  supported-upto front o =
      supported-append extension_of front (o ∷ [])
      ∙ ap (λ zs. supported extension_of front ++ zs) (append-nil (files_of extension_of o))

  filled_page :
      (n : ℕ) (xs : List S3Object) (found : List StoredFile) (last : Bool) (st : ListState)
      → IsFilled extension_of n xs [] found last
      → Ends (filled found last) st
      → IsPageOf n xs (page_of_state st)
  unfolding page_of_state
  filled_page n xs found true st f (same, done) =
      let nothing_left : f.after ≡ [] = none_left_nil f.after (sym f.last_lem) in
      let all_ : found ≡ supported extension_of xs =
        f.found_lem
        ∙ sym (supported-upto f.before f.at)
        ∙ ap (λ zs. supported extension_of zs)
            (sym (f.split ∙ ap (λ zs. f.before ++ f.at ∷ zs) nothing_left)) in
      inl (rw done refl, same ∙ all_, omega (arith, ap length same, f.count))
  filled_page n xs found false st f (same, more) = inr (
    f.before,
    f.at,
    f.after,
    f.split,
    rw more (rw same f.cursor),
    same ∙ f.found_lem ∙ sym (supported-upto f.before f.at),
    ap length same ∙ f.count,
  )

  finished_page :
      (n : ℕ) (xs : List S3Object) (found : List StoredFile) (st : ListState)
      → (found ≡ supported extension_of xs) × (length found < n)
      → Ends (finished found) st
      → IsPageOf n xs (page_of_state st)
  unfolding page_of_state
  finished_page n xs found st (all_, few) (same, done) =
      inl (rw done refl, same ∙ all_, omega (arith, ap length same, few))

module _ (extension_of : String → String) {before : String → String → Bool}
    {list_objects : Option String → ℕ → S3Answer ListResponse} {objects : List S3Object}
    (q : IsBucket before list_objects objects) where
  -- The objects that a cursor leaves.
  abbrev pub left_after : Option String → List S3Object
  left_after cursor = remaining before (start_of (or_blank cursor)) objects

  pub list_files-IsPageOf :
      (fuel n : ℕ) (cursor : Option String)
      → 0 < n
      → suc (length (left_after cursor)) < fuel
      → (page : FilePage) × (list_files extension_of list_objects fuel cursor n ≡ some (ok page))
        × IsPageOf extension_of n (left_after cursor) page
  unfolding list_files
  list_files-IsPageOf fuel n cursor h k =
      let xs = left_after cursor in
      let (st, ends, as_scan) =
        list_loop-Runs extension_of q fuel n (or_blank cursor) [] xs refl h k in
      (
        page_of_state st,
        rw ends refl,
        elim (Scan-cases (scan extension_of n xs [])) [
          | inl (found, last, is) ↦
              filled_page extension_of n xs found last st
                (scan-filled extension_of n xs [] found last h is) (rw is at as_scan)
          | inr (found, is) ↦
              finished_page extension_of n xs found st
                (scan-finished extension_of n xs [] found h is) (rw is at as_scan)
        ],
      )
