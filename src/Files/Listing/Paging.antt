-- ===== src/Files/Listing/Paging.antt =====
-- A client that asks for page after page, each with the cursor of the one before.
use mathlib.Core.List.{append-nil, append_assoc}
use rhombus_ai.Base.{
  ℕ, zero, suc, ◌+◌, ◌<◌, ◌≡◌, sym, ap, ◌∙◌, String, Bool, Option, none, some, List, [], ◌∷◌, ◌++◌,
  length, arith, inl, inr, length-append,
}
use rhombus_ai.Failure.{Result, ok, err}
use rhombus_ai.Files.Storage.{S3Answer}
use rhombus_ai.Files.Listing.{S3Object, ListResponse, StoredFile, FilePage, list_files}
use rhombus_ai.Files.Listing.Rounds.{supported, supported-append}
use rhombus_ai.Files.Listing.Bucket.{IsBucket, remaining, remaining-behind}
use rhombus_ai.Files.Listing.Loop.{start_of-key}
use rhombus_ai.Files.Listing.Walk.{left_after, list_files-IsPageOf}

abbrev pub prepend : List StoredFile → Option (List StoredFile) → Option (List StoredFile)
prepend files none = none
prepend files (some rest) = some (files ++ rest)

module _ (extension_of : String → String) (list_objects : Option String → ℕ → S3Answer ListResponse)
    (fuel n : ℕ) where
  abbrev pub go_on_from :
      (Option String → Option (List StoredFile))
      → Option (Result FilePage)
      → Option (List StoredFile)
  go_on_from ask none = none
  go_on_from ask (some (err e)) = none
  go_on_from ask (some (ok page)) = prepend page.files (ask page.next_cursor)

  -- All the files of at most `pages` pages, the first one behind the cursor; `none` is that there
  -- were more pages, or that one of them failed.
  unfoldable pub all_pages : ℕ → Option String → Option (List StoredFile)
  all_pages zero cursor = none
  all_pages (suc pages) cursor =
      go_on_from (λ next. elim next [ none ↦ some [] | some key ↦ all_pages pages (some key) ])
        (list_files extension_of list_objects fuel cursor n)

module _ (extension_of : String → String) {before : String → String → Bool}
    {list_objects : Option String → ℕ → S3Answer ListResponse} {objects : List S3Object}
    (q : IsBucket before list_objects objects) where
  -- Pages put together are the listing: of a bucket that does not change meanwhile, a client that
  -- follows `next_cursor` until there is none gets every supported file behind its first cursor
  -- exactly once and in key order, whatever the positive page size and however S3 cuts its
  -- answers, after at most one page more than objects remain.
  pub all_pages-supported :
      (fuel pages n : ℕ) (cursor : Option String)
      → 0 < n
      → suc (length (left_after extension_of q cursor)) < fuel
      → length (left_after extension_of q cursor) < pages
      → all_pages extension_of list_objects fuel n pages cursor
        ≡ some (supported extension_of (left_after extension_of q cursor))
  unfolding all_pages
  all_pages-supported fuel zero n cursor h k l = absurd (omega arith)
  all_pages-supported fuel (suc pages) n cursor h k l =
      let xs = left_after extension_of q cursor in
      let (page, answers, is) = list_files-IsPageOf extension_of q fuel n cursor h k in
      rw answers (elim is [
        | inl (ended, all_, few) ↦ rw ended (ap some (append-nil page.files ∙ all_))
        | inr (front, o, behind, split, next, upto, full) ↦
            let later : left_after extension_of q (some o.key) ≡ behind =
              ap (λ c. remaining before c objects)
                (start_of-key extension_of q _ front o behind split)
              ∙ remaining-behind q _ front o behind split in
            let shorter : length xs ≡ length front + suc (length behind) =
              ap length split ∙ length-append front (o ∷ behind) in
            let rest =
              all_pages-supported fuel pages n (some o.key) h
                (omega (arith, ap length later, shorter))
                (omega (arith, ap length later, shorter)) in
            let whole : supported extension_of (front ++ o ∷ []) ++ supported extension_of behind
                ≡ supported extension_of xs =
              sym (supported-append extension_of (front ++ o ∷ []) behind)
              ∙ ap (λ zs. supported extension_of zs)
                  (append_assoc front (o ∷ []) behind ∙ sym split) in
            rw next (rw rest (rw later (rw upto (ap some whole))))
      ])
