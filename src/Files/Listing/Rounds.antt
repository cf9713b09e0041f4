-- ===== src/Files/Listing/Rounds.antt =====
-- What one pass over a run of objects leaves, and that a pass over two runs is two passes.
use mathlib.Core.List.{append-nil, append_assoc}
use rhombus_ai.Base.{
  ℕ, ◌<◌, ◌≤◌, ◌≡◌, refl, sym, ap, ◌∙◌, String, Bool, ◌&&◌, some, List, [], ◌∷◌, ◌++◌, length, ◌==◌,
  arith, Bool-cases, Option-cases, inl, inr, length-append,
}
use rhombus_ai.Files.Types.{from_key}
use rhombus_ai.Files.Listing.{
  S3Object, StoredFile, is_none_left, last_file_key, Scan, filled, finished, files_of, scan,
}

last_file_key-append :
    (xs : List StoredFile) (x : StoredFile) → last_file_key (xs ++ x ∷ []) ≡ some x.key
unfolding last_file_key
last_file_key-append [] x = refl
last_file_key-append (y ∷ []) x = refl
last_file_key-append (y ∷ z ∷ ys) x = last_file_key-append (z ∷ ys) x

is_none_left-append :
    (xs ys : List S3Object) → is_none_left (xs ++ ys) ≡ is_none_left xs && is_none_left ys
is_none_left-append [] ys = refl
is_none_left-append (x ∷ xs) ys = refl

module _ (extension_of : String → String) where
  -- The files of a run of objects, in order: what a listing is to show.
  unfoldable pub supported : List S3Object → List StoredFile
  supported [] = []
  supported (o ∷ os) = files_of extension_of o ++ supported os

  pub supported-append :
      (xs ys : List S3Object) → supported (xs ++ ys) ≡ supported xs ++ supported ys
  unfolding supported
  supported-append [] ys = refl
  supported-append (o ∷ os) ys =
      rw (supported-append os ys)
        (sym (append_assoc (files_of extension_of o) (supported os) (supported ys)))

  -- The pass goes on with the next run unless it was filled.
  abbrev pub go_on : ℕ → List S3Object → Scan → Scan
  go_on n ys (filled files last) = filled files (last && is_none_left ys)
  go_on n ys (finished files) = scan extension_of n ys files

  pub scan-append :
      (n : ℕ) (xs ys : List S3Object) (files : List StoredFile)
      → scan extension_of n (xs ++ ys) files ≡ go_on n ys (scan extension_of n xs files)
  unfolding scan
  scan-append n [] ys files = refl
  scan-append n (o ∷ os) ys files =
      elim (Bool-cases (length (files ++ files_of extension_of o) == n)) [
        | inl full ↦
            rw full (ap (filled (files ++ files_of extension_of o)) (is_none_left-append os ys))
        | inr more ↦ rw more (scan-append n os ys (files ++ files_of extension_of o))
      ]

  -- The page was filled by the object `at`, with `after` left to look at.
  pub record IsFilled (n : ℕ) (xs : List S3Object) (files found : List StoredFile) (last : Bool)
      : Type 0 where
    pub before : List S3Object
    pub at : S3Object
    pub after : List S3Object
    pub split : xs ≡ before ++ at ∷ after
    pub found_lem : found ≡ (files ++ supported before) ++ files_of extension_of at
    pub count : length found ≡ n
    pub last_lem : last ≡ is_none_left after
    pub cursor : last_file_key found ≡ some at.key

  cursor_of :
      (files : List StoredFile) (o : S3Object)
      → length files < length (files ++ files_of extension_of o)
      → last_file_key (files ++ files_of extension_of o) ≡ some o.key
  unfolding files_of
  cursor_of files o h = elim (Option-cases (from_key extension_of o.key)) [
    | inl unsupported ↦ absurd (omega (arith, ap length (append-nil files), rw unsupported at h))
    | inr (t, is) ↦ rw is (last_file_key-append files _)
  ]

  files_of-length : (o : S3Object) → length (files_of extension_of o) ≤ 1
  unfolding files_of
  files_of-length o = elim (Option-cases (from_key extension_of o.key)) [
    | inl unsupported ↦ rw unsupported (omega arith)
    | inr (t, is) ↦ rw is (omega arith)
  ]

  pub scan-finished :
      (n : ℕ) (xs : List S3Object) (files found : List StoredFile)
      → length files < n
      → scan extension_of n xs files ≡ finished found
      → (found ≡ files ++ supported xs) × (length found < n)
  unfolding scan supported
  scan-finished n [] files found h e =
      let same : files ≡ found = cc e in (sym same ∙ sym (append-nil files), rw (← same) h)
  scan-finished n (o ∷ os) files found h e =
      let files' = files ++ files_of extension_of o in
      elim (Bool-cases (length files' == n)) [
        | inl full ↦ cc (rw full at e)
        | inr more ↦
            let fits : length files' < n =
              ground
                (arith, more, length-append files (files_of extension_of o), files_of-length o) in
            let (same, few) = scan-finished n os files' found fits (rw more at e) in
            (same ∙ append_assoc files (files_of extension_of o) (supported os), few)
      ]

  pub scan-filled :
      (n : ℕ) (xs : List S3Object) (files found : List StoredFile) (last : Bool)
      → length files < n
      → scan extension_of n xs files ≡ filled found last
      → IsFilled n xs files found last
  unfolding scan supported
  scan-filled n [] files found last h e = cc e
  scan-filled n (o ∷ os) files found last h e =
      let files' = files ++ files_of extension_of o in
      elim (Bool-cases (length files' == n)) [
        | inl full ↦
            let here_ : filled files' (is_none_left os) ≡ filled found last = rw full at e in
            let same : files' ≡ found = cc here_ in
            let exact : length files' ≡ n = ground (arith, full) in
            record {
              before = [];
              at = o;
              after = os;
              split = refl;
              found_lem = rw (append-nil files) (sym same);
              count = rw (← same) exact;
              last_lem = cc here_;
              cursor = rw (← same) (cursor_of files o (omega (arith, exact)));
            }
        | inr more ↦
            let fits : length files' < n =
              ground
                (arith, more, length-append files (files_of extension_of o), files_of-length o) in
            let rest = scan-filled n os files' found last fits (rw more at e) in
            record {
              before = o ∷ rest.before;
              at = rest.at;
              after = rest.after;
              split = ap (λ zs. o ∷ zs) rest.split;
              found_lem =
                  rest.found_lem
                  ∙ ap (λ zs. zs ++ files_of extension_of rest.at)
                      (append_assoc files (files_of extension_of o) (supported rest.before));
              count = rest.count;
              last_lem = rest.last_lem;
              cursor = rest.cursor;
            }
      ]
