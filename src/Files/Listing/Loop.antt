-- ===== src/Files/Listing/Loop.antt =====
-- The requests of `list_files`, however S3 cuts the bucket into responses, come to one pass over the
-- objects that remain, and end.
use rhombus_ai.Base.{
  ℕ, zero, suc, ◌<◌, ◌≡◌, ◌≢◌, refl, sym, ap, ◌∙◌, String, Bool, true, false, ◌&&◌, Option, some,
  List, [], ◌∷◌, ◌++◌, take, drop, length, ltb, eq_iff, ◌⊎◌, arith, Bool-cases, inl, inr,
  length-drop, ltb→lt,
}
use rhombus_ai.Files.Storage.{S3Answer, answered}
use rhombus_ai.Files.Listing.{
  S3Object, ListResponse, StoredFile, is_none_left, last_key, Scan, filled, finished, scan,
  ListState, round, start_of, unfinished, list_loop,
}
use rhombus_ai.Files.Listing.Rounds.{go_on, scan-append, scan-finished, scan-filled}
use rhombus_ai.Files.Listing.Bucket.{
  IsBucket, remaining, remaining-behind, All-split, All-remaining,
}
use rhombus_ai.Files.Listing.Cuts.{take-drop, drop-is_none_left, last_taken}

-- The loop has ended as the pass over all the objects does.
abbrev pub Ends : Scan → ListState → Type 0
Ends (filled files last) st = (st.files ≡ files) × (st.exhausted ≡ last)
Ends (finished files) st = (st.files ≡ files) × (st.exhausted ≡ true)

pub Scan-cases :
    (s : Scan)
    → ((files : List StoredFile) × (last : Bool) × (s ≡ filled files last))
      ⊎ ((files : List StoredFile) × (s ≡ finished files))
Scan-cases (filled files last) = inl (files, last, refl)
Scan-cases (finished files) = inr (files, refl)

pub none_left_nil : (xs : List S3Object) → is_none_left xs ≡ true → xs ≡ []
none_left_nil [] h = refl
none_left_nil (x ∷ xs) h = cc

module _ (extension_of : String → String) {before : String → String → Bool}
    {list_objects : Option String → ℕ → S3Answer ListResponse} {objects : List S3Object}
    (q : IsBucket before list_objects objects) where
  abbrev pub Runs : ℕ → ℕ → ListState → Scan → Type 0
  Runs fuel n st scanned =
      (st' : ListState) × (list_loop extension_of list_objects fuel n st ≡ some (answered st'))
      × Ends scanned st'

  stops :
      (fuel n : ℕ) (st : ListState) (scanned : Scan)
      → 0 < fuel
      → unfinished n st ≡ false
      → Ends scanned st
      → Runs fuel n st scanned
  unfolding list_loop
  stops zero n st scanned h k e = absurd (omega arith)
  stops (suc fuel) n st scanned h k e = (st, rw (k, list_loop) refl, e)

  pub start_of-key :
      (s : Option String) (xs : List S3Object) (o : S3Object) (ys : List S3Object)
      → remaining before s objects ≡ xs ++ o ∷ ys
      → start_of o.key ≡ some o.key
  start_of-key s xs o ys e =
      let real : o.key ≢ "" =
        (All-split (λ p. p.key ≢ "") xs (o ∷ ys)
          (rw (← e) (All-remaining before _ s objects q.keys))).1.0 in
      ground (arith, eq_iff o.key "")

  -- A page that the response fills: the loop ends after this response.
  round_filled :
      (fuel n c : ℕ) (xs : List S3Object) (st : ListState) (found : List StoredFile) (last : Bool)
      → 0 < fuel
      → length found ≡ n
      → scan extension_of n (take c xs) st.files ≡ filled found last
      → Runs fuel n
          (round extension_of n
            (record { contents = take c xs; is_truncated = ltb c (length xs) })
            st)
          (filled found (last && is_none_left (drop c xs)))
  unfolding round
  round_filled fuel n c xs st found last h k e = rw e (
      stops fuel n _ (filled found (last && is_none_left (drop c xs))) h (ground (arith, k))
        (refl, ap (λ b. last && b) (sym (drop-is_none_left c xs))))

  -- No more objects: the loop ends after this response.
  round_last :
      (fuel n c : ℕ) (xs : List S3Object) (st : ListState) (found : List StoredFile)
      → 0 < fuel
      → ltb c (length xs) ≡ false
      → scan extension_of n (take c xs) st.files ≡ finished found
      → Runs fuel n
          (round extension_of n
            (record { contents = take c xs; is_truncated = ltb c (length xs) })
            st)
          (finished found)
  unfolding round
  round_last fuel n c xs st found h k e =
      rw (e, k) (stops fuel n _ (finished found) h (ground arith) (refl, refl))

  requested :
      (fuel n : ℕ) (st : ListState) (r : ListResponse) (scanned : Scan)
      → unfinished n st ≡ true
      → list_objects (start_of st.start_after) n ≡ answered r
      → Runs fuel n (round extension_of n r st) scanned
      → Runs (suc fuel) n st scanned
  unfolding list_loop
  requested fuel n st r scanned going e (st', ends, as_scan) =
      (st', rw (going, list_loop) (rw e ends), as_scan)

  scan-nil : (n : ℕ) (found : List StoredFile) → scan extension_of n [] found ≡ finished found
  unfolding scan
  scan-nil n found = refl

  -- The response leaves objects and does not fill the page: the next request starts behind it.
  round_more :
      (n c : ℕ) (xs : List S3Object) (st : ListState) (found : List StoredFile)
      → ltb c (length xs) ≡ true
      → is_none_left (take c xs) ≡ false
      → scan extension_of n (take c xs) st.files ≡ finished found
      → round extension_of n (record { contents = take c xs; is_truncated = ltb c (length xs) }) st
        ≡ record {
          files = found;
          start_after = last_key st.start_after (take c xs);
          exhausted = false;
        }
  unfolding round
  round_more n c xs st found h k e = rw e (rw (h, k) refl)

  -- From any point, with more fuel than objects remain, the loop ends as one pass over these.
  pub list_loop-Runs :
      (fuel n : ℕ) (s : String) (files : List StoredFile) (xs : List S3Object)
      → remaining before (start_of s) objects ≡ xs
      → length files < n
      → suc (length xs) < fuel
      → Runs fuel n
          (record { files = files; start_after = s; exhausted = false })
          (scan extension_of n xs files)
  list_loop-Runs zero n s files xs e h k = absurd (omega arith)
  list_loop-Runs (suc fuel) n s files xs e h k =
      let st : ListState = record { files = files; start_after = s; exhausted = false } in
      let c = q.count (start_of s) n in
      let some_ : 0 < c = q.count-positive (start_of s) n (omega arith) in
      let response : ListResponse = record {
        contents = take c xs;
        is_truncated = ltb c (length xs);
      } in
      let lists : list_objects (start_of s) n ≡ answered response =
        q.lists (start_of s) n
        ∙ ap (λ zs. answered (record { contents = take c zs; is_truncated = ltb c (length zs) }))
            e in
      let cut : scan extension_of n xs files
          ≡ go_on extension_of n (drop c xs) (scan extension_of n (take c xs) files) =
        ap (λ zs. scan extension_of n zs files) (sym (take-drop c xs))
        ∙ scan-append extension_of n (take c xs) (drop c xs) files in
      requested fuel n st response (scan extension_of n xs files) (ground arith) lists
        (elim (Scan-cases (scan extension_of n (take c xs) files)) [
          | inl (found, last, is) ↦
              let full = scan-filled extension_of n (take c xs) files found last h is in
              rw cut (rw is (round_filled fuel n c xs st found last (omega arith) full.count is))
          | inr (found, is) ↦
              let (same, few) = scan-finished extension_of n (take c xs) files found h is in
              elim (Bool-cases (ltb c (length xs))) [
                | inr all_ ↦
                    let left_ : is_none_left (drop c xs) ≡ true =
                      rw (drop-is_none_left c xs) (rw all_ refl) in
                    rw cut (
                      rw is (
                        rw (none_left_nil (drop c xs) left_) (
                          rw (scan-nil n found)
                            (round_last fuel n c xs st found (omega arith) all_ is))))
                | inl more ↦
                    let t = last_taken c xs s some_ (ground (arith, more)) in
                    let split = e ∙ t.split in
                    let next_start : start_of t.last.key ≡ some t.last.key =
                      start_of-key (start_of s) t.front t.last (drop c xs) split in
                    let next_left : remaining before (start_of t.last.key) objects ≡ drop c xs =
                      ap (λ o. remaining before o objects) next_start
                      ∙ remaining-behind q (start_of s) t.front t.last (drop c xs) split in
                    let onward =
                      list_loop-Runs fuel n t.last.key found (drop c xs) next_left few
                        (omega (arith, length-drop c xs, ltb→lt c (length xs) more)) in
                    rw cut (
                      rw is (rw (round_more n c xs st found more t.some_left is) (rw t.key onward)))
              ]
        ])
