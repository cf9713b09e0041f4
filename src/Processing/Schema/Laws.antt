-- ===== src/Processing/Schema/Laws.antt =====
-- The columns that a transform works on: the requested ones, once each and all in the source.
use rhombus_ai.Base.{
  String, true, false, not, ◌&&◌, ◌≡◌, refl, List, [], ◌∷◌, arith, str_eq, eq_iff, Bool-cases, inl,
  inr,
}
use rhombus_ai.Failure.{ok}
use rhombus_ai.Processing.Schema.{
  contains, is_present, find_missing_columns, fromkeys_after, fromkeys, checked, require_columns,
}

-- The columns reported as missing are the requested ones that the source does not have; its
-- reserved columns count as missing.
pub contains-find_missing_columns :
    (available requested : List String) (c : String)
    → contains (find_missing_columns available requested) c
      ≡ contains requested c && not (is_present available c)
unfolding find_missing_columns
contains-find_missing_columns available [] c = refl
contains-find_missing_columns available (column ∷ requested) c =
    elim (Bool-cases (str_eq c column)) [
      | inl same ↦
          let at : c ≡ column = (eq_iff c column).0 same in
          ground (arith, at, contains-find_missing_columns available requested c)
      | inr other ↦ ground (arith, other, contains-find_missing_columns available requested c)
    ]

abbrev pub IsDistinct : List String → Type 0
IsDistinct [] = Unit
IsDistinct (name ∷ names) = (contains names name ≡ false) × IsDistinct names

contains-fromkeys_after :
    (seen names : List String) (c : String)
    → contains (fromkeys_after seen names) c ≡ contains names c && not (contains seen c)
unfolding fromkeys_after
contains-fromkeys_after seen [] c = refl
contains-fromkeys_after seen (name ∷ names) c = elim (Bool-cases (str_eq c name)) [
  | inl same ↦
      let at : c ≡ name = (eq_iff c name).0 same in
      ground (
        arith,
        at,
        contains-fromkeys_after seen names c,
        contains-fromkeys_after (name ∷ seen) names c,
      )
  | inr other ↦ ground (
    arith,
    other,
    contains-fromkeys_after seen names c,
    contains-fromkeys_after (name ∷ seen) names c,
  )
]

fromkeys_after-IsDistinct : (seen names : List String) → IsDistinct (fromkeys_after seen names)
unfolding fromkeys_after
fromkeys_after-IsDistinct seen [] = tt
fromkeys_after-IsDistinct seen (name ∷ names) = ground (
  arith,
  eq_iff name name,
  contains-fromkeys_after (name ∷ seen) names name,
  fromkeys_after-IsDistinct seen names,
  fromkeys_after-IsDistinct (name ∷ seen) names,
)

none_missing :
    (available targets : List String) (c : String)
    → find_missing_columns available targets ≡ []
    → contains targets c ≡ true
    → is_present available c ≡ true
none_missing available targets c none_ h =
    ground (arith, contains-find_missing_columns available targets c)

checked-ok :
    (missing targets ts : List String) (message : List String → String)
    → checked missing targets message ≡ ok ts
    → (missing ≡ []) × (targets ≡ ts)
checked-ok [] targets ts message h = ground arith
checked-ok (m ∷ missing) targets ts message h = cc

-- The columns that a transform gets are distinct, they are the requested ones and no others, and
-- each is a column of the source that is not reserved.
pub require_columns-ok :
    (message : List String → String) (available columns targets : List String)
    → require_columns message available columns ≡ ok targets
    → IsDistinct targets
      × ((c : String) → contains targets c ≡ contains columns c)
      × ((c : String) → contains columns c ≡ true → is_present available c ≡ true)
unfolding require_columns fromkeys
require_columns-ok message available columns targets h =
    let asked = fromkeys columns in
    let (none_, same) = checked-ok (find_missing_columns available asked) asked targets message h in
    let held : (c : String) → contains (fromkeys columns) c ≡ contains columns c =
      λ c. ground (arith, contains-fromkeys_after [] columns c) in
    rw (← same) (
      fromkeys_after-IsDistinct [] columns,
      held,
      λ c asked. none_missing available (fromkeys columns) c none_ (ground (arith, held c, asked)),
    )
