-- ===== src/Regex/Safety.antt =====
-- The search for backtracking risks and the checks that need a parser and an engine, of
-- backend/processing/regex_safety.py. Python's `re` and the `regex` package are parameters.
use rhombus_ai.Base.{
  String, Bool, false, not, ◌&&◌, ◌||◌, Option, none, some, List, [], ◌∷◌, any, if◌then◌else◌,
}
use rhombus_ai.Regex.Charset.{CharTests, CharSet, overlaps}
use rhombus_ai.Regex.Syntax.{
  Element, Items, Branches, literal, not_literal, any_char, at, in_class, group, atomic, assert,
  assert_not, repeat, branch, groupref_exists, groupref, end, seq, stop, alt, greedy, lazy,
  possessive, is_wide,
}
use rhombus_ai.Regex.Analysis.{
  consumed_element, nullable_element, nullable, nullable_branches, first, has_backtracking_repeat,
}

-- `_unwrap_group`
unfoldable pub unwrap_group : Items → Items
unwrap_group (seq (group body) end) = unwrap_group body
unwrap_group items = items

unfoldable pub firsts : Branches → List CharSet
firsts stop = []
firsts (alt items bs) = first items ∷ firsts bs

-- `body[:index] + …`
unfoldable pub append_items : Items → Items → Items
append_items end items = items
append_items (seq e rest) items = seq e (append_items rest items)

abbrev pub or_else : Option String → Option String → Option String
or_else (some risk) other = some risk
or_else none other = other

module _ (tests : CharTests) where
  -- `any(a.overlaps(b) for a, b in combinations(firsts, 2))`
  unfoldable pub any_pair_overlaps : List CharSet → Bool
  any_pair_overlaps [] = false
  any_pair_overlaps (s ∷ sets) = any (overlaps tests s) sets || any_pair_overlaps sets

  unfoldable pub branches_overlap : Branches → Bool
  unfolding any_pair_overlaps firsts
  branches_overlap bs = nullable_branches bs || any_pair_overlaps (firsts bs)

  -- Whether some of the other elements separates the iterations of `inner`.
  unfoldable pub separated : CharSet → Items → Bool
  separated inner end = false
  separated inner (seq e items) =
      (not (nullable_element e)
        && not (consumed_element e).universal
        && not (overlaps tests (consumed_element e) inner))
      || separated inner items

  abbrev pub alternatives_risk : Element → Bool
  alternatives_risk (branch bs) = branches_overlap bs
  alternatives_risk e = false

  -- The loop over `enumerate(body)`, with the elements before the index.
  unfoldable pub risk_of_elements : Items → Items → Option String
  unfolding append_items separated branches_overlap
  risk_of_elements before end = none
  risk_of_elements before (seq e items) =
      let rest = risk_of_elements (append_items before (seq e end)) items in
      if alternatives_risk e
      then some "alternatives inside a repeated group that can match the same text"
      else if not (has_backtracking_repeat e)
      then rest
      else if separated (consumed_element e) (append_items before items)
      then rest
      else some "a quantifier nested inside another quantifier without a distinct separator"

  unfoldable pub risk_in_repeated_body : Items → Option String
  unfolding risk_of_elements
  risk_in_repeated_body body =
      if nullable body
      then some "a repeated group that can match empty text"
      else risk_of_elements end body

  unfoldable mutual
    unfolding risk_in_repeated_body unwrap_group is_wide

    pub backtracking_risk : Element → Option String
    backtracking_risk (atomic body) = none
    backtracking_risk (repeat possessive low high body) = none
    backtracking_risk (repeat greedy low high body) =
        or_else (if is_wide high then risk_in_repeated_body (unwrap_group body) else none)
          (find_backtracking_risk body)
    backtracking_risk (repeat lazy low high body) =
        or_else (if is_wide high then risk_in_repeated_body (unwrap_group body) else none)
          (find_backtracking_risk body)
    backtracking_risk (group body) = find_backtracking_risk body
    backtracking_risk (assert body) = find_backtracking_risk body
    backtracking_risk (assert_not body) = find_backtracking_risk body
    backtracking_risk (branch bs) = backtracking_risk_branches bs
    backtracking_risk (groupref_exists bs) = backtracking_risk_branches bs
    backtracking_risk (literal c) = none
    backtracking_risk (not_literal c) = none
    backtracking_risk any_char = none
    backtracking_risk at = none
    backtracking_risk (in_class items) = none
    backtracking_risk (groupref n) = none

    pub find_backtracking_risk : Items → Option String
    find_backtracking_risk end = none
    find_backtracking_risk (seq e items) =
        or_else (backtracking_risk e) (find_backtracking_risk items)

    pub backtracking_risk_branches : Branches → Option String
    backtracking_risk_branches stop = none
    backtracking_risk_branches (alt items bs) =
        or_else (find_backtracking_risk items) (backtracking_risk_branches bs)
