-- ===== src/Regex/Analysis.antt =====
-- The structural analysis of backend/processing/regex_safety.py: what an element can consume and
-- begin with, and whether it can match empty text. The loops over the nested sequences of
-- `_children` are the functions on `Branches`, or the call on the one sequence that an element has.
use rhombus_ai.Base.{
  ℕ, zero, suc, ◌-◌, Bool, true, false, ◌&&◌, ◌||◌, List, [], ◌∷◌, ◌==◌, ltb, if◌then◌else◌,
}
use rhombus_ai.Regex.Charset.{CharSet, of_chars, of_category, union, universal_set, nothing}
use rhombus_ai.Regex.Syntax.{
  Element, Items, Branches, ClassItem, literal, not_literal, any_char, at, in_class, group, atomic,
  assert, assert_not, repeat, branch, groupref_exists, groupref, end, seq, stop, alt, negate,
  class_literal, range, category, other, greedy, lazy, possessive, above_one,
}

-- `range(low, low + count)`
unfoldable pub code_range : ℕ → ℕ → List ℕ
code_range low zero = []
code_range low (suc n) = low ∷ code_range (suc low) n

-- The loop of `_class_charset` with `chars` and `categories`.
unfoldable pub class_charset_from : List ClassItem → CharSet → CharSet
unfolding code_range union
class_charset_from [] s = s
class_charset_from (negate ∷ items) s = universal_set
class_charset_from (class_literal c ∷ items) s =
    class_charset_from items (union (of_chars (c ∷ [])) s)
class_charset_from (range low high ∷ items) s =
    let rest = class_charset_from items (union (of_chars (code_range low (suc high - low))) s) in
    if ltb 256 (high - low) then universal_set else rest
class_charset_from (category cat ∷ items) s = class_charset_from items (union (of_category cat) s)
class_charset_from (other n ∷ items) s = universal_set

abbrev pub class_charset : List ClassItem → CharSet
class_charset items = class_charset_from items nothing

unfoldable mutual
  unfolding union class_charset_from

  pub consumed_element : Element → CharSet
  consumed_element (literal c) = of_chars (c ∷ [])
  consumed_element (in_class items) = class_charset items
  consumed_element any_char = universal_set
  consumed_element (not_literal c) = universal_set
  consumed_element (groupref n) = universal_set
  consumed_element (assert body) = nothing
  consumed_element (assert_not body) = nothing
  consumed_element at = nothing
  consumed_element (group body) = consumed body
  consumed_element (atomic body) = consumed body
  consumed_element (repeat kind low high body) = consumed body
  consumed_element (branch bs) = consumed_branches bs
  consumed_element (groupref_exists bs) = consumed_branches bs

  pub consumed : Items → CharSet
  consumed end = nothing
  consumed (seq e items) = union (consumed_element e) (consumed items)

  pub consumed_branches : Branches → CharSet
  consumed_branches stop = nothing
  consumed_branches (alt items bs) = union (consumed items) (consumed_branches bs)

unfoldable mutual
  pub nullable_element : Element → Bool
  nullable_element at = true
  nullable_element (assert body) = true
  nullable_element (assert_not body) = true
  nullable_element (groupref_exists bs) = true
  nullable_element (repeat kind low high body) = (low == 0) || nullable body
  nullable_element (branch bs) = nullable_branches bs
  nullable_element (group body) = nullable body
  nullable_element (atomic body) = nullable body
  nullable_element (literal c) = false
  nullable_element (not_literal c) = false
  nullable_element any_char = false
  nullable_element (in_class items) = false
  nullable_element (groupref n) = false

  pub nullable : Items → Bool
  nullable end = true
  nullable (seq e items) = nullable_element e && nullable items

  pub nullable_branches : Branches → Bool
  nullable_branches stop = false
  nullable_branches (alt items bs) = nullable items || nullable_branches bs

unfoldable mutual
  unfolding consumed_element nullable_element union

  pub first_element : Element → CharSet
  first_element (branch bs) = first_branches bs
  first_element at = nothing
  first_element (assert body) = nothing
  first_element (assert_not body) = nothing
  first_element (group body) = first body
  first_element (atomic body) = first body
  first_element (repeat kind low high body) = first body
  first_element (literal c) = consumed_element (literal c)
  first_element (not_literal c) = consumed_element (not_literal c)
  first_element any_char = consumed_element any_char
  first_element (in_class items) = consumed_element (in_class items)
  first_element (groupref n) = consumed_element (groupref n)
  first_element (groupref_exists bs) = consumed_element (groupref_exists bs)

  pub first : Items → CharSet
  first end = nothing
  first (seq e items) =
      union (first_element e) (if nullable_element e then first items else nothing)

  pub first_branches : Branches → CharSet
  first_branches stop = nothing
  first_branches (alt items bs) = union (first items) (first_branches bs)

unfoldable mutual
  unfolding above_one

  pub has_backtracking_repeat : Element → Bool
  has_backtracking_repeat (repeat possessive low high body) = false
  has_backtracking_repeat (repeat greedy low high body) =
      above_one high || has_backtracking_repeat_in body
  has_backtracking_repeat (repeat lazy low high body) =
      above_one high || has_backtracking_repeat_in body
  has_backtracking_repeat (atomic body) = false
  has_backtracking_repeat (group body) = has_backtracking_repeat_in body
  has_backtracking_repeat (assert body) = has_backtracking_repeat_in body
  has_backtracking_repeat (assert_not body) = has_backtracking_repeat_in body
  has_backtracking_repeat (branch bs) = has_backtracking_repeat_branches bs
  has_backtracking_repeat (groupref_exists bs) = has_backtracking_repeat_branches bs
  has_backtracking_repeat (literal c) = false
  has_backtracking_repeat (not_literal c) = false
  has_backtracking_repeat any_char = false
  has_backtracking_repeat at = false
  has_backtracking_repeat (in_class items) = false
  has_backtracking_repeat (groupref n) = false

  pub has_backtracking_repeat_in : Items → Bool
  has_backtracking_repeat_in end = false
  has_backtracking_repeat_in (seq e items) =
      has_backtracking_repeat e || has_backtracking_repeat_in items

  pub has_backtracking_repeat_branches : Branches → Bool
  has_backtracking_repeat_branches stop = false
  has_backtracking_repeat_branches (alt items bs) =
      has_backtracking_repeat_in items || has_backtracking_repeat_branches bs
