-- ===== src/Regex/Syntax.antt =====
-- What Python's parser `re._parser` returns, as far as backend/processing/regex_safety.py reads it.
use rhombus_ai.Base.{ℕ, Bool, true, ltb, List}
use rhombus_ai.Regex.Charset.{Category}

-- The maximum of a repeat; `maxrepeat` is the constant of an open one.
pub data Bound : Type 0 where
  at_most : ℕ → Bound
  maxrepeat : Bound

-- `MAX_REPEAT`, `MIN_REPEAT` and `POSSESSIVE_REPEAT`.
pub data RepeatKind : Type 0 where
  greedy lazy possessive : RepeatKind

-- The items of a character class; a category outside the three of `_CATEGORIES` is `other`.
pub data ClassItem : Type 0 where
  negate : ClassItem
  class_literal : ℕ → ClassItem
  range : ℕ → ℕ → ClassItem
  category : Category → ClassItem
  other : ℕ → ClassItem

-- `at` is an anchor. `groupref_exists` holds the two parts of a conditional that are not None.
mutual
  pub data Element : Type 0 where
    literal not_literal : ℕ → Element
    any_char at : Element
    in_class : List ClassItem → Element
    group atomic assert assert_not : Items → Element
    repeat : RepeatKind → ℕ → Bound → Items → Element
    branch groupref_exists : Branches → Element
    groupref : ℕ → Element

  pub data Items : Type 0 where
    end : Items
    seq : Element → Items → Items

  pub data Branches : Type 0 where
    stop : Branches
    alt : Items → Branches → Branches

abbrev pub wide_repeat_threshold : ℕ
wide_repeat_threshold = 10

unfoldable pub is_wide : Bound → Bool
is_wide maxrepeat = true
is_wide (at_most n) = ltb wide_repeat_threshold n

-- `av[1] > 1`
unfoldable pub above_one : Bound → Bool
above_one maxrepeat = true
above_one (at_most n) = ltb 1 n
