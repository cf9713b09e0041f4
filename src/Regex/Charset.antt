-- ===== src/Regex/Charset.antt =====
-- `_CharSet` of backend/processing/regex_safety.py. A character is its code point, a frozenset a
-- list of its members; the tests of a character are Python's and a parameter.
use rhombus_ai.Base.{ℕ, Bool, true, false, not, ◌||◌, List, [], ◌∷◌, ◌++◌, any, ◌==◌, if◌then◌else◌}

-- `str.isdigit`, `str.isalnum` or an underscore, and `str.isspace`.
pub record CharTests : Type 0 where
  pub is_digit : ℕ → Bool
  pub is_word : ℕ → Bool
  pub is_space : ℕ → Bool

pub data Category : Type 0 where
  digit word space : Category

pub record CharSet : Type 0 where
  pub chars : List ℕ
  pub categories : List Category
  pub universal : Bool

abbrev pub universal_set : CharSet
universal_set = record { chars = []; categories = []; universal = true }

abbrev pub nothing : CharSet
nothing = record { chars = []; categories = []; universal = false }

abbrev pub of_chars : List ℕ → CharSet
of_chars chars = record { chars = chars; categories = []; universal = false }

abbrev pub of_category : Category → CharSet
of_category cat = record { chars = []; categories = cat ∷ []; universal = false }

abbrev pub is_nil : {A : Type 0} → List A → Bool
is_nil [] = true
is_nil (x ∷ xs) = false

abbrev pub is_empty : CharSet → Bool
is_empty s = not (not (is_nil s.chars) || not (is_nil s.categories) || s.universal)

unfoldable pub union : CharSet → CharSet → CharSet
union a b = record {
  chars = a.chars ++ b.chars;
  categories = a.categories ++ b.categories;
  universal = a.universal || b.universal;
}

-- `a == b or {a, b} == {"digit", "word"}`
unfoldable pub categories_meet : Category → Category → Bool
categories_meet digit digit = true
categories_meet digit word = true
categories_meet word digit = true
categories_meet word word = true
categories_meet space space = true
categories_meet _ _ = false

module _ (T : CharTests) where
  unfoldable pub in_category : ℕ → Category → Bool
  in_category c digit = T.is_digit c
  in_category c word = T.is_word c
  in_category c space = T.is_space c

  unfoldable pub overlaps : CharSet → CharSet → Bool
  unfolding in_category categories_meet
  overlaps a b =
      if is_empty a || is_empty b
      then false
      else a.universal
        || b.universal
        || any (λ c. any (λ d. c == d) b.chars) a.chars
        || any (λ cat. any (λ c. in_category c cat) b.chars) a.categories
        || any (λ cat. any (λ c. in_category c cat) a.chars) b.categories
        || any (λ p. any (λ q. categories_meet p q) b.categories) a.categories

  -- The characters that a set stands for.
  unfoldable pub holds : CharSet → ℕ → Bool
  unfolding in_category
  holds s c =
      s.universal || any (λ d. c == d) s.chars || any (λ cat. in_category c cat) s.categories
