-- ===== src/Regex/Matching.antt =====
-- What the elements of a parsed pattern match, as a description independent of the analysis. An
-- anchor or a look-around holds anywhere, a dot matches every character, a conditional may take
-- either part or neither, and a back reference matches every text: each is at least what the
-- engine matches, without the case-insensitive flag.
use rhombus_ai.Base.{ℕ, zero, suc, ◌≤◌, ◌≡◌, ◌≢◌, Bool, true, false, ◌||◌, List, [], ◌∷◌, ◌++◌, ◌⊎◌}
use rhombus_ai.Regex.Charset.{CharTests, Category, in_category}
use rhombus_ai.Regex.Syntax.{
  Element, Items, Branches, ClassItem, Bound, literal, not_literal, any_char, at, in_class, group,
  atomic, assert, assert_not, repeat, branch, groupref_exists, groupref, end, seq, stop, alt,
  negate, class_literal, range, category, other, at_most, maxrepeat,
}

-- What the engine matches for a category of a class.
pub record Engine : Type 0 where
  pub category_matches : Category → ℕ → Bool
  pub other_matches : ℕ → ℕ → Bool

-- `n` texts in turn, each of which `P` matches.
abbrev pub Iterated : ℕ → (List ℕ → Type 0) → List ℕ → Type 0
Iterated zero P w = w ≡ []
Iterated (suc n) P w = (u : List ℕ) × (v : List ℕ) × (w ≡ u ++ v) × P u × Iterated n P v

abbrev pub IsWithin : ℕ → Bound → Type 0
IsWithin n maxrepeat = Unit
IsWithin n (at_most m) = n ≤ m

module _ (engine : Engine) where
  abbrev pub MatchesSome : List ClassItem → ℕ → Type 0
  MatchesSome [] c = ⊥
  MatchesSome (negate ∷ items) c = MatchesSome items c
  MatchesSome (class_literal d ∷ items) c = (c ≡ d) ⊎ MatchesSome items c
  MatchesSome (range low high ∷ items) c = ((low ≤ c) × (c ≤ high)) ⊎ MatchesSome items c
  MatchesSome (category cat ∷ items) c =
      (engine.category_matches cat c ≡ true) ⊎ MatchesSome items c
  MatchesSome (other n ∷ items) c = (engine.other_matches n c ≡ true) ⊎ MatchesSome items c

  abbrev pub MatchesClass : List ClassItem → ℕ → Type 0
  MatchesClass (negate ∷ items) c = ¬ MatchesSome items c
  MatchesClass items c = MatchesSome items c

  abbrev mutual
    pub MatchesElement : Element → List ℕ → Type 0
    MatchesElement (literal c) w = w ≡ c ∷ []
    MatchesElement (not_literal c) w = (d : ℕ) × (w ≡ d ∷ []) × (d ≢ c)
    MatchesElement any_char w = (d : ℕ) × (w ≡ d ∷ [])
    MatchesElement at w = w ≡ []
    MatchesElement (in_class items) w = (d : ℕ) × (w ≡ d ∷ []) × MatchesClass items d
    MatchesElement (group body) w = Matches body w
    MatchesElement (atomic body) w = Matches body w
    MatchesElement (assert body) w = w ≡ []
    MatchesElement (assert_not body) w = w ≡ []
    MatchesElement (repeat kind low high body) w =
        (n : ℕ) × (low ≤ n) × IsWithin n high × Iterated n (Matches body) w
    MatchesElement (branch bs) w = MatchesBranches bs w
    MatchesElement (groupref_exists bs) w = (w ≡ []) ⊎ MatchesBranches bs w
    MatchesElement (groupref n) w = Unit

    pub Matches : Items → List ℕ → Type 0
    Matches end w = w ≡ []
    Matches (seq e items) w =
        (u : List ℕ) × (v : List ℕ) × (w ≡ u ++ v) × MatchesElement e u × Matches items v

    pub MatchesBranches : Branches → List ℕ → Type 0
    MatchesBranches stop w = ⊥
    MatchesBranches (alt items bs) w = Matches items w ⊎ MatchesBranches bs w

-- Whether a pattern holds a back reference.
unfoldable mutual
  pub refers_back_element : Element → Bool
  refers_back_element (groupref n) = true
  refers_back_element (group body) = refers_back body
  refers_back_element (atomic body) = refers_back body
  refers_back_element (assert body) = refers_back body
  refers_back_element (assert_not body) = refers_back body
  refers_back_element (repeat kind low high body) = refers_back body
  refers_back_element (branch bs) = refers_back_branches bs
  refers_back_element (groupref_exists bs) = refers_back_branches bs
  refers_back_element (literal c) = false
  refers_back_element (not_literal c) = false
  refers_back_element any_char = false
  refers_back_element at = false
  refers_back_element (in_class items) = false

  pub refers_back : Items → Bool
  refers_back end = false
  refers_back (seq e items) = refers_back_element e || refers_back items

  pub refers_back_branches : Branches → Bool
  refers_back_branches stop = false
  refers_back_branches (alt items bs) = refers_back items || refers_back_branches bs

-- Python's tests accept every character that the engine takes for a category.
abbrev pub Agrees : CharTests → Engine → Type 0
Agrees tests engine =
    (cat : Category) (c : ℕ) → engine.category_matches cat c ≡ true → in_category tests c cat ≡ true
