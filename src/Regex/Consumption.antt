-- ===== src/Regex/Consumption.antt =====
-- A text that a pattern matches has only characters that the analysis says it can consume.
use rhombus_ai.Base.{
  ℕ, zero, suc, ◌+◌, ◌-◌, ◌≤◌, ◌<◌, ◌≡◌, refl, true, false, List, [], ◌∷◌, inl, inr, any, ◌==◌,
  arith, All, All-append, ltb, Bool-cases, or_true_left, or_true_right,
}
use rhombus_ai.Regex.Charset.{
  CharTests, CharSet, union, universal_set, of_chars, of_category, holds, in_category,
}
use rhombus_ai.Regex.Syntax.{
  Element, Items, Branches, ClassItem, literal, not_literal, any_char, at, in_class, group, atomic,
  assert, assert_not, repeat, branch, groupref_exists, groupref, end, seq, stop, alt, negate,
  class_literal, range, category, other,
}
use rhombus_ai.Regex.Analysis.{
  code_range, class_charset_from, class_charset, consumed_element, consumed, consumed_branches,
}
use rhombus_ai.Regex.Matching.{
  Engine, Agrees, Iterated, MatchesSome, MatchesClass, MatchesElement, Matches, MatchesBranches,
}
use rhombus_ai.Regex.Overlap.{holds-union}

code_range-holds :
    (low n c : ℕ) → low ≤ c → c < low + n → any (λ d. c == d) (code_range low n) ≡ true
unfolding code_range
code_range-holds low zero c h k = absurd (omega arith)
code_range-holds low (suc n) c h k = elim (Bool-cases (c == low)) [
  | inl same ↦ rw same refl
  | inr apart ↦ rw apart (code_range-holds (suc low) n c (ground arith) (omega arith))
]

module _ (tests : CharTests) where
  abbrev pub Covers : CharSet → List ℕ → Type 0
  Covers s w = All (λ c. holds tests s c ≡ true) w

  Covers-universal : (w : List ℕ) → Covers universal_set w
  unfolding holds
  Covers-universal [] = tt
  Covers-universal (c ∷ w) = (refl, Covers-universal w)

  pub holds-union_left :
      (a b : CharSet) (c : ℕ) → holds tests a c ≡ true → holds tests (union a b) c ≡ true
  holds-union_left a b c h =
      rw (holds-union tests a b c) (or_true_left (holds tests a c) (holds tests b c) h)

  pub holds-union_right :
      (a b : CharSet) (c : ℕ) → holds tests b c ≡ true → holds tests (union a b) c ≡ true
  holds-union_right a b c h =
      rw (holds-union tests a b c) (or_true_right (holds tests a c) (holds tests b c) h)

  Covers-union_left : (a b : CharSet) (w : List ℕ) → Covers a w → Covers (union a b) w
  Covers-union_left a b [] h = tt
  Covers-union_left a b (c ∷ w) h = (holds-union_left a b c h.0, Covers-union_left a b w h.1)

  Covers-union_right : (a b : CharSet) (w : List ℕ) → Covers b w → Covers (union a b) w
  Covers-union_right a b [] h = tt
  Covers-union_right a b (c ∷ w) h = (holds-union_right a b c h.0, Covers-union_right a b w h.1)

  of_chars-holds : (c : ℕ) → holds tests (of_chars (c ∷ [])) c ≡ true
  unfolding holds
  of_chars-holds c = ground arith

  range-holds :
      (low high c : ℕ)
      → low ≤ c
      → c ≤ high
      → holds tests (of_chars (code_range low (suc high - low))) c ≡ true
  unfolding holds
  range-holds low high c h k =
      or_true_left (any (λ d. c == d) (code_range low (suc high - low))) false
        (code_range-holds low (suc high - low) c h (omega arith))

  module _ (engine : Engine) (agrees : Agrees tests engine) where
    class_charset_from-kept :
        (items : List ClassItem) (s : CharSet) (c : ℕ)
        → holds tests s c ≡ true
        → holds tests (class_charset_from items s) c ≡ true
    unfolding class_charset_from
    class_charset_from-kept [] s c h = h
    class_charset_from-kept (negate ∷ items) s c h = unfold holds in refl
    class_charset_from-kept (class_literal d ∷ items) s c h =
        class_charset_from-kept items _ c (holds-union_right (of_chars (d ∷ [])) s c h)
    class_charset_from-kept (range low high ∷ items) s c h =
        let chars = code_range low (suc high - low) in
        elim (Bool-cases (ltb 256 (high - low))) [
          | inl many ↦ rw many (unfold holds in refl)
          | inr few ↦
              rw few (class_charset_from-kept items _ c (holds-union_right (of_chars chars) s c h))
        ]
    class_charset_from-kept (category cat ∷ items) s c h =
        class_charset_from-kept items _ c (holds-union_right (of_category cat) s c h)
    class_charset_from-kept (other n ∷ items) s c h = unfold holds in refl

    class_charset_from-Matches :
        (items : List ClassItem) (s : CharSet) (c : ℕ)
        → MatchesSome engine items c
        → holds tests (class_charset_from items s) c ≡ true
    unfolding class_charset_from
    class_charset_from-Matches [] s c m = absurd m
    class_charset_from-Matches (negate ∷ items) s c m = unfold holds in refl
    class_charset_from-Matches (class_literal d ∷ items) s c (inl m) =
        class_charset_from-kept items _ c
          (holds-union_left (of_chars (d ∷ [])) s c (rw m (of_chars-holds d)))
    class_charset_from-Matches (class_literal d ∷ items) s c (inr m) =
        class_charset_from-Matches items _ c m
    class_charset_from-Matches (range low high ∷ items) s c (inl (above, below)) =
        let chars = code_range low (suc high - low) in
        elim (Bool-cases (ltb 256 (high - low))) [
          | inl many ↦ rw many (unfold holds in refl)
          | inr few ↦ rw few (
              class_charset_from-kept items _ c
                (holds-union_left (of_chars chars) s c (range-holds low high c above below)))
        ]
    class_charset_from-Matches (range low high ∷ items) s c (inr m) =
        elim (Bool-cases (ltb 256 (high - low))) [
          | inl many ↦ rw many (unfold holds in refl)
          | inr few ↦ rw few (class_charset_from-Matches items _ c m)
        ]
    class_charset_from-Matches (category cat ∷ items) s c (inl m) =
        class_charset_from-kept items _ c (
          holds-union_left (of_category cat) s c
            (unfold holds in or_true_left (in_category tests c cat) false (agrees cat c m)))
    class_charset_from-Matches (category cat ∷ items) s c (inr m) =
        class_charset_from-Matches items _ c m
    class_charset_from-Matches (other n ∷ items) s c m = unfold holds in refl

    class_charset-Matches :
        (items : List ClassItem) (c : ℕ)
        → MatchesClass engine items c
        → holds tests (class_charset items) c ≡ true
    class_charset-Matches [] c m = absurd m
    class_charset-Matches (negate ∷ items) c m = unfold class_charset_from holds in refl
    class_charset-Matches (class_literal d ∷ items) c m = class_charset_from-Matches _ _ c m
    class_charset-Matches (range low high ∷ items) c m = class_charset_from-Matches _ _ c m
    class_charset-Matches (category cat ∷ items) c m = class_charset_from-Matches _ _ c m
    class_charset-Matches (other n ∷ items) c m = class_charset_from-Matches _ _ c m

    Iterated-Covers :
        (n : ℕ) (P : List ℕ → Type 0) (s : CharSet) (w : List ℕ)
        → ((u : List ℕ) → P u → Covers s u)
        → Iterated n P w
        → Covers s w
    Iterated-Covers zero P s w h m = rw m tt
    Iterated-Covers (suc n) P s w h (u, v, at_, p, rest) =
        rw at_ (All-append _ u v (h u p) (Iterated-Covers n P s v h rest))

    mutual
      unfolding consumed_element

      consumed_element-Covers :
          (x : Element) (w : List ℕ) → MatchesElement engine x w → Covers (consumed_element x) w
      consumed_element-Covers (literal c) w m = rw m (of_chars-holds c, tt)
      consumed_element-Covers (not_literal c) w m = Covers-universal w
      consumed_element-Covers any_char w m = Covers-universal w
      consumed_element-Covers at w m = rw m tt
      consumed_element-Covers (in_class items) w (d, m, k) =
          rw m (class_charset-Matches items d k, tt)
      consumed_element-Covers (group body) w m = consumed-Covers body w m
      consumed_element-Covers (atomic body) w m = consumed-Covers body w m
      consumed_element-Covers (assert body) w m = rw m tt
      consumed_element-Covers (assert_not body) w m = rw m tt
      consumed_element-Covers (repeat kind low high body) w (n, k, l, m) =
          Iterated-Covers n (Matches engine body) (consumed body) w (λ u. consumed-Covers body u) m
      consumed_element-Covers (branch bs) w m = consumed_branches-Covers bs w m
      consumed_element-Covers (groupref_exists bs) w (inl m) = rw m tt
      consumed_element-Covers (groupref_exists bs) w (inr m) = consumed_branches-Covers bs w m
      consumed_element-Covers (groupref n) w m = Covers-universal w

      consumed-Covers :
          (items : Items) (w : List ℕ) → Matches engine items w → Covers (consumed items) w
      consumed-Covers end w m = rw m tt
      consumed-Covers (seq x items) w (u, v, at_, p, q) = rw at_ (
          All-append _ u v
            (Covers-union_left (consumed_element x) (consumed items) u
              (consumed_element-Covers x u p))
            (Covers-union_right (consumed_element x) (consumed items) v
              (consumed-Covers items v q)))

      consumed_branches-Covers :
          (bs : Branches) (w : List ℕ)
          → MatchesBranches engine bs w
          → Covers (consumed_branches bs) w
      consumed_branches-Covers stop w m = absurd m
      consumed_branches-Covers (alt items bs) w (inl m) =
          Covers-union_left (consumed items) (consumed_branches bs) w (consumed-Covers items w m)
      consumed_branches-Covers (alt items bs) w (inr m) =
          Covers-union_right (consumed items) (consumed_branches bs) w
            (consumed_branches-Covers bs w m)

    pub consumed_element-holds :
        (x : Element) (c : ℕ) (w : List ℕ)
        → MatchesElement engine x (c ∷ w)
        → holds tests (consumed_element x) c ≡ true
    consumed_element-holds x c w m = (consumed_element-Covers x (c ∷ w) m).0

    -- Every character of every text that a pattern matches is in the set that the analysis says
    -- the pattern consumes, back references included, where Python's tests accept what the engine
    -- takes for a category.
    pub consumed-Covers_lem :
        (items : Items) (w : List ℕ) → Matches engine items w → Covers (consumed items) w
    consumed-Covers_lem items w m = consumed-Covers items w m
