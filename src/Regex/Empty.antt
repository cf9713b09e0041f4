-- ===== src/Regex/Empty.antt =====
-- The analysis finds every pattern without back references that matches the empty text.
use rhombus_ai.Base.{
  ℕ, zero, suc, ◌≤◌, ◌≡◌, refl, true, false, List, [], ◌∷◌, ◌++◌, inl, inr, ◌==◌, arith, Bool-cases,
  or_false, and_true, or_true_left, or_true_right,
}
use rhombus_ai.Regex.Syntax.{
  Element, Items, Branches, literal, not_literal, any_char, at, in_class, group, atomic, assert,
  assert_not, repeat, branch, groupref_exists, groupref, end, seq, stop, alt,
}
use rhombus_ai.Regex.Analysis.{nullable_element, nullable, nullable_branches}
use rhombus_ai.Regex.Matching.{
  Engine, Iterated, MatchesElement, Matches, MatchesBranches, refers_back_element, refers_back,
  refers_back_branches,
}

pub append-nil_left : (u v : List ℕ) → u ++ v ≡ [] → u ≡ []
append-nil_left [] v h = refl
append-nil_left (c ∷ u) v h = cc

pub append-nil_right : (u v : List ℕ) → u ++ v ≡ [] → v ≡ []
append-nil_right [] v h = h
append-nil_right (c ∷ u) v h = cc

module _ (engine : Engine) where
  Iterated-nil :
      (n low : ℕ) (P : List ℕ → Type 0) (w : List ℕ)
      → (low == 0) ≡ false
      → low ≤ n
      → Iterated n P w
      → w ≡ []
      → (u : List ℕ) × P u × (u ≡ [])
  Iterated-nil zero low P w h k m e = absurd (ground arith)
  Iterated-nil (suc n) low P w h k (u, v, at_, p, rest) e =
      (u, p, append-nil_left u v (cc (at_, e)))

  mutual
    unfolding nullable_element refers_back_element

    nullable_element-Matches :
        (x : Element) (w : List ℕ)
        → refers_back_element x ≡ false
        → MatchesElement engine x w
        → w ≡ []
        → nullable_element x ≡ true
    nullable_element-Matches (literal c) w b m e = cc (m, e)
    nullable_element-Matches (not_literal c) w b (d, m, k) e = cc (m, e)
    nullable_element-Matches any_char w b (d, m) e = cc (m, e)
    nullable_element-Matches at w b m e = refl
    nullable_element-Matches (in_class items) w b (d, m, k) e = cc (m, e)
    nullable_element-Matches (group body) w b m e = nullable-Matches body w b m e
    nullable_element-Matches (atomic body) w b m e = nullable-Matches body w b m e
    nullable_element-Matches (assert body) w b m e = refl
    nullable_element-Matches (assert_not body) w b m e = refl
    nullable_element-Matches (repeat kind low high body) w b (n, k, l, m) e =
        elim (Bool-cases (low == 0)) [
          | inl none_ ↦ rw none_ refl
          | inr some_ ↦
              let (u, p, q) = Iterated-nil n low (Matches engine body) w some_ k m e in
              rw some_ (nullable-Matches body u b p q)
        ]
    nullable_element-Matches (branch bs) w b m e = nullable_branches-Matches bs w b m e
    nullable_element-Matches (groupref_exists bs) w b m e = refl
    nullable_element-Matches (groupref n) w b m e = cc

    nullable-Matches :
        (items : Items) (w : List ℕ)
        → refers_back items ≡ false
        → Matches engine items w
        → w ≡ []
        → nullable items ≡ true
    nullable-Matches end w b m e = refl
    nullable-Matches (seq x items) w b (u, v, at_, p, q) e =
        let (bx, bs) = or_false (refers_back_element x) (refers_back items) b in
        and_true (nullable_element x) (nullable items)
          (nullable_element-Matches x u bx p (append-nil_left u v (cc (at_, e))))
          (nullable-Matches items v bs q (append-nil_right u v (cc (at_, e))))

    nullable_branches-Matches :
        (bs : Branches) (w : List ℕ)
        → refers_back_branches bs ≡ false
        → MatchesBranches engine bs w
        → w ≡ []
        → nullable_branches bs ≡ true
    nullable_branches-Matches stop w b m e = absurd m
    nullable_branches-Matches (alt items bs) w b (inl m) e =
        or_true_left (nullable items) (nullable_branches bs) (
          nullable-Matches items w (or_false (refers_back items) (refers_back_branches bs) b).0 m e)
    nullable_branches-Matches (alt items bs) w b (inr m) e =
        or_true_right (nullable items) (nullable_branches bs) (
          nullable_branches-Matches bs w
            (or_false (refers_back items) (refers_back_branches bs) b).1 m e)

  pub nullable_element-Matches_empty :
      (x : Element)
      → refers_back_element x ≡ false
      → MatchesElement engine x []
      → nullable_element x ≡ true
  nullable_element-Matches_empty x b m = nullable_element-Matches x [] b m refl

  pub nullable_branches-Matches_empty :
      (bs : Branches)
      → refers_back_branches bs ≡ false
      → MatchesBranches engine bs []
      → nullable_branches bs ≡ true
  nullable_branches-Matches_empty bs b m = nullable_branches-Matches bs [] b m refl

  -- A pattern without back references that matches the empty text is found to be nullable.
  pub nullable-Matches_empty :
      (items : Items) → refers_back items ≡ false → Matches engine items [] → nullable items ≡ true
  nullable-Matches_empty items b m = nullable-Matches items [] b m refl
