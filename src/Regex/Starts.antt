-- ===== src/Regex/Starts.antt =====
-- A text that a pattern matches begins with a character that the analysis says can start it.
use rhombus_ai.Base.{
  ℕ, zero, suc, ◌≡◌, refl, true, false, List, [], ◌∷◌, inl, inr, or_false, if◌then◌else◌,
}
use rhombus_ai.Regex.Charset.{CharTests, holds, nothing}
use rhombus_ai.Regex.Syntax.{
  Element, Items, Branches, literal, not_literal, any_char, at, in_class, group, atomic, assert,
  assert_not, repeat, branch, groupref_exists, groupref, end, seq, stop, alt,
}
use rhombus_ai.Regex.Analysis.{nullable_element, first_element, first, first_branches}
use rhombus_ai.Regex.Matching.{
  Engine, Agrees, Iterated, MatchesElement, Matches, MatchesBranches, refers_back_element,
  refers_back, refers_back_branches,
}
use rhombus_ai.Regex.Empty.{nullable_element-Matches_empty}
use rhombus_ai.Regex.Consumption.{holds-union_left, holds-union_right, consumed_element-holds}

-- A text of several iterations begins as one of them does.
Iterated-starts :
    (n : ℕ) (P : List ℕ → Type 0) (c : ℕ) (w x : List ℕ)
    → x ≡ c ∷ w
    → Iterated n P x
    → (u : List ℕ) × P (c ∷ u)
Iterated-starts zero P c w x e m = cc (m, e)
Iterated-starts (suc n) P c w x e ([], v, at_, p, rest) =
    Iterated-starts n P c w v (cc (at_, e)) rest
Iterated-starts (suc n) P c w x e (d ∷ u, v, at_, p, rest) =
    let same : d ≡ c = cc (at_, e) in (u, rw same at p)

module _ (tests : CharTests) (engine : Engine) (agrees : Agrees tests engine) where
  mutual
    unfolding first_element nullable_element refers_back_element

    first_element-starts :
        (x : Element) (c : ℕ) (w : List ℕ)
        → refers_back_element x ≡ false
        → MatchesElement engine x (c ∷ w)
        → holds tests (first_element x) c ≡ true
    first_element-starts (literal d) c w b m =
        consumed_element-holds tests engine agrees (literal d) c w m
    first_element-starts (not_literal d) c w b m =
        consumed_element-holds tests engine agrees (not_literal d) c w m
    first_element-starts any_char c w b m =
        consumed_element-holds tests engine agrees any_char c w m
    first_element-starts at c w b m = cc
    first_element-starts (in_class items) c w b m =
        consumed_element-holds tests engine agrees (in_class items) c w m
    first_element-starts (group body) c w b m = first-starts body c w (c ∷ w) refl b m
    first_element-starts (atomic body) c w b m = first-starts body c w (c ∷ w) refl b m
    first_element-starts (assert body) c w b m = cc
    first_element-starts (assert_not body) c w b m = cc
    first_element-starts (repeat kind low high body) c w b (n, k, l, m) =
        let (u, p) = Iterated-starts n (Matches engine body) c w (c ∷ w) refl m in
        first-starts body c u (c ∷ u) refl b p
    first_element-starts (branch bs) c w b m = first_branches-starts bs c w b m
    first_element-starts (groupref_exists bs) c w b m =
        consumed_element-holds tests engine agrees (groupref_exists bs) c w m
    first_element-starts (groupref n) c w b m = cc

    first-starts :
        (items : Items) (c : ℕ) (w x : List ℕ)
        → x ≡ c ∷ w
        → refers_back items ≡ false
        → Matches engine items x
        → holds tests (first items) c ≡ true
    first-starts end c w x e b m = cc (m, e)
    first-starts (seq y items) c w x e b ([], v, at_, p, q) =
        let (by, bs) = or_false (refers_back_element y) (refers_back items) b in
        let empty = nullable_element-Matches_empty engine y by p in
        rw empty (
          holds-union_right tests (first_element y) (first items) c
            (first-starts items c w v (cc (at_, e)) bs q))
    first-starts (seq y items) c w x e b (d ∷ u, v, at_, p, q) =
        let (by, bs) = or_false (refers_back_element y) (refers_back items) b in
        let same : d ≡ c = cc (at_, e) in
        holds-union_left tests (first_element y)
          (if nullable_element y then first items else nothing) c
          (first_element-starts y c u by (rw same at p))

    first_branches-starts :
        (bs : Branches) (c : ℕ) (w : List ℕ)
        → refers_back_branches bs ≡ false
        → MatchesBranches engine bs (c ∷ w)
        → holds tests (first_branches bs) c ≡ true
    first_branches-starts stop c w b m = absurd m
    first_branches-starts (alt items bs) c w b (inl m) =
        holds-union_left tests (first items) (first_branches bs) c (
          first-starts items c w (c ∷ w) refl
            (or_false (refers_back items) (refers_back_branches bs) b).0 m)
    first_branches-starts (alt items bs) c w b (inr m) =
        holds-union_right tests (first items) (first_branches bs) c (
          first_branches-starts bs c w (or_false (refers_back items) (refers_back_branches bs) b).1
            m)

  -- A text that a pattern without back references matches begins with a character of the set that
  -- the analysis gives as its first characters, where Python's tests accept what the engine takes
  -- for a category.
  pub first-holds :
      (items : Items) (c : ℕ) (w : List ℕ)
      → refers_back items ≡ false
      → Matches engine items (c ∷ w)
      → holds tests (first items) c ≡ true
  first-holds items c w b m = first-starts items c w (c ∷ w) refl b m
