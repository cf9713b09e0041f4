-- ===== src/Regex/Repeats.antt =====
-- The wide repeats of a pattern without a found risk consume text in every iteration.
use rhombus_ai.Base.{
  ◌≡◌, refl, String, Bool, false, ◌||◌, Option, none, some, [], ◌⊎◌, inl, inr, arith, or_false,
  Bool-cases, if◌then◌else◌,
}
use mathlib.Core.Path.{sym}
use rhombus_ai.Regex.Charset.{CharTests}
use rhombus_ai.Regex.Syntax.{
  Element, Items, Branches, Bound, literal, not_literal, any_char, at, in_class, group, atomic,
  assert, assert_not, repeat, branch, groupref_exists, groupref, end, seq, stop, alt, greedy, lazy,
  possessive, is_wide,
}
use rhombus_ai.Regex.Analysis.{nullable}
use rhombus_ai.Regex.Safety.{
  find_backtracking_risk, backtracking_risk, backtracking_risk_branches, risk_in_repeated_body,
  unwrap_group, or_else,
}
use rhombus_ai.Regex.Matching.{
  Engine, Matches, refers_back, refers_back_element, refers_back_branches,
}
use rhombus_ai.Regex.Empty.{nullable-Matches_empty, append-nil_left}

or_nothing : (b : Bool) → b ≡ b || false
or_nothing b = ground arith

refers_back-unwrap_group : (items : Items) → refers_back (unwrap_group items) ≡ refers_back items
unfolding unwrap_group refers_back
refers_back-unwrap_group (seq (group body) end) =
    rw (refers_back-unwrap_group body) (or_nothing (refers_back body))
refers_back-unwrap_group items = refl

or_else-none : (a b : Option String) → or_else a b ≡ none → (a ≡ none) × (b ≡ none)
or_else-none none b h = (refl, h)
or_else-none (some risk) b h = cc

module _ (engine : Engine) where
  unwrap_group-Matches_empty :
      (items : Items) → Matches engine items [] → Matches engine (unwrap_group items) []
  unfolding unwrap_group
  unwrap_group-Matches_empty (seq (group body) end) (u, v, at_, p, q) =
      let e : u ≡ [] = append-nil_left u v (sym at_) in unwrap_group-Matches_empty body (rw e at p)
  unwrap_group-Matches_empty items m = m

  -- Each wide repeat outside atomic groups and possessive repeats has a body that cannot match the
  -- empty text.
  abbrev mutual
    pub WideBodiesConsumeElement : Element → Type 0
    WideBodiesConsumeElement (repeat possessive low high body) = Unit
    WideBodiesConsumeElement (repeat greedy low high body) =
        ((is_wide high ≡ false) ⊎ (¬ Matches engine body [])) × WideBodiesConsume body
    WideBodiesConsumeElement (repeat lazy low high body) =
        ((is_wide high ≡ false) ⊎ (¬ Matches engine body [])) × WideBodiesConsume body
    WideBodiesConsumeElement (atomic body) = Unit
    WideBodiesConsumeElement (group body) = WideBodiesConsume body
    WideBodiesConsumeElement (assert body) = WideBodiesConsume body
    WideBodiesConsumeElement (assert_not body) = WideBodiesConsume body
    WideBodiesConsumeElement (branch bs) = WideBodiesConsumeBranches bs
    WideBodiesConsumeElement (groupref_exists bs) = WideBodiesConsumeBranches bs
    WideBodiesConsumeElement (literal c) = Unit
    WideBodiesConsumeElement (not_literal c) = Unit
    WideBodiesConsumeElement any_char = Unit
    WideBodiesConsumeElement at = Unit
    WideBodiesConsumeElement (in_class items) = Unit
    WideBodiesConsumeElement (groupref n) = Unit

    pub WideBodiesConsume : Items → Type 0
    WideBodiesConsume end = Unit
    WideBodiesConsume (seq e items) = WideBodiesConsumeElement e × WideBodiesConsume items

    pub WideBodiesConsumeBranches : Branches → Type 0
    WideBodiesConsumeBranches stop = Unit
    WideBodiesConsumeBranches (alt items bs) =
        WideBodiesConsume items × WideBodiesConsumeBranches bs

module _ (tests : CharTests) (engine : Engine) where
  no_risk-nullable :
      (body : Items) → risk_in_repeated_body tests body ≡ none → nullable body ≡ false
  unfolding risk_in_repeated_body
  no_risk-nullable body h = elim (Bool-cases (nullable body)) [
    | inl empty ↦ cc (rw empty at h)
    | inr solid ↦ solid
  ]

  body_consumes :
      (high : Bound) (body : Items)
      → refers_back body ≡ false
      → (if is_wide high then risk_in_repeated_body tests (unwrap_group body) else none) ≡ none
      → (is_wide high ≡ false) ⊎ (¬ Matches engine body [])
  body_consumes high body b h = elim (Bool-cases (is_wide high)) [
    | inr narrow ↦ inl narrow
    | inl wide ↦
        let safe : risk_in_repeated_body tests (unwrap_group body) ≡ none = rw wide at h in
        let solid = no_risk-nullable (unwrap_group body) safe in
        let free : refers_back (unwrap_group body) ≡ false = rw (refers_back-unwrap_group body) b in
        inr (λ m. cc (
          nullable-Matches_empty engine (unwrap_group body) free
              (unwrap_group-Matches_empty engine body m),
          solid,
        ))
  ]

  mutual
    unfolding backtracking_risk refers_back_element

    no_risk_element :
        (e : Element)
        → refers_back_element e ≡ false
        → backtracking_risk tests e ≡ none
        → WideBodiesConsumeElement engine e
    no_risk_element (repeat possessive low high body) b h = tt
    no_risk_element (repeat greedy low high body) b h =
        let (r, f) = or_else-none _ (find_backtracking_risk tests body) h in
        (body_consumes high body b r, no_risk body b f)
    no_risk_element (repeat lazy low high body) b h =
        let (r, f) = or_else-none _ (find_backtracking_risk tests body) h in
        (body_consumes high body b r, no_risk body b f)
    no_risk_element (atomic body) b h = tt
    no_risk_element (group body) b h = no_risk body b h
    no_risk_element (assert body) b h = no_risk body b h
    no_risk_element (assert_not body) b h = no_risk body b h
    no_risk_element (branch bs) b h = no_risk_branches bs b h
    no_risk_element (groupref_exists bs) b h = no_risk_branches bs b h
    no_risk_element (literal c) b h = tt
    no_risk_element (not_literal c) b h = tt
    no_risk_element any_char b h = tt
    no_risk_element at b h = tt
    no_risk_element (in_class items) b h = tt
    no_risk_element (groupref n) b h = tt

    no_risk :
        (items : Items)
        → refers_back items ≡ false
        → find_backtracking_risk tests items ≡ none
        → WideBodiesConsume engine items
    no_risk end b h = tt
    no_risk (seq e items) b h =
        let (be, bi) = or_false (refers_back_element e) (refers_back items) b in
        let (he, hi) =
          or_else-none (backtracking_risk tests e) (find_backtracking_risk tests items) h in
        (no_risk_element e be he, no_risk items bi hi)

    no_risk_branches :
        (bs : Branches)
        → refers_back_branches bs ≡ false
        → backtracking_risk_branches tests bs ≡ none
        → WideBodiesConsumeBranches engine bs
    no_risk_branches stop b h = tt
    no_risk_branches (alt items bs) b h =
        let (bi, bb) = or_false (refers_back items) (refers_back_branches bs) b in
        let (hi, hb) =
          or_else-none (find_backtracking_risk tests items) (backtracking_risk_branches tests bs)
            h in
        (no_risk items bi hi, no_risk_branches bs bb hb)

  pub find_backtracking_risk-consumes :
      (items : Items)
      → refers_back items ≡ false
      → find_backtracking_risk tests items ≡ none
      → WideBodiesConsume engine items
  find_backtracking_risk-consumes items b h = no_risk items b h
