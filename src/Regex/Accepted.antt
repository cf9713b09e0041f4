-- ===== src/Regex/Accepted.antt =====
-- What `validate_pattern` promises of a pattern that it returns, and the bounds of its probes.
use rhombus_ai.Base.{
  ℕ, zero, suc, ◌+◌, ◌*◌, ◌≤◌, ◌≡◌, refl, String, false, none, List, [], ◌∷◌, ◌++◌, any, arith,
  length, map, All, All-append, length-append, length-take, length-map,
}
use rhombus_ai.Failure.{ok}
use rhombus_ai.Regex.Charset.{CharSet}
use rhombus_ai.Regex.Syntax.{Items}
use rhombus_ai.Regex.Analysis.{nullable, consumed}
use rhombus_ai.Regex.Safety.{find_backtracking_risk}
use rhombus_ai.Regex.Probes.{representatives, repeated, pairs, probes_of, probe_inputs, or_letter}
use rhombus_ai.Regex.Checks.{Python, check_performance, check_parsed, validate_pattern}
use rhombus_ai.Regex.Matching.{Engine, Matches, refers_back}
use rhombus_ai.Regex.Empty.{nullable-Matches_empty}
use rhombus_ai.Regex.Repeats.{WideBodiesConsume, find_backtracking_risk-consumes}

module _ (python : Python) where
  check_performance-ok :
      (pattern : String) (parsed : Items)
      → check_performance python pattern parsed ≡ ok tt
      → any (python.times_out pattern) (probe_inputs parsed) ≡ false
  unfolding check_performance
  check_performance-ok pattern parsed h = ground arith

  check_parsed-ok :
      (pattern : String) (parsed : Items) (p : String)
      → check_parsed python pattern parsed ≡ ok p
      → (p ≡ pattern)
        × (nullable parsed ≡ false)
        × (find_backtracking_risk python.tests parsed ≡ none)
        × (any (python.times_out pattern) (probe_inputs parsed) ≡ false)
  unfolding check_parsed check_performance
  check_parsed-ok pattern parsed p h = (ground arith, ground arith, ground arith, ground arith)

  validate_pattern-parsed :
      (pattern p : String)
      → validate_pattern python pattern ≡ ok p
      → check_parsed python pattern (python.parse pattern) ≡ ok p
  unfolding validate_pattern
  validate_pattern-parsed pattern p h = ground arith

  -- A pattern that passes is returned as it was given. If it has no back reference, then it does
  -- not match the empty text, every iteration of its wide repeats outside atomic groups and
  -- possessive repeats consumes a character, and the engine times out on none of the probes.
  pub validate_pattern-ok :
      (engine : Engine) (pattern p : String)
      → refers_back (python.parse pattern) ≡ false
      → validate_pattern python pattern ≡ ok p
      → (p ≡ pattern)
        × (¬ Matches engine (python.parse pattern) [])
        × WideBodiesConsume engine (python.parse pattern)
        × (any (python.times_out pattern) (probe_inputs (python.parse pattern)) ≡ false)
  validate_pattern-ok engine pattern p b h =
      let parsed = python.parse pattern in
      let (same, solid, safe, fast) =
        check_parsed-ok pattern parsed p (validate_pattern-parsed pattern p h) in
      (
        same,
        λ m. cc (nullable-Matches_empty engine parsed b m, solid),
        find_backtracking_risk-consumes python.tests engine parsed b safe,
        fast,
      )

length-repeated : (n : ℕ) (unit : List ℕ) → length (repeated n unit) ≡ n * length unit
unfolding repeated
length-repeated zero unit = omega arith
length-repeated (suc n) unit =
    grind (arith, length-append unit (repeated n unit), length-repeated n unit)

representatives-length : (s : CharSet) → length (representatives s) ≤ 6
unfolding representatives
representatives-length s = rw (length-take 6) (omega arith)

length-pairs : (cs : List ℕ) → 2 * length (pairs cs) + length cs ≡ length cs * length cs
unfolding pairs
length-pairs [] = omega arith
length-pairs (c ∷ cs) =
    rw (length-append (map (λ d. c ∷ d ∷ []) cs) (pairs cs), length-map (λ d. c ∷ d ∷ []) cs)
      (grind (arith, length-pairs cs))

pairs-All : (cs : List ℕ) → All (λ pair. length pair ≡ 2) (pairs cs)
unfolding pairs
pairs-All [] = tt
pairs-All (c ∷ cs) =
    All-append _ (map (λ d. c ∷ d ∷ []) cs) (pairs cs) (of_length cs) (pairs-All cs)
  where
    of_length : (ds : List ℕ) → All (λ pair. length pair ≡ 2) (map (λ d. c ∷ d ∷ []) ds)
    of_length [] = tt
    of_length (d ∷ ds) = (refl, of_length ds)

probe-length :
    (n k : ℕ) (unit : List ℕ) → length unit ≡ k → length (repeated n unit ++ 0 ∷ []) ≡ n * k + 1
probe-length n k unit h =
    rw (length-append (repeated n unit) (0 ∷ []), length-repeated n unit, h) refl

runs-All :
    (n k : ℕ) (units : List (List ℕ))
    → All (λ unit. length unit ≡ k) units
    → All (λ w. length w ≡ n * k + 1) (map (λ unit. repeated n unit ++ 0 ∷ []) units)
runs-All n k [] h = tt
runs-All n k (unit ∷ units) h = (probe-length n k unit h.0, runs-All n k units h.1)

single-All :
    (cs : List ℕ) → All (λ w. length w ≡ 1025) (map (λ c. repeated 1024 (c ∷ []) ++ 0 ∷ []) cs)
single-All [] = tt
single-All (c ∷ cs) = (probe-length 1024 1 (c ∷ []) refl, single-All cs)

probes_of-length : (cs : List ℕ) → length cs ≤ 6 → length (probes_of cs) ≤ 21
unfolding probes_of
probes_of-length cs h =
    rw
      (
        length-append (map (λ c. repeated 1024 (c ∷ []) ++ 0 ∷ []) cs)
            (map (λ pair. repeated 512 pair ++ 0 ∷ []) (pairs cs)),
        length-map (λ c. repeated 1024 (c ∷ []) ++ 0 ∷ []) cs,
        length-map (λ pair. repeated 512 pair ++ 0 ∷ []) (pairs cs),
      )
      (few (length cs) (length (pairs cs)) h (length-pairs cs))
  where
    few : (n p : ℕ) → n ≤ 6 → 2 * p + n ≡ n * n → n + p ≤ 21
    few n p h e = let square : n * n ≤ 6 * n = grind arith in omega arith

probes_of-All : (cs : List ℕ) → All (λ w. length w ≡ 1025) (probes_of cs)
unfolding probes_of
probes_of-All cs = All-append _ _ _ (single-All cs) (runs-All 512 2 (pairs cs) (pairs-All cs))

or_letter-length : (cs : List ℕ) → length cs ≤ 6 → length (or_letter cs) ≤ 6
or_letter-length [] h = omega arith
or_letter-length (c ∷ cs) h = h

-- Whatever the pattern, at most 21 probes are tried, and each has 1025 characters.
pub probe_inputs-bounded :
    (parsed : Items)
    → (length (probe_inputs parsed) ≤ 21) × All (λ w. length w ≡ 1025) (probe_inputs parsed)
unfolding probe_inputs
probe_inputs-bounded parsed =
    let characters = or_letter (representatives (consumed parsed)) in
    (
      probes_of-length characters (or_letter-length _ (representatives-length (consumed parsed))),
      probes_of-All characters,
    )
