-- ===== src/Regex/Probes.antt =====
-- The adversarial inputs of backend/processing/regex_safety.py, as lists of code points.
use rhombus_ai.Base.{
  ℕ, zero, suc, Bool, true, false, List, [], ◌∷◌, ◌++◌, any, map, take, ◌==◌, ltb, if◌then◌else◌,
}
use rhombus_ai.Regex.Charset.{CharSet, Category, digit, word, space}
use rhombus_ai.Regex.Syntax.{Items}
use rhombus_ai.Regex.Analysis.{consumed}

abbrev pub max_probe_characters : ℕ
max_probe_characters = 6

abbrev pub probe_length : ℕ
probe_length = 1024

-- `sorted` of a set, given as a list of its members
unfoldable pub insert_sorted : ℕ → List ℕ → List ℕ
insert_sorted c [] = c ∷ []
insert_sorted c (d ∷ cs) =
    let rest = insert_sorted c cs in
    if c == d then d ∷ cs else if ltb c d then c ∷ d ∷ cs else d ∷ rest

unfoldable pub sorted_chars : List ℕ → List ℕ
unfolding insert_sorted
sorted_chars [] = []
sorted_chars (c ∷ cs) = insert_sorted c (sorted_chars cs)

abbrev is_category : Category → Category → Bool
is_category digit digit = true
is_category word word = true
is_category space space = true
is_category _ _ = false

-- "1", " " and "a", for the categories in sorted order
unfoldable pub category_representatives : List Category → List ℕ
category_representatives cats =
    (if any (is_category digit) cats then 49 ∷ [] else [])
    ++ (if any (is_category space) cats then 32 ∷ [] else [])
    ++ (if any (is_category word) cats then 97 ∷ [] else [])

-- `dict.fromkeys`, with the keys that came before
unfoldable pub distinct_after : List ℕ → List ℕ → List ℕ
distinct_after seen [] = []
distinct_after seen (c ∷ cs) = elim (any (λ d. c == d) seen) [
  | true ↦ distinct_after seen cs
  | false ↦ c ∷ distinct_after (c ∷ seen) cs
]

unfoldable pub representatives : CharSet → List ℕ
unfolding sorted_chars category_representatives distinct_after
representatives s = take max_probe_characters (
    distinct_after [] (
      take max_probe_characters (sorted_chars s.chars)
      ++ category_representatives s.categories
      ++ (if s.universal then 97 ∷ 46 ∷ [] else [])))

unfoldable pub repeated : ℕ → List ℕ → List ℕ
repeated zero unit = []
repeated (suc n) unit = unit ++ repeated n unit

-- `combinations(characters, 2)`
unfoldable pub pairs : List ℕ → List (List ℕ)
pairs [] = []
pairs (c ∷ cs) = map (λ d. c ∷ d ∷ []) cs ++ pairs cs

abbrev pub or_letter : List ℕ → List ℕ
or_letter [] = 97 ∷ []
or_letter (c ∷ cs) = c ∷ cs

unfoldable pub probes_of : List ℕ → List (List ℕ)
unfolding repeated pairs
probes_of characters =
    map (λ c. repeated 1024 (c ∷ []) ++ 0 ∷ []) characters
    ++ map (λ pair. repeated 512 pair ++ 0 ∷ []) (pairs characters)

unfoldable pub probe_inputs : Items → List (List ℕ)
unfolding probes_of representatives
probe_inputs parsed = probes_of (or_letter (representatives (consumed parsed)))
