-- ===== src/Regex/Branching.antt =====
-- Alternatives that are found not to overlap are told apart by their first character.
use rhombus_ai.Base.{ℕ, List, ◌∷◌}
use rhombus_ai.Regex.Syntax.{Branches, stop, alt}
use rhombus_ai.Regex.Matching.{Engine, Matches, MatchesBranches}

module _ (engine : Engine) where
  -- No text beginning with a character is matched by an alternative if a text beginning with the
  -- same character is matched by a later one.
  abbrev pub BeginApart : Branches → Type 0
  BeginApart stop = Unit
  BeginApart (alt items bs) =
      ((c : ℕ) (u v : List ℕ)
        → ¬ (Matches engine items (c ∷ u) × MatchesBranches engine bs (c ∷ v)))
      × BeginApart bs
