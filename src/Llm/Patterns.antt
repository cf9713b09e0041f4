-- ===== src/Llm/Patterns.antt =====
-- `pattern_from_suggestion` of backend/apps/llm/service.py.
use rhombus_ai.Base.{String, Bool, true, false, not, ◌≡◌, if◌then◌else◌, arith, []}
use rhombus_ai.Failure.{llm, pattern_not_expressible, Result, ok, err}
use rhombus_ai.Regex.Checks.{Python, validate_pattern, with_inline_flags}
use rhombus_ai.Regex.Matching.{Engine, Matches, refers_back}
use rhombus_ai.Regex.Repeats.{WideBodiesConsume}
use rhombus_ai.Regex.Accepted.{validate_pattern-ok}

-- The model's answer.
pub record RegexSuggestion : Type 0 where
  pub feasible : Bool
  pub pattern : String
  pub case_insensitive : Bool
  pub multiline : Bool
  pub dotall : Bool
  pub explanation : String

abbrev pub flagged : RegexSuggestion → String
flagged s = with_inline_flags s.pattern s.case_insensitive s.multiline s.dotall

module _ (python : Python) where
  unfoldable pub pattern_from_suggestion : RegexSuggestion → Result String
  pattern_from_suggestion s =
      if not s.feasible
      then err (llm pattern_not_expressible s.explanation)
      else validate_pattern python (flagged s)

  suggestion_accepted :
      (s : RegexSuggestion) (p : String)
      → pattern_from_suggestion s ≡ ok p
      → (s.feasible ≡ true) × (validate_pattern python (flagged s) ≡ ok p)
  unfolding pattern_from_suggestion
  suggestion_accepted s p h = (ground arith, ground arith)

  -- A pattern that is taken from the model's answer was called feasible, is the suggested one with
  -- the flags that the answer asks for in front, and has passed the checks: if it has no back
  -- reference, then it does not match the empty text and its wide repeats consume characters.
  pub pattern_from_suggestion-ok :
      (engine : Engine) (s : RegexSuggestion) (p : String)
      → refers_back (python.parse (flagged s)) ≡ false
      → pattern_from_suggestion s ≡ ok p
      → (s.feasible ≡ true)
        × (p ≡ flagged s)
        × (¬ Matches engine (python.parse (flagged s)) [])
        × WideBodiesConsume engine (python.parse (flagged s))
  pattern_from_suggestion-ok engine s p b h =
      let (feasible, valid) = suggestion_accepted s p h in
      let (same, solid, wide, fast) = validate_pattern-ok python engine (flagged s) p b valid in
      (feasible, same, solid, wide)
