-- ===== src/Regex/Examples.antt =====
-- Small patterns, with ASCII tests of characters.
use rhombus_ai.Base.{
  ℕ, ◌≡◌, refl, String, false, ◌&&◌, ◌||◌, none, List, [], ◌∷◌, any, leb, ◌==◌, arith,
}
use rhombus_ai.Failure.{ok}
use rhombus_ai.Regex.Charset.{CharTests, in_category}
use rhombus_ai.Regex.Syntax.{
  Items, Branches, literal, repeat, end, seq, stop, alt, greedy, at_most, maxrepeat,
}
use rhombus_ai.Regex.Analysis.{nullable, has_backtracking_repeat}
use rhombus_ai.Regex.Safety.{find_backtracking_risk}
use rhombus_ai.Regex.Probes.{probe_inputs}
use rhombus_ai.Regex.Checks.{Python, validate_pattern}
use rhombus_ai.Regex.Matching.{Engine, Matches, refers_back}
use rhombus_ai.Regex.Repeats.{WideBodiesConsume}
use rhombus_ai.Regex.Accepted.{validate_pattern-ok}

abbrev ascii : CharTests
ascii = record {
  is_digit = λ c. leb 48 c && leb c 57;
  is_word = λ c. (leb 48 c && leb c 57) || (leb 97 c && leb c 122);
  is_space = λ c. c == 32;
}

abbrev pub ascii_engine : Engine
ascii_engine = record {
  category_matches = λ cat c. in_category ascii c cat;
  other_matches = λ n c. false;
}

-- `a?`
abbrev optional_a : Items
optional_a = seq (repeat greedy 0 (at_most 1) (seq (literal 97) end)) end

-- `a+b`
abbrev pub as_and_b : Items
as_and_b = seq (repeat greedy 1 maxrepeat (seq (literal 97) end)) (seq (literal 98) end)

as_and_b-Matches : Matches ascii_engine as_and_b (97 ∷ 98 ∷ [])
as_and_b-Matches = (
  97 ∷ [],
  98 ∷ [],
  refl,
  (1, omega arith, tt, (97 ∷ [], [], refl, (97 ∷ [], [], refl, refl, refl), refl)),
  (98 ∷ [], [], refl, refl, refl),
)

-- `a|b`
abbrev a_or_b : Branches
a_or_b = alt (seq (literal 97) end) (alt (seq (literal 98) end) stop)

abbrev pub quick : Python
quick = record {
  tests = ascii;
  text_length = λ pattern. 3;
  finds = λ d pattern. false;
  compile_error = λ pattern. none;
  parse = λ pattern. as_and_b;
  times_out = λ pattern text. false;
}

quick_probes : any (λ text. false) (probe_inputs as_and_b) ≡ false
quick_probes = never (probe_inputs as_and_b)
  where
    never : (xs : List (List ℕ)) → any (λ text. false) xs ≡ false
    never [] = refl
    never (x ∷ xs) = never xs

pub quick_accepts : validate_pattern quick "a+b" ≡ ok "a+b"
unfolding validate_pattern find_backtracking_risk nullable has_backtracking_repeat
quick_accepts = rw quick_probes refl

validate_pattern-ok_example :
    (◌≡◌ {A = String} "a+b" "a+b")
    × (¬ Matches ascii_engine as_and_b [])
    × WideBodiesConsume ascii_engine as_and_b
    × (any (λ text. false) (probe_inputs as_and_b) ≡ false)
unfolding refers_back
validate_pattern-ok_example = validate_pattern-ok quick ascii_engine "a+b" "a+b" refl quick_accepts
