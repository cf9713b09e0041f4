-- ===== src/Llm/Service/Examples.antt =====
-- A normalization that leaves the answer for other words alone.
use rhombus_ai.Base.{String, true, false, none, List, [], ◌∷◌, str_eq, if◌then◌else◌}
use rhombus_ai.Failure.{Result, ok}
use rhombus_ai.Llm.Completion.{Redis, LlmState}
use rhombus_ai.Llm.Specs.{SpecPython, NormalizationSuggestion}
use rhombus_ai.Llm.Service.{Prompt, Samples, Texts}

-- Only one text is split, into one word; the others have none.
abbrev one_word : String → List String
one_word s = if str_eq s "dates" then "dates" ∷ [] else []

abbrev plain_texts : Texts
plain_texts = record { split = one_word; hexdigest = λ s. s; fingerprint = λ samples. "{}" }

abbrev no_checks : SpecPython
no_checks = record {
  text_length = λ text. 2;
  reads = λ format. true;
  renders = λ format. true;
  names_weekday = λ format. false;
  has_backslash = λ text. false;
  has_stray_dollar = λ text. false;
  references = λ text. [];
  groups = λ pattern. 1;
  validate_pattern = λ pattern. ok pattern;
}

abbrev reachable : Redis NormalizationSuggestion
reachable = record { reads = true; writes = true; parses = λ s. true }

abbrev prompt : Prompt (String × Samples)
prompt = record { version = "v1"; system = ""; build_user_message = λ input. input.0 }

abbrev suggested_dates : NormalizationSuggestion
suggested_dates = record {
  feasible = true;
  is_date = true;
  input_formats = "d MMM" ∷ [];
  output_format = "MM-dd";
  rules = [];
  explanation = "";
}

abbrev ask : String → String → Result NormalizationSuggestion
ask system user = ok suggested_dates

abbrev nothing_yet : LlmState NormalizationSuggestion
nothing_yet = record { entries = λ key. none; asked = 0 }
