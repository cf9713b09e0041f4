-- ===== src/Llm/Service.antt =====
-- The cache keys of backend/apps/llm/cache.py and the use cases of backend/apps/llm/service.py. The
-- prompts, the hash and the text of samples are parameters.
pub mod Keys
mod Examples
use Prim.Native.String.{◌++◌}
use rhombus_ai.Base.{String, Bool, Option, none, some, List, [], ◌∷◌, map}
use rhombus_ai.Failure.{Result, ok, err}
use rhombus_ai.Regex.Checks.{Python}
use rhombus_ai.Llm.Completion.{Redis, LlmState, complete_cached}
use rhombus_ai.Llm.Patterns.{RegexSuggestion, pattern_from_suggestion}
use rhombus_ai.Llm.Specs.{
  SpecPython, NormalizationSuggestion, NormalizationSpec, normalization_spec_from_suggestion,
}
use rhombus_ai.Llm.Pii.{PiiColumn, PiiMaskingSpec, pii_spec_from_suggestion}

-- `separator.join(parts)`
unfoldable pub join : String → List String → String
join separator [] = ""
join separator (part ∷ []) = part
join separator (part ∷ next ∷ parts) = part ++ (separator ++ join separator (next ∷ parts))

-- `"\x1f"`
abbrev pub unit_separator : String
unit_separator = "\u{1f}"

-- A prompt: its version, the system's text and the user's message of the inputs.
pub record Prompt (Input : Type 0) : Type 0 where
  pub version : String
  pub system : String
  pub build_user_message : Input → String

abbrev pub Samples : Type 0
Samples = List (String × List String)

-- `split` is `str.split`, `hexdigest` that of SHA-256, and `fingerprint` is `_fingerprint`.
pub record Texts : Type 0 where
  pub split : String → List String
  pub hexdigest : String → String
  pub fingerprint : Samples → String

pub record GeneratedPattern : Type 0 where
  pub pattern : String
  pub explanation : String
  pub cached : Bool

pub record GeneratedSpec (Spec Suggestion : Type 0) : Type 0 where
  pub spec : Spec
  pub suggestion : Suggestion
  pub explanation : String
  pub cached : Bool

-- The answer for the columns, with its explanation.
pub record PiiSuggestion : Type 0 where
  pub columns : List PiiColumn
  pub explanation : String

module _ (texts : Texts) (model : String) where
  unfoldable pub normalize_description : String → String
  unfolding join
  normalize_description description = join " " (texts.split description)

  unfoldable pub cache_key : String → List String → String
  unfolding join
  cache_key namespace parts =
      "llm:" ++ (namespace ++ (":" ++ texts.hexdigest (join unit_separator parts)))

  abbrev pub pattern_key : String → String → String
  unfolding cache_key normalize_description
  pattern_key version description =
      cache_key "regex" (version ∷ model ∷ normalize_description description ∷ [])

  abbrev pub normalization_key : String → String → Samples → String
  unfolding cache_key normalize_description
  normalization_key version description samples =
      cache_key "normalize"
        (version ∷ model ∷ normalize_description description ∷ texts.fingerprint samples ∷ [])

  abbrev pub pii_key : String → Samples → String
  unfolding cache_key
  pii_key version samples = cache_key "pii" (version ∷ model ∷ texts.fingerprint samples ∷ [])

  abbrev pub as_pattern :
      Result (String × RegexSuggestion × Bool) × LlmState RegexSuggestion
      → Result GeneratedPattern × LlmState RegexSuggestion
  as_pattern (err e, st) = (err e, st)
  as_pattern (ok (pattern, suggestion, cached), st) =
      (ok (record { pattern = pattern; explanation = suggestion.explanation; cached = cached }), st)

  abbrev pub as_spec :
      {Spec Suggestion : Type 0}
      → (Suggestion → String)
      → Result (Spec × Suggestion × Bool) × LlmState Suggestion
      → Result (GeneratedSpec Spec Suggestion) × LlmState Suggestion
  as_spec explanation (err e, st) = (err e, st)
  as_spec explanation (ok (spec, suggestion, cached), st) = (
    ok (record {
      spec = spec;
      suggestion = suggestion;
      explanation = explanation suggestion;
      cached = cached;
    }),
    st,
  )

  -- `ask` is `get_llm().complete`, of the system's text and the user's message.
  unfoldable pub generate_pattern :
      Python
      → Redis RegexSuggestion
      → Prompt String
      → (String → String → Result RegexSuggestion)
      → String
      → LlmState RegexSuggestion
      → Result GeneratedPattern × LlmState RegexSuggestion
  unfolding pattern_key complete_cached
  generate_pattern python redis prompt ask description st = as_pattern (
      complete_cached redis (pattern_from_suggestion python)
        (pattern_key prompt.version description)
        (ask prompt.system (prompt.build_user_message description)) st)

  unfoldable pub generate_normalization :
      SpecPython
      → Redis NormalizationSuggestion
      → Prompt (String × Samples)
      → (String → String → Result NormalizationSuggestion)
      → String
      → Samples
      → LlmState NormalizationSuggestion
      → Result (GeneratedSpec NormalizationSpec NormalizationSuggestion)
        × LlmState NormalizationSuggestion
  unfolding normalization_key complete_cached
  generate_normalization python redis prompt ask description samples st =
      as_spec (λ s. s.explanation)
        (complete_cached redis (normalization_spec_from_suggestion python)
          (normalization_key prompt.version description samples)
          (ask prompt.system (prompt.build_user_message (description, samples))) st)

  unfoldable pub classify_pii :
      Redis PiiSuggestion
      → Prompt Samples
      → (String → String → Result PiiSuggestion)
      → Samples
      → LlmState PiiSuggestion
      → Result (GeneratedSpec PiiMaskingSpec PiiSuggestion) × LlmState PiiSuggestion
  unfolding pii_key complete_cached
  classify_pii redis prompt ask samples st =
      as_spec (λ s. s.explanation)
        (complete_cached redis
          (λ s. ok (pii_spec_from_suggestion s.columns (map (λ sample. sample.0) samples)))
          (pii_key prompt.version samples) (ask prompt.system (prompt.build_user_message samples))
          st)
