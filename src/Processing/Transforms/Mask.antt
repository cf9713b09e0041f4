-- ===== src/Processing/Transforms/Mask.antt =====
-- backend/processing/transforms/mask_pii.py. The specification is that of Llm/Pii.
use rhombus_ai.Base.{
  String, Bool, true, false, some, List, [], ◌∷◌, any, map, str_eq, if◌then◌else◌,
}
use rhombus_ai.Failure.{Result, ok}
use rhombus_ai.Processing.Schema.{require_columns}
use rhombus_ai.Llm.Pii.{
  PiiType, PiiMaskingSpec, email, phone, person_name, credit_card, identifier, address, other,
}
use rhombus_ai.Processing.Transforms.Functions.{Text, Cond, Functions}
use rhombus_ai.Processing.Transforms.Columns.{OutRow, rewrite_columns}
use rhombus_ai.Processing.Transforms.Replace.{after_checks}

abbrev pub redacted : String
redacted = "[REDACTED]"

abbrev pub card_pattern : String
card_pattern = "\\b(?:\\d[ -]?){12,15}(\\d{4})\\b"

abbrev pub phone_pattern : String
phone_pattern = "(?:\\+?\\d{1,3}[\\s.-]?)?\\(?\\d{3}\\)?[\\s.-]?\\d{3}[\\s.-]?(\\d{4})\\b"

abbrev pub email_pattern : String
email_pattern = "([A-Za-z0-9._%+-])[A-Za-z0-9._%+-]*(@[A-Za-z0-9.-]+\\.[A-Za-z]{2})"

abbrev pub name_pattern : String
name_pattern = "(\\p{L})[\\p{L}'’-]*"

abbrev pub is_whole_value : PiiType → Bool
is_whole_value identifier = true
is_whole_value address = true
is_whole_value other = true
is_whole_value email = false
is_whole_value phone = false
is_whole_value person_name = false
is_whole_value credit_card = false

abbrev pub is_name : PiiType → Bool
is_name person_name = true
is_name _ = false

abbrev pub is_card : PiiType → Bool
is_card credit_card = true
is_card _ = false

abbrev pub is_phone : PiiType → Bool
is_phone phone = true
is_phone _ = false

abbrev pub is_email : PiiType → Bool
is_email email = true
is_email _ = false

-- `spec.columns[name]`
unfoldable pub types_of : PiiMaskingSpec → String → List PiiType
types_of [] name = []
types_of ((column, types) ∷ spec) name =
    let rest = types_of spec name in if str_eq name column then types else rest

module _ {Row Date : Type 0} (f : Functions Row Date) where
  -- A mask for the kind, if it is among those of the column.
  abbrev pub in_text : Bool → String → String → Text → Text
  in_text among pattern replacement value =
      if among then f.regexp_replace value pattern replacement else value

  abbrev pub masked_value : List PiiType → Text → Text
  masked_value types value =
      if any is_whole_value types
      then f.case_when (f.is_null value) value (some redacted)
      else if any is_name types
      then f.regexp_replace value name_pattern "$1."
      else in_text (any is_email types) email_pattern "$1***$2" (
          in_text (any is_phone types) phone_pattern "***-***-$1"
            (in_text (any is_card types) card_pattern "**** **** **** $1" value))

  unfoldable pub mask : List PiiType → Text → Text × Cond
  mask types value = let masked = masked_value types value in (masked, f.differs masked value)

  unfoldable pub mask_pii :
      (List String → String) → List String → PiiMaskingSpec → Result (Row → OutRow)
  unfolding mask types_of rewrite_columns require_columns
  mask_pii message available spec =
      after_checks (require_columns message available (map (λ entry. entry.0) spec)) (ok tt)
        (λ targets row.
          rewrite_columns f row (λ name value. mask (types_of spec name) value) available targets)
