-- ===== src/Processing/Transforms/Masked.antt =====
-- What masking leaves.
use rhombus_ai.Base.{
  String, Bool, true, false, not, ◌≡◌, refl, ap, ◌∙◌, none, some, List, any, str_eq, eq_iff, arith,
  Bool-cases, inl, inr,
}
use rhombus_ai.Llm.Pii.{PiiType}
use rhombus_ai.Processing.Transforms.Functions.{Text, Functions, IsSpark}
use rhombus_ai.Processing.Transforms.Mask.{
  redacted, is_whole_value, is_name, is_card, is_phone, is_email, card_pattern, phone_pattern,
  email_pattern, name_pattern, in_text, masked_value, mask,
}
use rhombus_ai.Processing.Transforms.Rows.{IsQuiet}

module _ {Row Date : Type 0} (f : Functions Row Date) (laws : IsSpark f) where
  abbrev SameNulls : Text → Text → Type 0
  SameNulls none w = w ≡ none
  SameNulls (some v) w = (u : String) × (w ≡ some u)

  replaced : (v w : Text) (p r : String) → SameNulls v w → SameNulls v (f.regexp_replace w p r)
  replaced none w p r h = rw h (laws.replace-null p r)
  replaced (some v) w p r (u, h) = rw h (laws.replace-text u p r)

  in_text-SameNulls :
      (among : Bool) (v w : Text) (p r : String)
      → SameNulls v w
      → SameNulls v (in_text f among p r w)
  in_text-SameNulls true v w p r h = replaced v w p r h
  in_text-SameNulls false v w p r h = h

  itself : (v : Text) → SameNulls v v
  itself none = refl
  itself (some v) = (v, refl)

  redacted_ : (v : Text) → SameNulls v (f.case_when (f.is_null v) v (some redacted))
  redacted_ none = rw laws.is_null-null (laws.case_true none (some redacted))
  redacted_ (some v) =
      (redacted, rw (laws.is_null-text v) (laws.case_false (some v) (some redacted)))

  masked_value-SameNulls : (types : List PiiType) (v : Text) → SameNulls v (masked_value f types v)
  masked_value-SameNulls types v = elim (Bool-cases (any is_whole_value types)) [
    | inl whole ↦ rw whole (redacted_ v)
    | inr part ↦ rw part (elim (Bool-cases (any is_name types)) [
      | inl name ↦ rw name (replaced v v name_pattern "$1." (itself v))
      | inr text ↦ rw text (
          in_text-SameNulls (any is_email types) v _ email_pattern "$1***$2" (
            in_text-SameNulls (any is_phone types) v _ phone_pattern "***-***-$1" (
              in_text-SameNulls (any is_card types) v v card_pattern "**** **** **** $1"
                (itself v))))
    ])
  ]

  differing :
      (v w : Text)
      → SameNulls v w
      → (b : Bool) × (f.coalesce (f.differs w v) (some false) ≡ some b) × (b ≡ false → w ≡ v)
  differing none w h =
      (false, rw h (rw (laws.differs-null none) (laws.coalesce-null (some false))), λ no. h)
  differing (some v) w (u, h) = (
    not (str_eq u v),
    rw h (rw (laws.differs-texts u v) (laws.coalesce-value (not (str_eq u v)) (some false))),
    λ no. h ∙ ap some (ground (arith, eq_iff u v, no)),
  )

  pub mask-IsQuiet : (types : List PiiType) → IsQuiet f (mask f types)
  unfolding mask
  mask-IsQuiet types v = differing v (masked_value f types v) (masked_value-SameNulls types v)
