-- ===== src/Processing/Transforms/Escape.antt =====
-- Java reads an escaped replacement as the text that was escaped.
use Prim.Native.String.{◌++◌}
use Prim.Native.String as Text
use Prim.Native.Char.{Char, code}
use text.Mathlib.TextLemmas.{nil-append, cons-append}
use text.Mathlib.TextEquality.{Char-path}
use rhombus_ai.Base.{String, false, ◌≡◌, ◌≢◌, refl, ap, ◌∙◌, ◌==◌, arith, Bool-cases, inl, inr}
use rhombus_ai.Processing.Transforms.Columns.{replace}
use rhombus_ai.Processing.Transforms.Replace.{escape_replacement}

abbrev pub backslash : Char
backslash = Text.char_at "\\" 0

abbrev pub dollar : Char
dollar = Text.char_at "$" 0

-- What `java.util.regex.Matcher` documents of a replacement, for any match: a backslash makes the
-- next character literal, and every other character but a dollar sign stands for itself.
pub record IsExpansion (expand : String → String) : Type 0 where
  pub ends : expand "" ≡ ""
  pub escaped :
      (c : Char) (s : String) → expand (Text.◌∷◌ backslash (Text.◌∷◌ c s)) ≡ Text.◌∷◌ c (expand s)
  pub plain :
      (c : Char) (s : String)
      → code c ≢ b'\\'
      → code c ≢ b'$'
      → expand (Text.◌∷◌ c s) ≡ Text.◌∷◌ c (expand s)

two-append : (a b : Char) (s : String) → Text.◌∷◌ a (Text.◌∷◌ b "") ++ s ≡ Text.◌∷◌ a (Text.◌∷◌ b s)
two-append a b s =
    cons-append a (Text.◌∷◌ b "") s
    ∙ ap (λ t. Text.◌∷◌ a t) (cons-append b "" s ∙ ap (λ t. Text.◌∷◌ b t) (nil-append s))

-- The escape of a text, character by character.
escape_backslash :
    (s : String)
    → escape_replacement (Text.◌∷◌ backslash s)
      ≡ Text.◌∷◌ backslash (Text.◌∷◌ backslash (escape_replacement s))
unfolding escape_replacement replace
escape_backslash s = rw (two-append backslash backslash (replace b'\\' "\\\\" s)) refl

escape_dollar :
    (s : String)
    → escape_replacement (Text.◌∷◌ dollar s)
      ≡ Text.◌∷◌ backslash (Text.◌∷◌ dollar (escape_replacement s))
unfolding escape_replacement replace
escape_dollar s = two-append backslash dollar _

escape_plain :
    (c : Char) (s : String)
    → (code c == b'\\') ≡ false
    → (code c == b'$') ≡ false
    → escape_replacement (Text.◌∷◌ c s) ≡ Text.◌∷◌ c (escape_replacement s)
unfolding escape_replacement replace
escape_plain c s h k = rw h (rw k refl)

-- A replacement that was escaped is read by Java's engine as exactly the text that the user gave,
-- with its dollar signs and backslashes, whatever the match.
pub expand-escape_replacement :
    (expand : String → String) (r : String) → IsExpansion expand → expand (escape_replacement r) ≡ r
unfolding escape_replacement replace
expand-escape_replacement expand Text.[] laws = laws.ends
expand-escape_replacement expand (Text.◌∷◌ c s) laws =
    let rest = expand-escape_replacement expand s laws in
    elim (Bool-cases (code c == b'\\')) [
      | inl slash ↦
          let is : c ≡ backslash = Char-path c backslash (ground (arith, slash)) in
          rw is (
            rw (escape_backslash s)
              (laws.escaped backslash (escape_replacement s) ∙ ap (λ t. Text.◌∷◌ backslash t) rest))
      | inr other ↦ elim (Bool-cases (code c == b'$')) [
        | inl sign ↦
            let is : c ≡ dollar = Char-path c dollar (ground (arith, sign)) in
            rw is (
              rw (escape_dollar s)
                (laws.escaped dollar (escape_replacement s) ∙ ap (λ t. Text.◌∷◌ dollar t) rest))
        | inr plain_ ↦ rw (escape_plain c s other plain_) (
            laws.plain c (escape_replacement s) (ground (arith, other)) (ground (arith, plain_))
            ∙ ap (λ t. Text.◌∷◌ c t) rest)
      ]
    ]
