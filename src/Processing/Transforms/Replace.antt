-- ===== src/Processing/Transforms/Replace.antt =====
-- backend/processing/transforms/regex_replace.py. Java's `Pattern.compile` is a parameter.
use rhombus_ai.Base.{String, Option, none, some, List}
use rhombus_ai.Failure.{Result, ok, err, processing, invalid_pattern}
use rhombus_ai.Processing.Schema.{require_columns}
use rhombus_ai.Processing.Transforms.Functions.{Text, Cond, Functions}
use rhombus_ai.Processing.Transforms.Columns.{OutRow, replace, rewrite_columns}

-- `replacement.replace("\\", "\\\\").replace("$", "\\$")`
unfoldable pub escape_replacement : String → String
unfolding replace
escape_replacement replacement = replace b'$' "\\$" (replace b'\\' "\\\\" replacement)

-- What compiling in the JVM gives: the error's description, if there is one.
abbrev pub ensure_java_pattern : (String → Option String) → String → Result (Unit {0})
ensure_java_pattern compile_error pattern = elim (compile_error pattern) [
  | none ↦ ok tt
  | some description ↦ err (processing invalid_pattern description)
]

-- `targets = require_columns(…)`, then the checks, then the rewriting.
abbrev pub after_checks :
    {A B : Type 0} → Result (List String) → Result A → (List String → B) → Result B
after_checks (err e) checks build = err e
after_checks (ok targets) (err e) build = err e
after_checks (ok targets) (ok a) build = ok (build targets)

module _ {Row Date : Type 0} (f : Functions Row Date) where
  abbrev pub replace_in : String → String → Text → Text × Cond
  replace_in pattern literal value = (f.regexp_replace value pattern literal, f.rlike value pattern)

module _ {Row Date : Type 0} (f : Functions Row Date) (message : List String → String)
    (compile_error : String → Option String) where
  -- The transformation of each row, or the error before any data is read.
  unfoldable pub regex_replace : List String → List String → String → String → Result (Row → OutRow)
  unfolding escape_replacement rewrite_columns require_columns
  regex_replace available columns pattern replacement =
      after_checks (require_columns message available columns)
        (ensure_java_pattern compile_error pattern)
        (λ targets row.
          rewrite_columns f row
            (λ name value. replace_in f pattern (escape_replacement replacement) value) available
            targets)
