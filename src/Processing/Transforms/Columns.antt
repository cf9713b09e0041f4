-- ===== src/Processing/Transforms/Columns.antt =====
-- backend/processing/transforms/columns.py, but for `require_columns`.
use Prim.Native.String.{◌++◌}
use Prim.Native.String as Text
use Prim.Native.Char.{code}
use rhombus_ai.Base.{ℕ, String, false, some, List, [], ◌∷◌, ◌==◌, map, if◌then◌else◌}
use rhombus_ai.Processing.Schema.{contains}
use rhombus_ai.Processing.Transforms.Functions.{Text, Cond, Functions}

-- `text.replace(c, new)` of a single character.
unfoldable pub replace : ℕ → String → String → String
replace c new Text.[] = ""
replace c new (Text.◌∷◌ d s) =
    let rest = replace c new s in if code d == c then new ++ rest else Text.◌∷◌ d rest

-- The text that `F.col` is given.
unfoldable pub quoted_column : String → String
unfolding replace
quoted_column name = "`" ++ (replace b'`' "``" name ++ "`")

-- A row that is written: its columns in order, and whether it matched.
pub record OutRow : Type 0 where
  pub cells : List (String × Text)
  pub matched : Cond

module _ {Row Date : Type 0} (f : Functions Row Date) (row : Row) where
  abbrev pub cell : String → Text
  cell name = f.col (quoted_column name) row

  module _ (rewrite : String → Text → Text × Cond) where
    abbrev pub rewritten : String → Text × Cond
    rewritten name = rewrite name (cell name)

    abbrev pub projected : List String → String → String × Text
    projected targets name = (name, if contains targets name then (rewritten name).0 else cell name)

    -- `reduce(or_, …, F.lit(False))`
    unfoldable pub any_match : Cond → List String → Cond
    any_match so_far [] = so_far
    any_match so_far (name ∷ targets) =
        any_match (f.or_ so_far (f.coalesce (rewritten name).1 (some false))) targets

    -- All columns are texts, so that the cast to a string changes nothing.
    unfoldable pub rewrite_columns : List String → List String → OutRow
    unfolding any_match
    rewrite_columns columns targets = record {
      cells = map (projected targets) columns;
      matched = any_match (some false) targets;
    }
