-- ===== src/Processing/Schema/Examples.antt =====
-- A source with two columns, of which one is requested twice.
use rhombus_ai.Base.{String, ◌≡◌, refl, List, [], ◌∷◌}
use rhombus_ai.Failure.{ok}
use rhombus_ai.Processing.Schema.{require_columns}

abbrev source_columns : List String
source_columns = "__row_id" ∷ "email" ∷ "name" ∷ []

abbrev asked_columns : List String
asked_columns = "email" ∷ "email" ∷ []

require_columns_runs :
    require_columns (λ missing. "") source_columns asked_columns ≡ ok ("email" ∷ [])
unfolding require_columns
require_columns_runs = refl
