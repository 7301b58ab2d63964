-- ===== src/Dbms/Table/Select.antt =====
-- server/dbms/database.go: `selectRows`. It writes nothing.
pub mod Rows
pub mod Effect
use tac_os.Base.{ℕ, ◌+◌, if◌then◌else◌, Bool, true, List, [], ◌∷◌, ◌++◌, map, Option, none, some}
use tac_os.Dbms.Outcome.{Outcome, ok, ◌>>=◌, ◌>>◌}
use tac_os.Dbms.Statement.{Identifier, Predicate, Statement}
use tac_os.Dbms.Table.{Column, Table, column_index, index, check_type}
use tac_os.Dbms.Value.{Float64, Value, value_eq, Result}

-- `0, 1, …` for each column from column `i` on
abbrev pub indices_from {ℓ} : {A : Type ℓ} → ℕ → List A → List ℕ
indices_from i [] = []
indices_from i (x ∷ xs) = i ∷ indices_from (i + 1) xs

-- the columns of the projection, without `*`
unfoldable pub selected_loop : List Column → List Identifier → Outcome (List ℕ)
selected_loop columns [] = ok []
selected_loop columns (c ∷ cs) = do
  i ← column_index columns c
  selected ← selected_loop columns cs
  ok (i ∷ selected)

-- the columns at the selected indices, for `Columns` and `Types` of the result
unfoldable pub projected_columns : List Column → List ℕ → Outcome (List Column)
projected_columns columns [] = ok []
projected_columns columns (i ∷ selected) = do
  c ← index columns i
  cs ← projected_columns columns selected
  ok (c ∷ cs)

module _ {F : Type 0} where
  unfoldable pub selection : List Column → Statement F → Outcome (List ℕ)
  selection columns s =
      if s.all then ok (indices_from 0 columns) else selected_loop columns s.columns

  -- `projected[i] = row[index]`
  unfoldable pub project : List ℕ → List (Value F) → Outcome (List (Value F))
  project [] row = ok []
  project (i ∷ selected) row = do v ← index row i; vs ← project selected row; ok (v ∷ vs)

  -- the filter of a SELECT: a column's index and a value, or none without WHERE
  unfoldable pub where_filter : List Column → Option (Predicate F) → Outcome (Option (ℕ × Value F))
  where_filter columns none = ok none
  where_filter columns (some p) = do
    i ← column_index columns p.column
    check_type columns i p.literal
    ok (some (i, p.literal.value))

module _ {F : Type 0} ⦃float : Float64 F⦄ where
  -- the row is not skipped
  unfoldable pub passes : Option (ℕ × Value F) → List (Value F) → Outcome Bool
  passes none row = ok true
  passes (some (i, value)) row = do v ← index row i; ok (value_eq v value)

  -- one round of the loop over the rows: a projected copy, if the row is not skipped
  unfoldable pub select_row :
      Option (ℕ × Value F) → List ℕ → List (Value F) → Outcome (List (List (Value F)))
  select_row filter selected row = do
    chosen ← passes filter row
    if chosen then (do projected ← project selected row; ok (projected ∷ [])) else ok []

  unfoldable pub select_loop :
      Option (ℕ × Value F) → List ℕ → List (List (Value F)) → Outcome (List (List (Value F)))
  select_loop filter selected [] = ok []
  select_loop filter selected (row ∷ rows) = do
    chosen ← select_row filter selected row
    rest ← select_loop filter selected rows
    ok (chosen ++ rest)

  unfoldable pub select_rows : Statement F → Table F → Outcome (Result F)
  select_rows s t = do
    selected ← selection t.columns s
    columns ← projected_columns t.columns selected
    filter ← where_filter t.columns s.predicate
    rows ← select_loop filter selected t.rows
    ok (record {
      columns = map (λ c. c.name) columns;
      types = map (λ c. c.type_id) columns;
      rows = rows;
    })
