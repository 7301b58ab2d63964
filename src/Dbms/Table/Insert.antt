-- ===== src/Dbms/Table/Insert.antt =====
-- server/dbms/database.go: `insert`.
pub mod Complete
pub mod Effect
pub mod Whole
use tac_os.Base.{ℕ, ◌+◌, ◌==◌, if◌then◌else◌, not, codes, List, [], ◌∷◌, ◌++◌, length, replicate}
use tac_os.Dbms.Action
use tac_os.Dbms.Action.{Action}
use tac_os.Dbms.Outcome.{Outcome, ok, query_error, ◌>>=◌, ◌>>◌}
use tac_os.Dbms.Statement.{Identifier, Literal, Statement}
use tac_os.Dbms.Table.{Column, Table, column_index, index, assign, seen_at, check_type}
use tac_os.Dbms.Value.{Float64, Value, zero_value, Result, empty_result}

module _ {F : Type 0} where
  -- the loop of `insert`; `i` counts the columns listed, `seen` holds the indices met
  unfoldable pub insert_loop :
      List Column
      → ℕ
      → List Identifier
      → List (Literal F)
      → List ℕ
      → List (Value F)
      → Outcome (List ℕ × List (Value F))
  insert_loop columns i [] values seen row = ok (seen, row)
  insert_loop columns i (c ∷ cs) values seen row = do
    at ← column_index columns c
    if seen_at seen at
        then query_error c.position (codes "Duplicate INSERT column: " ++ c.name)
        else do
          value ← index values i
          check_type columns at value
          row' ← assign row at value.value
          insert_loop columns (i + 1) cs values (at ∷ seen) row'

module _ {F : Type 0} ⦃float : Float64 F⦄ where
  -- the row that INSERT appends, or its error
  unfoldable pub new_row : List Column → Statement F → Outcome (List (Value F))
  new_row columns s =
      if not (length s.columns == length s.values)
      then query_error s.table.position (codes "INSERT column count does not match value count")
      else do
        (seen, row) ←
            insert_loop columns 0 s.columns s.values [] (replicate (length columns) zero_value)
        if not (length seen == length columns)
            then query_error s.table.position (
                codes
                  "INSERT must provide every column exactly once; NULL/defaults are unsupported")
            else ok row

  unfoldable pub insert : Statement F → Action (Table F) (Result F)
  insert s t =
      let append = λ (row : List (Value F)).
        Action.◌>>◌ (Action.modify (λ (u : Table F). record u { rows = u.rows ++ row ∷ [] }))
          (Action.pure empty_result) in
      Action.◌>>=◌ (Action.lift (new_row t.columns s)) append t
