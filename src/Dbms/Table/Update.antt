-- ===== src/Dbms/Table/Update.antt =====
-- server/dbms/database.go: `updateRows`. It validates the statement, and then writes row by row.
pub mod Validate
pub mod Writes
pub mod Effect
use tac_os.Base.{
  ℕ, ◌+◌, if◌then◌else◌, not, codes, List, [], ◌∷◌, ◌++◌, get_elem?, set, Option, none, some,
}
use tac_os.Dbms.Action
use tac_os.Dbms.Action.{Action}
use tac_os.Dbms.Outcome.{Outcome, ok, panic, query_error, ◌>>=◌, ◌>>◌}
use tac_os.Dbms.Statement.{Identifier, Literal, Predicate, Statement}
use tac_os.Dbms.Table.{Column, Table, column_index, index, seen_at, check_type}
use tac_os.Dbms.Value.{Float64, Value, value_eq, Result, empty_result}

module _ {F : Type 0} where
  -- the loop of `updateRows` over the SET list: the indices of its columns
  unfoldable pub update_loop :
      List Column → ℕ → List Identifier → List (Literal F) → List ℕ → Outcome (List ℕ)
  update_loop columns i [] values seen = ok []
  update_loop columns i (c ∷ cs) values seen = do
    at ← column_index columns c
    if seen_at seen at
        then query_error c.position (codes "Duplicate UPDATE column: " ++ c.name)
        else do
          value ← index values i
          check_type columns at value
          indices ← update_loop columns (i + 1) cs values (at ∷ seen)
          ok (at ∷ indices)

  -- `row[at] = v`
  unfoldable pub write : ℕ → Value F → Action (List (Value F)) (Unit {0})
  write at v row = elim (get_elem? row at) [ none ↦ (row, panic) | some _ ↦ (set row at v, ok tt) ]

  -- `for i, index := range indices { row[index] = s.values[i].value }`, from round `i` on
  unfoldable pub write_row : ℕ → List ℕ → List (Literal F) → Action (List (Value F)) (Unit {0})
  write_row i [] values = Action.pure tt
  write_row i (at ∷ indices) values =
      Action.◌>>=◌ (Action.lift (index values i))
        λ value. Action.◌>>◌ (write at value.value) (write_row (i + 1) indices values)

-- where the WHERE clause points, and its value
abbrev pub Filter : Type 0 → Type 0
Filter F = ℕ × Value F

module _ {F : Type 0} where
  -- `s.predicate.column`; a statement without WHERE would dereference nil
  unfoldable pub filter_of : List Column → Option (Predicate F) → Outcome (Filter F)
  filter_of columns none = panic
  filter_of columns (some p) = do
    filter ← column_index columns p.column
    check_type columns filter p.literal
    ok (filter, p.literal.value)

  -- everything that is checked before the first write
  unfoldable pub validate : List Column → Statement F → Outcome (List ℕ × Filter F)
  validate columns s = do
    indices ← update_loop columns 0 s.columns s.values []
    filter ← filter_of columns s.predicate
    ok (indices, filter)

module _ {F : Type 0} ⦃float : Float64 F⦄ where
  -- one round of the loop over the rows
  unfoldable pub update_row :
      Filter F → List ℕ → List (Literal F) → Action (List (Value F)) (Unit {0})
  update_row (filter, value) indices values row =
      Action.◌>>=◌ (Action.lift (index row filter))
        (λ v. if not (value_eq v value) then Action.pure tt else write_row 0 indices values) row

  abbrev and_then :
      List (Value F)
      → List (List (Value F)) × Outcome (Unit {0})
      → Outcome (Unit {0})
      → List (List (Value F))
      → List (List (Value F)) × Outcome (Unit {0})
  and_then row (rows', r') (ok _) rows = (row ∷ rows', r')
  and_then row later failure rows = (row ∷ rows, failure)

  -- rows behind a failure are not reached
  unfoldable pub update_each :
      Filter F → List ℕ → List (Literal F) → Action (List (List (Value F))) (Unit {0})
  update_each filter indices values [] = ([], ok tt)
  update_each filter indices values (row ∷ rows) =
      let (row', r) = update_row filter indices values row in
      and_then row' (update_each filter indices values rows) r rows

  unfoldable pub write_rows : Statement F → List ℕ × Filter F → Action (Table F) (Result F)
  write_rows s (indices, filter) t =
      let (rows, r) = update_each filter indices s.values t.rows in
      Action.◌>>=◌ (Action.lift r) (λ _. Action.pure empty_result) (record t { rows = rows })

  unfoldable pub update_rows : Statement F → Action (Table F) (Result F)
  update_rows s t = Action.◌>>=◌ (Action.lift (validate t.columns s)) (write_rows s) t
