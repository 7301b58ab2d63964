-- ===== src/Dbms/Database.antt =====
-- server/dbms/database.go: `Database.Execute`. The map of tables is an association list; a key
-- stands once, and a lookup takes the first entry of its name.
pub mod Execute
use tac_os.Base.{
  Bool, false, if◌then◌else◌, ◌||◌, Bytes, codes, bytes_eq, List, [], ◌∷◌, ◌++◌, Option, none, some,
}
use tac_os.Dbms.Action
use tac_os.Dbms.Action.{Action}
use tac_os.Dbms.Outcome.{Outcome, ok, query_error, ◌>>=◌}
use tac_os.Dbms.Parser.Statements.{parse}
use tac_os.Dbms.Statement.{ColumnDefinition, Statement, Operation}
use tac_os.Dbms.Table.{Column, Table}
use tac_os.Dbms.Table.Insert.{insert}
use tac_os.Dbms.Table.Select.{select_rows}
use tac_os.Dbms.Table.Update.{update_rows}
use tac_os.Dbms.Value.{Float64, Result, empty_result}

abbrev pub Database : Type 0 → Type 0
Database F = List (Bytes × Table F)

module _ {F : Type 0} where
  unfoldable pub find_table : Database F → Bytes → Option (Table F)
  find_table [] name = none
  find_table ((n, t) ∷ db) name = if bytes_eq n name then some t else find_table db name

  -- `db.tables[name] = t`, or the write through the pointer `t` of that name
  unfoldable pub put_table : Database F → Bytes → Table F → Database F
  put_table [] name t = (name, t) ∷ []
  put_table ((n, u) ∷ db) name t =
      let rest = put_table db name t in if bytes_eq n name then (n, t) ∷ db else (n, u) ∷ rest

-- `names[name]`, of the columns declared so far
unfoldable pub declared : List Bytes → Bytes → Bool
declared [] name = false
declared (n ∷ names) name = bytes_eq n name || declared names name

-- the loop of CREATE over the column definitions
unfoldable pub create_columns : List Bytes → List ColumnDefinition → Outcome (List Column)
unfolding declared
create_columns names [] = ok []
create_columns names (c ∷ cs) =
    if declared names c.name
    then query_error c.position (codes "Duplicate column: " ++ c.name)
    else do
      columns ← create_columns (c.name ∷ names) cs
      ok (record { name = c.name; type_id = c.type_id } ∷ columns)

module _ {F : Type 0} ⦃float : Float64 F⦄ where
  unfoldable pub create : Statement F → Action (Database F) (Result F)
  create s db = elim (find_table db s.table.name) [
    | some _ ↦ (db, query_error s.table.position (codes "Table already exists: " ++ s.table.name))
    | none ↦
        Action.◌>>=◌ (Action.lift (create_columns [] s.definitions))
          (λ columns.
            Action.◌>>◌
              (Action.modify
                (λ d. put_table d s.table.name (record { columns = columns; rows = [] })))
              (Action.pure empty_result))
          db
  ]

  -- the method that `Execute` calls on the table
  unfoldable pub on_table : Operation → Statement F → Action (Table F) (Result F)
  on_table Operation.insert s t = insert s t
  on_table Operation.update_rows s t = update_rows s t
  on_table _ s t = (t, select_rows s t)

  -- the pointer `t` of the map is written through
  unfoldable pub existing : Statement F → Action (Database F) (Result F)
  existing s db = elim (find_table db s.table.name) [
    | none ↦ (db, query_error s.table.position (codes "Unknown table: " ++ s.table.name))
    | some t ↦ let (t', r) = on_table s.operation s t in (put_table db s.table.name t', r)
  ]

  unfoldable pub run : Operation → Statement F → Action (Database F) (Result F)
  run Operation.create s = create s
  run _ s = existing s

  unfoldable pub execute : Bytes → Action (Database F) (Result F)
  execute source = Action.◌>>=◌ (Action.lift (parse source)) (λ s. run s.operation s)
