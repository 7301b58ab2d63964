-- ===== src/Dbms/Service.antt =====
-- server/dbms/internal/server/protocol.go: `executor.query`, the answer to one statement. A value of
-- a response is what the JSON encoder is given.
pub mod Answers
pub mod Executor
use tac_os.Base.{
  ℤ, ℕ, if◌then◌else◌, Bool, true, false, Bytes, codes, List, [], ◌∷◌, map, Option, none, some,
}
use tac_os.Dbms.Action.{Action}
use tac_os.Dbms.Database.{Database, execute}
use tac_os.Dbms.Outcome.{QueryError, Outcome, ok, err, panic, no_fuel, ◌>>=◌}
use tac_os.Dbms.Value.{Float64, SqlType, integer, real, text, Value, Result}

pub record ResponseColumn : Type 0 where
  pub name : Bytes
  pub type_name : Bytes

pub record Failure : Type 0 where
  pub code : Bytes
  pub message : Bytes
  pub position : Option ℕ

pub data Cell (F : Type 0) : Type 0 where
  integer_cell : ℤ → Cell F
  real_cell : F → Cell F
  text_cell : Bytes → Cell F

pub record Response (F : Type 0) : Type 0 where
  pub ok : Bool
  pub columns : Option (List ResponseColumn)
  pub rows : Option (List (List (Cell F)))
  pub failure : Option Failure

-- `[]string{"INTEGER", "REAL", "TEXT"}[t]`
abbrev pub type_name : SqlType → Bytes
type_name integer = codes "INTEGER"
type_name real = codes "REAL"
type_name text = codes "TEXT"

-- the loop over `result.Columns`; a column without a type is an index out of range
unfoldable pub response_columns : List Bytes → List SqlType → Outcome (List ResponseColumn)
response_columns [] types = ok []
response_columns (n ∷ names) [] = panic
response_columns (n ∷ names) (t ∷ types) = do
  columns ← response_columns names types
  ok (record { name = n; type_name = type_name t } ∷ columns)

module _ {F : Type 0} where
  abbrev pub cell_of : SqlType → Value F → Cell F
  cell_of integer v = integer_cell v.integer
  cell_of real v = real_cell v.real
  cell_of text v = text_cell v.text

  -- the `switch v.Type()`
  abbrev pub cell : Value F → Cell F
  cell v = cell_of v.type_id v

  -- `response{OK: true}`
  abbrev pub plain : Response F
  plain = record { ok = true; columns = none; rows = none; failure = none }

  -- every error of `Execute` is a `QueryError`
  abbrev pub sql_error : QueryError → Response F
  sql_error e = record {
    ok = false;
    columns = none;
    rows = none;
    failure =
        some (record { code = codes "SQL_ERROR"; message = e.message; position = some e.position });
  }

  unfoldable pub table_response : Result F → Outcome (Response F)
  unfolding response_columns
  table_response r = do
    columns ← response_columns r.columns r.types
    ok (record plain { columns = some columns; rows = some (map (map cell) r.rows) })

  unfoldable pub result_response : List Bytes → Result F → Outcome (Response F)
  unfolding table_response
  result_response [] r = ok plain
  result_response (c ∷ cs) r = table_response r

  unfoldable pub answer : Outcome (Result F) → Outcome (Response F)
  unfolding result_response
  answer (ok r) = result_response r.columns r
  answer (err e) = ok (sql_error e)
  answer panic = panic
  answer no_fuel = no_fuel

module _ {F : Type 0} ⦃float : Float64 F⦄ where
  unfoldable pub query : Bytes → Action (Database F) (Response F)
  unfolding answer
  query sql db = let (db', r) = execute sql db in (db', answer r)
