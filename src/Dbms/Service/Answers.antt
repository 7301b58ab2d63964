-- ===== src/Dbms/Service/Answers.antt =====
-- server/dbms/internal/server/protocol.go: the answers of `executor.query`.
use tac_os.Base.{
  ℕ, ◌≤◌, ◌≡◌, refl, sym, ap, ◌∙◌, subst, true, Bytes, codes, List, [], ◌∷◌, map, length, Option,
  none, some, All,
}
use tac_os.Dbms.Action.{Ends, done, refused}
use tac_os.Dbms.Database.{Database}
use tac_os.Dbms.Database.Execute.{IsConsistentDb, execute-Ends}
use tac_os.Dbms.Outcome.{QueryError, Outcome, ok}
use tac_os.Dbms.Service.{
  ResponseColumn, Cell, integer_cell, real_cell, text_cell, Response, type_name, response_columns,
  cell_of, cell, plain, sql_error, table_response, result_response, answer, query,
}
use tac_os.Dbms.Table.{Column}
use tac_os.Dbms.Table.Fits.{Fits}
use tac_os.Dbms.Table.Methods.{IsTabular}
use tac_os.Dbms.Value.{Float64, SqlType, integer, real, text, Value, Result}

abbrev column_of : Column → ResponseColumn
column_of c = record { name = c.name; type_name = type_name c.type_id }

response_columns-map :
    (chosen : List Column)
    → response_columns (map (λ c. c.name) chosen) (map (λ c. c.type_id) chosen)
      ≡ ok (map column_of chosen)
unfolding response_columns
response_columns-map [] = refl
response_columns-map (c ∷ cs) = rw (response_columns-map cs) refl

module _ {F : Type 0} where
  -- the name of the type that the encoder's value has
  abbrev pub cell_type : Cell F → Bytes
  cell_type (integer_cell n) = codes "INTEGER"
  cell_type (real_cell x) = codes "REAL"
  cell_type (text_cell s) = codes "TEXT"

  abbrev pub AreCells : List ResponseColumn → List (Cell F) → Type 0
  AreCells [] [] = Unit
  AreCells (c ∷ cs) (x ∷ xs) = (cell_type x ≡ c.type_name) × AreCells cs xs
  AreCells _ _ = ⊥

  abbrev pub HasCells : Option (List ResponseColumn) → Option (List (List (Cell F))) → Type 0
  HasCells none none = Unit
  HasCells (some columns) (some rows) = All (AreCells columns) rows
  HasCells _ _ = ⊥

  -- An OK response: no error, and columns with rows that have a value of the announced type in each,
  -- or neither.
  pub record IsSound (r : Response F) : Type 0 where
    pub is_ok : r.ok ≡ true
    pub no_failure : r.failure ≡ none
    pub cells : HasCells r.columns r.rows

  cell_of-type : (v : Value F) → cell_type (cell v) ≡ type_name v.type_id
  cell_of-type v = go v.type_id
    where
      go : (t : SqlType) → cell_type (cell_of t v) ≡ type_name t
      go integer = refl
      go real = refl
      go text = refl

  AreCells-map :
      (chosen : List Column) (row : List (Value F))
      → Fits chosen row
      → AreCells (map column_of chosen) (map cell row)
  AreCells-map [] [] f = tt
  AreCells-map [] (v ∷ vs) f = absurd f
  AreCells-map (c ∷ cs) [] f = absurd f
  AreCells-map (c ∷ cs) (v ∷ vs) (e, f) = (cell_of-type v ∙ ap type_name e, AreCells-map cs vs f)

  rows-AreCells :
      (chosen : List Column) (rows : List (List (Value F)))
      → All (Fits chosen) rows
      → All (AreCells (map column_of chosen)) (map (map cell) rows)
  rows-AreCells chosen [] f = tt
  rows-AreCells chosen (row ∷ rows) (f, fs) =
      (AreCells-map chosen row f, rows-AreCells chosen rows fs)

  result_response-IsSound :
      (r : Result F)
      → IsTabular r
      → (x : Response F) × (result_response r.columns r ≡ ok x) × IsSound x
  unfolding result_response table_response
  result_response-IsSound r t = go t.chosen t.columns_are t.types_are t.rows_fit
    where
      go :
          (chosen : List Column)
          → r.columns ≡ map (λ c. c.name) chosen
          → r.types ≡ map (λ c. c.type_id) chosen
          → All (Fits chosen) r.rows
          → (x : Response F) × (result_response r.columns r ≡ ok x) × IsSound x
      go [] names types fits =
          (plain, rw names refl, record { is_ok = refl; no_failure = refl; cells = tt })
      go (c ∷ cs) names types fits = (
        record plain {
          columns = some (map column_of (c ∷ cs));
          rows = some (map (map cell) r.rows);
        },
        rw (names, types, response_columns-map cs) refl,
        record { is_ok = refl; no_failure = refl; cells = rows-AreCells (c ∷ cs) r.rows fits },
      )

-- How a statement of `n` bytes is answered: by a sound response, or by a SQL_ERROR at an offset of
-- the statement or at its end, and then the tables are as they were.
pub data Answered {F : Type 0} (n : ℕ) (db : Database F)
    : Database F × Outcome (Response F) → Type 0 where
  replied :
      {t : Database F} {x : Response F} → IsConsistentDb t → IsSound x → Answered n db (t, ok x)
  reported : {e : QueryError} → e.position ≤ n → Answered n db (db, ok (sql_error e))

answer-Answered :
    {F : Type 0} {n : ℕ} {db : Database F} {p : Database F × Outcome (Result F)}
    → Ends n IsConsistentDb IsTabular db p
    → Answered n db (p.0, answer p.1)
unfolding answer
answer-Answered {n} {db} (done {t} {a} c q) =
    let (x, e, s) = result_response-IsSound a q in
    subst (λ r. Answered n db (t, r)) (sym e) (replied c s)
answer-Answered {n} {db} (refused {t} {e} same at) =
    subst (λ u. Answered n db (u, ok (sql_error e))) (sym same) (reported at)

module _ {F : Type 0} ⦃float : Float64 F⦄ where
  -- On consistent tables every statement gets a response: either an OK one, whose rows have for each
  -- column a value of the type that the column announces, and then the tables are consistent again;
  -- or a SQL_ERROR with an offset of the statement or its end, and then the tables are unchanged.
  pub query-Answered :
      (sql : Bytes) (db : Database F) → IsConsistentDb db → Answered (length sql) db (query sql db)
  unfolding query
  query-Answered sql db c = answer-Answered (execute-Ends sql db c)
