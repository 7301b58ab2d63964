-- ===== src/Dbms/Tests.antt =====
-- Runs of server/dbms at concrete inputs. Here a float64 is the text that was parsed.
use tac_os.Base.{
  ◌≤◌, ◌≡◌, ◌++◌, refl, arith, ℕ, false, pos, Bytes, bytes_eq, codes, String, List, [], ◌∷◌, some,
  ◌⊎◌, map,
}
use tac_os.Dbms.Action.{Ends}
use tac_os.Dbms.Database.{execute}
use tac_os.Dbms.Database.Execute.{IsConsistentDb, execute-Ends}
use tac_os.Dbms.Outcome.{QueryError, ok, err, Returns, Returns-ok}
use tac_os.Dbms.Parser.Statements.{parse}
use tac_os.Dbms.Parser.Total.{IsUsable, parse-Returns}
use tac_os.Dbms.Service.{query}
use tac_os.Dbms.Service.Answers.{Answered, query-Answered}
use tac_os.Dbms.Statement.{Identifier, Operation, Statement, statement_of}
use tac_os.Dbms.Table.{Column, Table, column_index, seen_at, index, check_type}
use tac_os.Dbms.Table.Consistent.{IsConsistent}
use tac_os.Dbms.Table.Fits.{Fits}
use tac_os.Dbms.Table.Insert.{insert, new_row}
use tac_os.Dbms.Table.Insert.Whole.{insert_lem}
use tac_os.Dbms.Table.Methods.{IsTabular}
use tac_os.Dbms.Table.Select.{select_rows}
use tac_os.Dbms.Table.Select.Effect.{IsSelectable, select_rows_lem}
use tac_os.Dbms.Table.Select.Rows.{IsSelection}
use tac_os.Dbms.Table.Update.{Filter, filter_of, update_loop, validate, update_rows}
use tac_os.Dbms.Table.Update.Effect.{update_rows_lem}
use tac_os.Dbms.Table.Update.Validate.{IsValidated, validate-Returns}
use tac_os.Dbms.Table.Update.Writes.{updated}
use tac_os.Dbms.Value.{Result, Float64, Value, integer, text, empty_result}

instance abbrev pub text_float : Float64 Bytes
text_float = record {
  zero_value = [];
  equals = bytes_eq;
  parse_float = λ t. some t;
  is_inf = λ _. false;
  is_nan = λ _. false;
}

abbrev int_value : ℕ → Value Bytes
int_value n = record { type_id = integer; integer = pos n; real = []; text = [] }

abbrev text_value : String → Value Bytes
text_value s = record { type_id = text; integer = pos 0; real = []; text = codes s }

abbrev id : String → ℕ → Identifier
id name at = record { name = codes name; position = at }

abbrev two_columns : List Column
two_columns =
    record { name = codes "n"; type_id = integer }
    ∷ record { name = codes "name"; type_id = text }
    ∷ []

abbrev two_rows : Table Bytes
two_rows = record {
  columns = two_columns;
  rows = (int_value 1 ∷ text_value "a" ∷ []) ∷ (int_value 2 ∷ text_value "o'k" ∷ []) ∷ [];
}

two_rows-IsConsistent : IsConsistent two_rows
two_rows-IsConsistent = record {
  names = (((λ e. cc), tt), (tt, tt));
  rows = ((refl, (refl, tt)), ((refl, (refl, tt)), tt));
}

abbrev an_update : Statement Bytes
an_update = record (statement_of Operation.update_rows (id "t" 7)) {
  columns = id "name" 13 ∷ [];
  values = record { value = text_value "b"; position = 20 } ∷ [];
  predicate =
      some (record { column = id "n" 30; literal = record { value = int_value 1; position = 34 } });
}

an_update-IsUsable : IsUsable 40 an_update
an_update-IsUsable = record {
  table_at = omega arith;
  definitions_at = tt;
  columns_at = (omega arith, tt);
  values_at = (omega arith, tt);
  predicate_at = (omega arith, omega arith);
  update_shape = λ e. (refl, λ n. cc);
}

an_update-IsValidated : IsValidated two_columns an_update (1 ∷ [], (0, int_value 1))
unfolding validate update_loop column_index bytes_eq seen_at index check_type filter_of
an_update-IsValidated =
    Returns-ok (validate-Returns two_columns an_update an_update-IsUsable refl) refl

execute-Ends_example :
    Ends 40 IsConsistentDb IsTabular
      ((codes "t", two_rows) ∷ [])
      (execute (codes "UPDATE t SET name = 'b' WHERE n = 1    ;") ((codes "t", two_rows) ∷ []))
execute-Ends_example =
    execute-Ends (codes "UPDATE t SET name = 'b' WHERE n = 1    ;") ((codes "t", two_rows) ∷ [])
      (two_rows-IsConsistent, tt)

parse-Returns_example : Returns 14 (IsUsable 14) (parse {F = Bytes} (codes "SELECT * FROM "))
parse-Returns_example = parse-Returns (codes "SELECT * FROM ")

update_rows_lem_example :
    ((e : QueryError) × (e.position ≤ 40)
      × ((plan : List ℕ × Filter Bytes) → ¬ IsValidated two_columns an_update plan)
      × (update_rows an_update two_rows ≡ (two_rows, err e)))
    ⊎ ((plan : List ℕ × Filter Bytes) × IsValidated two_columns an_update plan
        × (update_rows an_update two_rows ≡ (
          record two_rows { rows = map (updated plan.1 plan.0 an_update.values) two_rows.rows },
          ok empty_result,
        )))
update_rows_lem_example =
    update_rows_lem an_update two_rows two_rows-IsConsistent an_update-IsUsable refl

abbrev a_selection : Statement Bytes
a_selection = record (statement_of Operation.select_rows (id "t" 20)) {
  columns = id "name" 7 ∷ [];
  predicate =
      some (record { column = id "n" 28; literal = record { value = int_value 1; position = 32 } });
}

select_rows_lem_example :
    ((e : QueryError) × (e.position ≤ 40)
      × (¬ IsSelectable two_columns a_selection)
      × (select_rows a_selection two_rows ≡ err e))
    ⊎ ((r : Result Bytes) × IsSelection two_rows a_selection r
        × (select_rows a_selection two_rows ≡ ok r))
select_rows_lem_example = select_rows_lem a_selection two_rows two_rows-IsConsistent (record {
  table_at = omega arith;
  definitions_at = tt;
  columns_at = (omega arith, tt);
  values_at = tt;
  predicate_at = (omega arith, omega arith);
  update_shape = λ e. cc;
})

abbrev an_insert : Statement Bytes
an_insert = record (statement_of Operation.insert (id "t" 12)) {
  columns = id "name" 15 ∷ id "n" 21 ∷ [];
  values =
      record { value = text_value "c"; position = 32 }
      ∷ record { value = int_value 3; position = 37 }
      ∷ [];
}

an_insert-IsUsable : IsUsable 40 an_insert
an_insert-IsUsable = record {
  table_at = omega arith;
  definitions_at = tt;
  columns_at = (omega arith, (omega arith, tt));
  values_at = (omega arith, (omega arith, tt));
  predicate_at = tt;
  update_shape = λ e. cc;
}

query-Answered_example :
    Answered 19
      ((codes "t", two_rows) ∷ [])
      (query (codes "SELECT n FROM t ; ;") ((codes "t", two_rows) ∷ []))
query-Answered_example =
    query-Answered (codes "SELECT n FROM t ; ;") ((codes "t", two_rows) ∷ [])
      (two_rows-IsConsistent, tt)

insert_lem_example :
    ((e : QueryError) × (new_row two_columns an_insert ≡ err e)
      × (insert an_insert two_rows ≡ (two_rows, err e)))
    ⊎ ((row : List (Value Bytes)) × Fits two_columns row
        × (new_row two_columns an_insert ≡ ok row)
        × (insert an_insert two_rows
            ≡ (record two_rows { rows = two_rows.rows ++ row ∷ [] }, ok empty_result)))
insert_lem_example = insert_lem an_insert two_rows an_insert-IsUsable
