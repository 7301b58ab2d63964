-- ===== src/Dbms/Parser/Statements.antt =====
-- server/dbms/parser.go: the four statements and `parse`.
use tac_os.Base.{ℕ, zero, suc, if◌then◌else◌, Bool, Bytes, codes, List, [], ◌∷◌, length, map, some}
use tac_os.Dbms.Lexer.{left_paren, right_paren, comma, equal, star, semicolon, end, lex}
use tac_os.Dbms.Outcome
use tac_os.Dbms.Outcome.{Outcome, ok, no_fuel}
use tac_os.Dbms.Parser.Monad.{Parse, pure, ◌>>=◌, ◌>>◌}
use tac_os.Dbms.Parser.Parts.{
  fail, take, take_keyword, require, require_keyword, identifier, identifiers, value_type, literal,
}
use tac_os.Dbms.Statement.{
  Identifier, Literal, ColumnDefinition, Predicate, Statement, create, insert, select_rows,
  update_rows, statement_of,
}
use tac_os.Dbms.Value.{Float64}

-- the loop of `create`
unfoldable pub column_definitions : ℕ → Parse (List ColumnDefinition)
column_definitions zero = λ _. no_fuel
column_definitions (suc fuel) =
    let more = column_definitions fuel in
    do
      id ← identifier
      type_id ← value_type
      let definition : ColumnDefinition = record { identifier = id; type_id = type_id }
      comma_follows ← take comma
      if comma_follows then (do ds ← more; pure (definition ∷ ds)) else pure (definition ∷ [])

-- `if !s.all { … }`
unfoldable pub selected_columns : ℕ → Bool → Parse (List Identifier)
selected_columns fuel all = if all then pure [] else identifiers fuel

module _ {F : Type 0} ⦃float : Float64 F⦄ where
  unfoldable pub create_statement : ℕ → Parse (Statement F)
  create_statement fuel = do
    require_keyword (codes "TABLE")
    table ← identifier
    require left_paren (codes "Expected '(' before column definitions")
    definitions ← column_definitions fuel
    require right_paren (codes "Expected ')' after column definitions")
    pure (record (statement_of create table) { definitions = definitions })

  -- the loop of `insert`
  unfoldable pub literals : ℕ → Parse (List (Literal F))
  literals zero = λ _. no_fuel
  literals (suc fuel) =
      let more = literals fuel in
      do
        v ← literal
        comma_follows ← take comma
        if comma_follows then (do vs ← more; pure (v ∷ vs)) else pure (v ∷ [])

  unfoldable pub insert_statement : ℕ → Parse (Statement F)
  insert_statement fuel = do
    require_keyword (codes "INTO")
    table ← identifier
    require left_paren (codes "Expected '(' before INSERT columns")
    columns ← identifiers fuel
    require right_paren (codes "Expected ')' after INSERT columns")
    require_keyword (codes "VALUES")
    require left_paren (codes "Expected '(' before INSERT values")
    values ← literals fuel
    require right_paren (codes "Expected ')' after INSERT values")
    pure (record (statement_of insert table) { columns = columns; values = values })

  -- `column = value`
  unfoldable pub condition : Parse (Predicate F)
  condition = do
    id ← identifier
    require equal (codes "Only a single WHERE column = value condition is supported")
    v ← literal
    pure (record { column = id; literal = v })

  unfoldable pub select_statement : ℕ → Parse (Statement F)
  unfolding condition selected_columns
  select_statement fuel = do
    all ← take star
    columns ← selected_columns fuel all
    require_keyword (codes "FROM")
    table ← identifier
    let s : Statement F = record (statement_of select_rows table) { columns = columns; all = all }
    has_where ← take_keyword (codes "WHERE")
    if has_where then (do p ← condition; pure (record s { predicate = some p })) else pure s

  -- the loop of `updateStatement`
  unfoldable pub assignments : ℕ → Parse (List (Identifier × Literal F))
  assignments zero = λ _. no_fuel
  assignments (suc fuel) =
      let more = assignments fuel in
      do
        id ← identifier
        require equal (codes "Expected '=' after UPDATE column")
        v ← literal
        comma_follows ← take comma
        if comma_follows then (do rest ← more; pure ((id, v) ∷ rest)) else pure ((id, v) ∷ [])

  unfoldable pub update_statement : ℕ → Parse (Statement F)
  unfolding condition
  update_statement fuel = do
    table ← identifier
    require_keyword (codes "SET")
    rest ← assignments fuel
    require_keyword (codes "WHERE")
    p ← condition
    pure (record (statement_of update_rows table) {
      columns = map (λ a. a.0) rest;
      values = map (λ a. a.1) rest;
      predicate = some p;
    })

  -- the `switch` of `parse`
  unfoldable pub any_statement : ℕ → Parse (Statement F)
  any_statement fuel = do
    is_create ← take_keyword (codes "CREATE")
    if is_create then create_statement fuel else do
      is_insert ← take_keyword (codes "INSERT")
      if is_insert then insert_statement fuel else do
        is_select ← take_keyword (codes "SELECT")
        if is_select then select_statement fuel else do
          is_update ← take_keyword (codes "UPDATE")
          if is_update
              then update_statement fuel
              else fail
                  (codes "Expected CREATE, INSERT, SELECT or UPDATE; statement is unsupported")

  unfoldable pub whole_input : ℕ → Parse (Statement F)
  whole_input fuel = do
    s ← any_statement fuel
    require semicolon (codes "Expected ';' at the end of the statement")
    require end (codes "Expected end of input after one statement")
    pure s

  unfoldable pub parse : Bytes → Outcome (Statement F)
  parse source =
      Outcome.◌>>=◌ (lex source)
        λ tokens. Outcome.◌>>=◌ (whole_input (length tokens) tokens) λ (s, _). ok s
