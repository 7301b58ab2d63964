-- ===== src/Dbms/Statement.antt =====
-- server/dbms/parser.go: the parsed statement.
use tac_os.Base.{ℕ, Bool, false, Bytes, List, [], Option, none}
use tac_os.Dbms.Value.{SqlType, Value}

pub record Identifier : Type 0 where
  pub name : Bytes
  pub position : ℕ

pub record Literal (F : Type 0) : Type 0 where
  pub value : Value F
  pub position : ℕ

pub record ColumnDefinition : Type 0 where
  pub identifier : Identifier
  pub open identifier use *
  pub type_id : SqlType

pub record Predicate (F : Type 0) : Type 0 where
  pub column : Identifier
  pub literal : Literal F

pub data Operation : Type 0 where
  create insert select_rows update_rows : Operation

pub record Statement (F : Type 0) : Type 0 where
  pub operation : Operation
  pub table : Identifier
  pub definitions : List ColumnDefinition
  pub columns : List Identifier
  pub values : List (Literal F)
  pub all : Bool
  pub predicate : Option (Predicate F)

-- `statement{operation: o}` with its table
abbrev pub statement_of : {F : Type 0} → Operation → Identifier → Statement F
statement_of o table = record {
  operation = o;
  table = table;
  definitions = [];
  columns = [];
  values = [];
  all = false;
  predicate = none;
}
