-- ===== src/Dbms/Table.antt =====
-- server/dbms/database.go: a table, its columns and their types. A row is a value here: no two
-- tables share one, `insert` allocates one and `selectRows` copies the values that it projects.
pub mod Columns
pub mod Fits
pub mod Seen
pub mod Consistent
pub mod Methods
pub mod Insert
pub mod Select
pub mod Update
pub mod Complete
use tac_os.Base.{
  ℕ, zero, suc, ◌+◌, ◌==◌, if◌then◌else◌, Bool, true, false, not, ◌||◌, Bytes, codes, bytes_eq,
  List, [], ◌∷◌, ◌++◌, map, length, get_elem?, set, replicate, Option, none, some,
}
use tac_os.Dbms.Outcome.{Outcome, ok, panic, query_error, ◌>>=◌, ◌>>◌}
use tac_os.Dbms.Statement.{Identifier, Literal, Predicate, Statement}
use tac_os.Dbms.Value.{Float64, SqlType, type_eq, Value, value_eq, zero_value, Result}

pub record Column : Type 0 where
  pub name : Bytes
  pub type_id : SqlType

pub record Table (F : Type 0) : Type 0 where
  pub columns : List Column
  pub rows : List (List (Value F))

-- the loop of `columnIndex`, from column `i` on
unfoldable pub column_from : ℕ → List Column → Identifier → Outcome ℕ
column_from i [] id = query_error id.position (codes "Unknown column: " ++ id.name)
column_from i (c ∷ cs) id =
    let later = column_from (i + 1) cs id in if bytes_eq c.name id.name then ok i else later

unfoldable pub column_index : List Column → Identifier → Outcome ℕ
unfolding column_from
column_index columns id = column_from 0 columns id

-- `xs[i]`
unfoldable pub index {ℓ} : {A : Type ℓ} → List A → ℕ → Outcome A
index xs i = elim (get_elem? xs i) [ none ↦ panic | some x ↦ ok x ]

-- `xs[i] = v`
unfoldable pub assign {ℓ} : {A : Type ℓ} → List A → ℕ → A → Outcome (List A)
assign xs i v = elim (get_elem? xs i) [ none ↦ panic | some _ ↦ ok (set xs i v) ]

-- `seen[i]`, of a set of indices
unfoldable pub seen_at : List ℕ → ℕ → Bool
seen_at [] i = false
seen_at (j ∷ seen) i = j == i || seen_at seen i

module _ {F : Type 0} where
  unfoldable pub check_type : List Column → ℕ → Literal F → Outcome (Unit {0})
  check_type columns i value = do
    c ← index columns i
    if not (type_eq c.type_id value.value.type_id)
        then query_error value.position (codes "Type mismatch for column: " ++ c.name)
        else ok tt
