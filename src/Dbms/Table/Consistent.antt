-- ===== src/Dbms/Table/Consistent.antt =====
-- server/dbms/database.go: the invariant of a table.
use tac_os.Base.{◌≢◌, List, [], ◌∷◌, All}
use tac_os.Dbms.Table.{Column, Table}
use tac_os.Dbms.Table.Fits.{Fits}

abbrev pub HasDistinctNames : List Column → Type 0
HasDistinctNames [] = Unit
HasDistinctNames (c ∷ cs) = All (λ (d : Column). d.name ≢ c.name) cs × HasDistinctNames cs

-- Column names are unique, and every row has a value of the right type in every column.
pub record IsConsistent {F : Type 0} (t : Table F) : Type 0 where
  pub names : HasDistinctNames t.columns
  pub rows : All (Fits t.columns) t.rows
