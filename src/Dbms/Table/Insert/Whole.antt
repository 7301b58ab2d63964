-- ===== src/Dbms/Table/Insert/Whole.antt =====
-- server/dbms/database.go: `insert` as a whole.
use tac_os.Base.{ℕ, ◌≡◌, refl, ◌⊎◌, inl, inr, List, [], ◌∷◌, ◌++◌}
use tac_os.Dbms.Action
use tac_os.Dbms.Outcome.{QueryError, Outcome, ok, err, panic, no_fuel, Returns, returned, failed}
use tac_os.Dbms.Parser.Total.{IsUsable}
use tac_os.Dbms.Statement.{Statement}
use tac_os.Dbms.Table.{Table}
use tac_os.Dbms.Table.Fits.{Fits}
use tac_os.Dbms.Table.Insert.{new_row, insert}
use tac_os.Dbms.Table.Insert.Complete.{new_row-Returns}
use tac_os.Dbms.Value.{Float64, Value, empty_result}

module _ {F : Type 0} ⦃float : Float64 F⦄ where
  -- An INSERT of a usable statement either fails and leaves the table as it was, or appends one row,
  -- that has a value of the column's type in every column.
  pub insert_lem :
      {n : ℕ} (s : Statement F) (t : Table F)
      → IsUsable n s
      → ((e : QueryError) × (new_row t.columns s ≡ err e) × (insert s t ≡ (t, err e)))
        ⊎ ((row : List (Value F)) × Fits t.columns row
            × (new_row t.columns s ≡ ok row)
            × (insert s t ≡ (record t { rows = t.rows ++ row ∷ [] }, ok empty_result)))
  unfolding insert Action.modify Action.pure Action.◌>>=◌
  insert_lem {n} s t u = go (new_row t.columns s) refl (new_row-Returns t.columns s u)
    where
      go :
          (r : Outcome (List (Value F)))
          → new_row t.columns s ≡ r
          → Returns n (Fits t.columns) r
          → ((e : QueryError) × (new_row t.columns s ≡ err e) × (insert s t ≡ (t, err e)))
            ⊎ ((row : List (Value F)) × Fits t.columns row
                × (new_row t.columns s ≡ ok row)
                × (insert s t ≡ (record t { rows = t.rows ++ row ∷ [] }, ok empty_result)))
      go panic same r = elim r [ ]
      go no_fuel same r = elim r [ ]
      go (err e) same (failed _) = inl (e, same, rw same refl)
      go (ok row) same (returned f) = inr (row, f, same, rw same refl)
