-- ===== src/Dbms/Table/Update/Effect.antt =====
-- server/dbms/database.go: `updateRows` as a whole.
use tac_os.Base.{
  sym, ◌≤◌, ℕ, ◌≡◌, refl, ap, ◌∙◌, arith, ◌⊎◌, inl, inr, List, [], map, get_elem?, some, false, All,
}
use tac_os.Dbms.Action
use tac_os.Dbms.Outcome.{QueryError, Outcome, ok, err, panic, no_fuel, Returns, returned, failed}
use tac_os.Dbms.Parser.Total.{IsUsable}
use tac_os.Dbms.Statement.{Literal, Operation, Statement}
use tac_os.Dbms.Table.{Column, Table, seen_at}
use tac_os.Dbms.Table.Complete.{validate-ok}
use tac_os.Dbms.Table.Consistent.{IsConsistent}
use tac_os.Dbms.Table.Fits.{Fits, Fits-length}
use tac_os.Dbms.Table.Update.{Filter, validate, write_rows, update_rows}
use tac_os.Dbms.Table.Update.Validate.{IsValidated, validate-Returns}
use tac_os.Dbms.Table.Update.Writes.{
  assigned, assigned_listed, assigned_other, updated, update_each-eq,
}
use tac_os.Dbms.Value.{Float64, Value, empty_result}

module _ {F : Type 0} (columns : List Column) (s : Statement F) (indices : List ℕ)
    (filter : Filter F) (row : List (Value F)) (v : IsValidated columns s (indices, filter))
    (f : Fits columns row) where
  -- In a row that fits the columns and is written by a validated UPDATE, the column of the k-th
  -- name of the SET list has its k-th value.
  pub assigned_value :
      (k at : ℕ) (l : Literal F)
      → get_elem? indices k ≡ some at
      → get_elem? s.values k ≡ some l
      → get_elem? (assigned 0 indices s.values row) at ≡ some l.value
  assigned_value k at l e g =
      assigned_listed columns 0 indices s.values row [] k (Fits-length columns row f) v.pairs
        v.fresh e (ap (get_elem? s.values) (omega arith) ∙ g)

  -- In a row that fits the columns and is written by a validated UPDATE, a column that the SET list
  -- does not name is as it was.
  pub assigned_unnamed :
      (j : ℕ)
      → seen_at indices j ≡ false
      → get_elem? (assigned 0 indices s.values row) j ≡ get_elem? row j
  assigned_unnamed j new =
      assigned_other columns 0 indices s.values row j (Fits-length columns row f) v.pairs new

not_ok : {A : Type 0} {e : QueryError} {a : A} → err e ≡ ok a → ⊥
not_ok h = cc

module _ {F : Type 0} ⦃float : Float64 F⦄ where
  pub write_rows-eq :
      (s : Statement F) (t : Table F) (indices : List ℕ) (filter : Filter F)
      → IsConsistent t
      → IsValidated t.columns s (indices, filter)
      → write_rows s (indices, filter) t
        ≡ (record t { rows = map (updated filter indices s.values) t.rows }, ok empty_result)
  unfolding write_rows Action.◌>>=◌
  write_rows-eq s t indices filter c v =
      rw ((update_each-eq t.columns filter indices s.values t.rows c.rows v.pairs v.filter).0) refl

  pub updated-Fits :
      (s : Statement F) (t : Table F) (indices : List ℕ) (filter : Filter F)
      → IsConsistent t
      → IsValidated t.columns s (indices, filter)
      → All (Fits t.columns) (map (updated filter indices s.values) t.rows)
  updated-Fits s t indices filter c v =
      (update_each-eq t.columns filter indices s.values t.rows c.rows v.pairs v.filter).1

  -- An UPDATE of a consistent table is refused at an offset of the statement and writes nothing, if its
  -- SET list and WHERE clause mean no writes to the table; or they do and it succeeds: in each row in
  -- which the column that WHERE names has the value of the clause, the columns that SET names, which
  -- are distinct and have the types of its values, get these in their order, and every other row
  -- stays as it was.
  pub update_rows_lem :
      {n : ℕ} (s : Statement F) (t : Table F)
      → IsConsistent t
      → IsUsable n s
      → s.operation ≡ Operation.update_rows
      → ((e : QueryError) × (e.position ≤ n)
          × ((plan : List ℕ × Filter F) → ¬ IsValidated t.columns s plan)
          × (update_rows s t ≡ (t, err e)))
        ⊎ ((plan : List ℕ × Filter F) × IsValidated t.columns s plan
            × (update_rows s t ≡ (
              record t { rows = map (updated plan.1 plan.0 s.values) t.rows },
              ok empty_result,
            )))
  unfolding update_rows Action.◌>>=◌
  update_rows_lem {n} s t c u op =
      go (validate t.columns s) refl (validate-Returns t.columns s u op)
    where
      go :
          (r : Outcome (List ℕ × Filter F))
          → validate t.columns s ≡ r
          → Returns n (IsValidated t.columns s) r
          → ((e : QueryError) × (e.position ≤ n)
              × ((plan : List ℕ × Filter F) → ¬ IsValidated t.columns s plan)
              × (update_rows s t ≡ (t, err e)))
            ⊎ ((plan : List ℕ × Filter F) × IsValidated t.columns s plan
                × (update_rows s t ≡ (
                  record t { rows = map (updated plan.1 plan.0 s.values) t.rows },
                  ok empty_result,
                )))
      go panic same r = elim r [ ]
      go no_fuel same r = elim r [ ]
      go (err e) same (failed near) = inl (
        e,
        near,
        λ plan v. not_ok (sym same ∙ validate-ok t.columns s plan c.names v),
        rw same refl,
      )
      go (ok (indices, filter)) same (returned v) =
          inr ((indices, filter), v, rw same (write_rows-eq s t indices filter c v))
