-- ===== src/Dbms/Table/Methods.antt =====
-- server/dbms/database.go: the methods of a table, as `Execute` relies on them.
use tac_os.Base.{ℕ, ◌≡◌, refl, List, [], ◌∷◌, map, All, All-append}
use tac_os.Dbms.Action
use tac_os.Dbms.Action.{Ends, done, Ends-lift, Ends-read}
use tac_os.Dbms.Parser.Total.{IsUsable}
use tac_os.Dbms.Statement.{Operation, Statement}
use tac_os.Dbms.Table.{Column, Table}
use tac_os.Dbms.Table.Consistent.{IsConsistent}
use tac_os.Dbms.Table.Fits.{Fits}
use tac_os.Dbms.Table.Insert.{new_row, insert}
use tac_os.Dbms.Table.Insert.Complete.{new_row-Returns}
use tac_os.Dbms.Table.Select.{select_rows}
use tac_os.Dbms.Table.Select.Rows.{select_rows-Returns}
use tac_os.Dbms.Table.Update.{validate, update_rows}
use tac_os.Dbms.Table.Update.Effect.{write_rows-eq, updated-Fits}
use tac_os.Dbms.Table.Update.Validate.{validate-Returns}
use tac_os.Dbms.Value.{Float64, Result, empty_result}

-- A result is rectangular: its rows have a value of the announced type for each announced column.
pub record IsTabular {F : Type 0} (r : Result F) : Type 0 where
  pub chosen : List Column
  pub columns_are : r.columns ≡ map (λ c. c.name) chosen
  pub types_are : r.types ≡ map (λ c. c.type_id) chosen
  pub rows_fit : All (Fits chosen) r.rows

module _ {F : Type 0} where
  pub empty-IsTabular : IsTabular {F = F} empty_result
  empty-IsTabular = record { chosen = []; columns_are = refl; types_are = refl; rows_fit = tt }

module _ {F : Type 0} ⦃float : Float64 F⦄ {n : ℕ} (s : Statement F) (t : Table F)
    (c : IsConsistent t) (u : IsUsable n s) where
  pub insert-Ends : Ends n IsConsistent IsTabular t (insert s t)
  unfolding insert Action.modify Action.pure
  insert-Ends = Ends-lift (new_row t.columns s) _ t (new_row-Returns t.columns s u) λ row fits.
      unfold Action.◌>>=◌ in
      done
        (record {
          names = c.names;
          rows = All-append (Fits t.columns) t.rows (row ∷ []) c.rows (fits, tt);
        })
        empty-IsTabular

  pub update_rows-Ends :
      s.operation ≡ Operation.update_rows → Ends n IsConsistent IsTabular t (update_rows s t)
  unfolding update_rows
  update_rows-Ends op =
      Ends-lift (validate t.columns s) _ t (validate-Returns t.columns s u op)
        λ (indices, filter) v. rw (write_rows-eq s t indices filter c v) (
          done (record { names = c.names; rows = updated-Fits s t indices filter c v })
            empty-IsTabular)

  pub select_rows-Ends : Ends n IsConsistent IsTabular t (t, select_rows s t)
  select_rows-Ends =
      Ends-read t c
        (λ r h. record {
          chosen = h.chosen;
          columns_are = h.columns_are;
          types_are = h.types_are;
          rows_fit = h.rows_fit;
        })
        (select_rows-Returns s t c u)
