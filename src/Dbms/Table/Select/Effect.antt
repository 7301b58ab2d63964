-- ===== src/Dbms/Table/Select/Effect.antt =====
-- server/dbms/database.go: `selectRows` as a whole.
use tac_os.Base.{
  ℕ, ◌≤◌, ◌<◌, ◌≡◌, refl, sym, ap, ◌∙◌, ◌⊎◌, inl, inr, Bool-cases, List, [], ◌∷◌, map, length,
  get_elem?-some, All, Option, none, some,
}
use tac_os.Dbms.Outcome.{
  QueryError, Outcome, ok, err, panic, no_fuel, Returns, Returns-ok, returned, failed,
}
use tac_os.Dbms.Parser.Total.{IsUsable}
use tac_os.Dbms.Statement.{Identifier, Predicate, Statement}
use tac_os.Dbms.Table.{Column, Table}
use tac_os.Dbms.Table.Columns.{Names, Filters, index-eq-ok}
use tac_os.Dbms.Table.Complete.{column_index-ok, check_type-ok}
use tac_os.Dbms.Table.Consistent.{IsConsistent, HasDistinctNames}
use tac_os.Dbms.Table.Select.{
  selected_loop, projected_columns, selection, where_filter, select_rows,
}
use tac_os.Dbms.Table.Select.Rows.{
  picked, keep_if, chosen_by, Projects, selection-Returns, select_loop-eq, Selects, WhereAt,
  IsSelection, select_rows-Returns,
}
use tac_os.Dbms.Table.Update.{Filter}
use tac_os.Dbms.Value.{Float64, Result}

selected_loop-ok :
    (columns : List Column) (cs : List Identifier) (selected : List ℕ)
    → HasDistinctNames columns
    → Names columns cs selected
    → selected_loop columns cs ≡ ok selected
unfolding selected_loop
selected_loop-ok columns [] [] d n = refl
selected_loop-ok columns [] (i ∷ selected) d n = absurd n
selected_loop-ok columns (c ∷ cs) [] d n = absurd n
selected_loop-ok columns (c ∷ cs) (i ∷ selected) d (found, n) =
    rw (column_index-ok columns c i d found, selected_loop-ok columns cs selected d n) refl

projected_columns-ok :
    (columns : List Column) (selected : List ℕ)
    → All (λ i. i < length columns) selected
    → (chosen : List Column) × Projects columns selected chosen
      × (projected_columns columns selected ≡ ok chosen)
unfolding projected_columns
projected_columns-ok columns [] all = ([], tt, refl)
projected_columns-ok columns (i ∷ selected) all =
    let (c, there) = get_elem?-some columns i all.0 in
    let (chosen, more, e) = projected_columns-ok columns selected all.1 in
    (c ∷ chosen, (there, more), rw (index-eq-ok columns i there, e) refl)

module _ {F : Type 0} where
  -- The statement has a meaning for the columns: they have the names of its list and of its WHERE
  -- clause, with a column of the clause's type.
  pub record IsSelectable (columns : List Column) (s : Statement F) : Type 0 where
    pub selected : List ℕ
    pub filter : Option (Filter F)
    pub selects : Selects columns s selected
    pub filters : Filters columns s.predicate filter
    pub typed : WhereAt columns filter

  selection-ok :
      (columns : List Column) (s : Statement F) (selected : List ℕ)
      → HasDistinctNames columns
      → Selects columns s selected
      → selection columns s ≡ ok selected
  unfolding selection
  selection-ok columns s selected d = elim (Bool-cases s.all) [
    | inl e ↦ rw e (λ h. ap ok (sym h))
    | inr e ↦ rw e (selected_loop-ok columns s.columns selected d)
  ]

  where_filter-ok :
      (columns : List Column) (p : Option (Predicate F)) (filter : Option (Filter F))
      → HasDistinctNames columns
      → Filters columns p filter
      → WhereAt columns filter
      → where_filter columns p ≡ ok filter
  unfolding where_filter
  where_filter-ok columns none none d n at = refl
  where_filter-ok columns none (some f) d n at = absurd n
  where_filter-ok columns (some p) none d n at = absurd n
  where_filter-ok columns (some p) (some (i, value)) d (found, same) at =
      rw
        (
          column_index-ok columns p.column i d found,
          check_type-ok columns i p.literal at.column at.there
              (ap (λ v. v.type_id) (sym same) ∙ at.typed),
          same,
        )
        refl

not_both : {A : Type 0} {e : QueryError} {a : A} {m : Outcome A} → m ≡ err e → m ≡ ok a → ⊥
not_both h k = cc

module _ {F : Type 0} ⦃float : Float64 F⦄ where
  selectable-ok :
      {n : ℕ} (s : Statement F) (t : Table F)
      → IsConsistent t
      → IsUsable n s
      → IsSelectable t.columns s
      → (r : Result F) × (select_rows s t ≡ ok r)
  unfolding select_rows
  selectable-ok s t c u x =
      let chosen_ok = selection-ok t.columns s x.selected c.names x.selects in
      let below = (Returns-ok (selection-Returns t.columns s u) chosen_ok).0 in
      let (chosen, projects, projected) = projected_columns-ok t.columns x.selected below in
      let filter_ok = where_filter-ok t.columns s.predicate x.filter c.names x.filters x.typed in
      let (rows, fits) =
        select_loop-eq t.columns chosen x.filter x.selected t.rows c.rows x.typed projects in
      let r : Result F = record {
        columns = map (λ c. c.name) chosen;
        types = map (λ c. c.type_id) chosen;
        rows = map (picked x.selected) (keep_if (chosen_by x.filter) t.rows);
      } in
      (r, rw (chosen_ok, projected, filter_ok, rows) refl)

  -- A usable SELECT of a consistent table is refused at an offset of the statement, if it has no meaning
  -- for the columns of the table; or it has one and returns exactly the selection: of the rows in which
  -- the column that WHERE names has the value of the clause, or of all without one, in order, the
  -- values of the columns that the list names, or of all for `*`, under their names and types.
  pub select_rows_lem :
      {n : ℕ} (s : Statement F) (t : Table F)
      → IsConsistent t
      → IsUsable n s
      → ((e : QueryError) × (e.position ≤ n)
          × (¬ IsSelectable t.columns s)
          × (select_rows s t ≡ err e))
        ⊎ ((r : Result F) × IsSelection t s r × (select_rows s t ≡ ok r))
  select_rows_lem {n} s t c u = go (select_rows s t) refl (select_rows-Returns s t c u)
    where
      go :
          (r : Outcome (Result F))
          → select_rows s t ≡ r
          → Returns n (IsSelection t s) r
          → ((e : QueryError) × (e.position ≤ n)
              × (¬ IsSelectable t.columns s)
              × (select_rows s t ≡ err e))
            ⊎ ((r : Result F) × IsSelection t s r × (select_rows s t ≡ ok r))
      go panic same h = elim h [ ]
      go no_fuel same h = elim h [ ]
      go (err e) same (failed near) =
          inl (e, near, (λ x. not_both same (selectable-ok s t c u x).1), same)
      go (ok r) same (returned h) = inr (r, h, same)
