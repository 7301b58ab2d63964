-- ===== src/Dbms/Table/Select/Rows.antt =====
-- server/dbms/database.go: `selectRows` against a description of its result.
use tac_os.Base.{
  ℕ, ◌+◌, ◌<◌, ◌≡◌, refl, arith, Bool, true, Bool-cases, inl, inr, if◌then◌else◌, List, [], ◌∷◌,
  map, length, get_elem?, get_elem?-some, All, Option, none, some,
}
use tac_os.Dbms.Outcome.{ok, Returns, returned, Returns-bind}
use tac_os.Dbms.Parser.Pieces.{PredicateAt}
use tac_os.Dbms.Parser.Safe.{IdentifierAt}
use tac_os.Dbms.Parser.Total.{IsUsable}
use tac_os.Dbms.Statement.{Identifier, Predicate, Statement}
use tac_os.Dbms.Table.{Column, Table}
use tac_os.Dbms.Table.Columns.{
  Names, Filters, column_index-Returns, check_type-Returns, index-eq-ok, get_elem?-lt,
}
use tac_os.Dbms.Table.Consistent.{IsConsistent}
use tac_os.Dbms.Table.Fits.{Fits, Fits-TypedAt}
use tac_os.Dbms.Table.Select.{
  indices_from, selected_loop, projected_columns, selection, project, where_filter, passes,
  select_row, select_loop, select_rows,
}
use tac_os.Dbms.Table.Update.{Filter}
use tac_os.Dbms.Table.Update.Validate.{FilterAt}
use tac_os.Dbms.Table.Update.Writes.{matches}
use tac_os.Dbms.Value.{Float64, Value, Result}

-- `chosen` are the columns at the indices `selected`.
abbrev pub Projects : List Column → List ℕ → List Column → Type 0
Projects columns [] [] = Unit
Projects columns (i ∷ selected) (c ∷ chosen) =
    (get_elem? columns i ≡ some c) × Projects columns selected chosen
Projects columns _ _ = ⊥

indices_from-lt :
    (i m : ℕ) (xs : List Column) → i + length xs ≡ m → All (λ j. j < m) (indices_from i xs)
indices_from-lt i m [] e = tt
indices_from-lt i m (x ∷ xs) e = (omega arith, indices_from-lt (i + 1) m xs (omega arith))

selected_loop-Returns :
    {n : ℕ} (columns : List Column) (cs : List Identifier)
    → All (IdentifierAt n) cs
    → Returns n
        (λ selected. All (λ i. i < length columns) selected × Names columns cs selected)
        (selected_loop columns cs)
unfolding selected_loop
selected_loop-Returns columns [] ids = returned (tt, tt)
selected_loop-Returns columns (c ∷ cs) ids =
    Returns-bind _ (column_index-Returns columns c ids.0) λ i found.
      Returns-bind _ (selected_loop-Returns columns cs ids.1) λ selected (all, named).
        returned ((get_elem?-lt columns i found.there, all), (found, named))

projected_columns-Returns :
    {n : ℕ} (columns : List Column) (selected : List ℕ)
    → All (λ i. i < length columns) selected
    → Returns n (Projects columns selected) (projected_columns columns selected)
unfolding projected_columns
projected_columns-Returns columns [] all = returned tt
projected_columns-Returns columns (i ∷ selected) all =
    let (c, there) = get_elem?-some columns i all.0 in
    rw (index-eq-ok columns i there) (
      Returns-bind _ (projected_columns-Returns columns selected all.1)
        λ chosen more. returned (there, more))

-- The rows that the test keeps, in order.
abbrev pub keep_if {ℓ} : {A : Type ℓ} → (A → Bool) → List A → List A
keep_if p [] = []
keep_if p (x ∷ xs) = if p x then x ∷ keep_if p xs else keep_if p xs

module _ {F : Type 0} where
  -- The values of the row at the selected indices.
  abbrev pub picked : List ℕ → List (Value F) → List (Value F)
  picked [] row = []
  picked (i ∷ selected) row = elim (get_elem? row i) [
    | none ↦ picked selected row
    | some v ↦ v ∷ picked selected row
  ]

  project-eq :
      (columns chosen : List Column) (selected : List ℕ) (row : List (Value F))
      → Fits columns row
      → Projects columns selected chosen
      → (project selected row ≡ ok (picked selected row)) × Fits chosen (picked selected row)
  unfolding project
  project-eq columns [] [] row f p = (refl, tt)
  project-eq columns (c ∷ chosen) [] row f p = absurd p
  project-eq columns [] (i ∷ selected) row f p = absurd p
  project-eq columns (c ∷ chosen) (i ∷ selected) row f p =
      let (v, there, typed) = Fits-TypedAt columns row i f p.0 in
      let (more, fits) = project-eq columns chosen selected row f p.1 in
      (
        rw (index-eq-ok row i there) (rw (there, picked) (rw more refl)),
        rw (there, picked) (typed, fits),
      )

  -- A WHERE clause that is there points to a column of its literal's type.
  abbrev pub WhereAt : List Column → Option (Filter F) → Type 0
  WhereAt columns none = Unit
  WhereAt columns (some filter) = FilterAt columns filter

  where_filter-Returns :
      {n : ℕ} (columns : List Column) (p : Option (Predicate F))
      → PredicateAt n p
      → Returns n
          (λ filter. WhereAt columns filter × Filters columns p filter)
          (where_filter columns p)
  unfolding where_filter
  where_filter-Returns columns none at = returned (tt, tt)
  where_filter-Returns columns (some p) at =
      Returns-bind _ (column_index-Returns columns p.column at.0) λ i found.
        Returns-bind _ (check_type-Returns columns i p.literal found.there at.1) λ _ t.
          returned (record { column = found.column; there = found.there; typed = t }, (found, refl))

  -- `*` selects every column, and a list the columns that it names, in its order.
  abbrev pub Selects : List Column → Statement F → List ℕ → Type 0
  Selects columns s selected =
      if s.all then selected ≡ indices_from 0 columns else Names columns s.columns selected

  pub selection-Returns :
      {n : ℕ} (columns : List Column) (s : Statement F)
      → IsUsable n s
      → Returns n
          (λ selected. All (λ i. i < length columns) selected × Selects columns s selected)
          (selection columns s)
  unfolding selection
  selection-Returns columns s u = elim (Bool-cases s.all) [
    | inl e ↦ rw e (returned (indices_from-lt 0 (length columns) columns (omega arith), refl))
    | inr e ↦ rw e (selected_loop-Returns columns s.columns u.columns_at)
  ]

module _ {F : Type 0} ⦃float : Float64 F⦄ where
  -- The row is in the result.
  abbrev pub chosen_by : Option (Filter F) → List (Value F) → Bool
  chosen_by none row = true
  chosen_by (some filter) row = matches filter row

  passes-eq :
      (columns : List Column) (filter : Option (Filter F)) (row : List (Value F))
      → Fits columns row
      → WhereAt columns filter
      → passes filter row ≡ ok (chosen_by filter row)
  unfolding passes
  passes-eq columns none row f at = refl
  passes-eq columns (some (i, value)) row f at =
      let (v, there, _) = Fits-TypedAt columns row i f at.there in
      rw (index-eq-ok row i there) (rw (there, matches) refl)

  module _ (columns chosen : List Column) (filter : Option (Filter F)) (selected : List ℕ) where
    pub select_loop-eq :
        (rows : List (List (Value F)))
        → All (Fits columns) rows
        → WhereAt columns filter
        → Projects columns selected chosen
        → (select_loop filter selected rows
            ≡ ok (map (picked selected) (keep_if (chosen_by filter) rows)))
          × All (Fits chosen) (map (picked selected) (keep_if (chosen_by filter) rows))
    unfolding select_loop select_row
    select_loop-eq [] fits at p = (refl, tt)
    select_loop-eq (row ∷ rows) fits at p =
        let (one, f) = project-eq columns chosen selected row fits.0 p in
        let (more, fs) = select_loop-eq rows fits.1 at p in
        elim (Bool-cases (chosen_by filter row)) [
          | inl e ↦
              rw (passes-eq columns filter row fits.0 at) (rw e (rw one (rw more (refl, (f, fs)))))
          | inr e ↦ rw (passes-eq columns filter row fits.0 at) (rw e (rw more (refl, fs)))
        ]

  -- What SELECT returns: of each row that the WHERE clause chooses, in order, the values of the
  -- selected columns, under the names and the types of these columns.
  pub record IsSelection (t : Table F) (s : Statement F) (r : Result F) : Type 0 where
    pub selected : List ℕ
    pub filter : Option (Filter F)
    pub chosen : List Column
    pub selected_is : Selects t.columns s selected
    pub filter_is : Filters t.columns s.predicate filter
    pub projects : Projects t.columns selected chosen
    pub columns_are : r.columns ≡ map (λ c. c.name) chosen
    pub types_are : r.types ≡ map (λ c. c.type_id) chosen
    pub rows_are : r.rows ≡ map (picked selected) (keep_if (chosen_by filter) t.rows)
    pub rows_fit : All (Fits chosen) r.rows

  pub select_rows-Returns :
      {n : ℕ} (s : Statement F) (t : Table F)
      → IsConsistent t
      → IsUsable n s
      → Returns n (IsSelection t s) (select_rows s t)
  unfolding select_rows
  select_rows-Returns s t c u =
      Returns-bind _ (selection-Returns t.columns s u) λ selected (below, selected_is).
        Returns-bind _ (projected_columns-Returns t.columns selected below) λ chosen projects.
          Returns-bind _ (where_filter-Returns t.columns s.predicate u.predicate_at)
            λ filter (at, filter_is).
              let (rows, fits) =
                select_loop-eq t.columns chosen filter selected t.rows c.rows at projects in
              rw rows (
                returned (record {
                  selected = selected;
                  filter = filter;
                  chosen = chosen;
                  selected_is = selected_is;
                  filter_is = filter_is;
                  projects = projects;
                  columns_are = refl;
                  types_are = refl;
                  rows_are = refl;
                  rows_fit = fits;
                }))
