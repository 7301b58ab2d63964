-- ===== src/Dbms/Table/Update/Writes.antt =====
-- server/dbms/database.go: the write loops of `updateRows` against a description of the rows.
use tac_os.Base.{
  ℕ, suc, ◌+◌, ◌≡◌, refl, ◌∙◌, ap, arith, not, if◌then◌else◌, Bool, true, false, Bool-cases, inl,
  inr, zero, List, [], ◌∷◌, length, map, get_elem?, set, length-set, All, none, some,
}
use native.Mathlib.Nat.{add-zero}
use tac_os.Dbms.Action
use tac_os.Dbms.Outcome.{ok}
use tac_os.Dbms.Statement.{Literal}
use tac_os.Dbms.Table.{Column, seen_at}
use tac_os.Dbms.Table.Columns.{index-eq-ok, get_elem?-lt, get_elem?-set}
use tac_os.Dbms.Table.Fits.{Fits, Fits-TypedAt, Fits-set}
use tac_os.Dbms.Table.Update.{Filter, write, write_row, update_row, update_each}
use tac_os.Dbms.Table.Update.Validate.{Pairs, IsFresh, FilterAt}
use tac_os.Dbms.Value.{Float64, Value, value_eq}

-- An index that has been seen is not fresh.
not_seen_again :
    (seen indices : List ℕ) (j : ℕ)
    → IsFresh seen indices
    → seen_at seen j ≡ true
    → seen_at indices j ≡ false
unfolding seen_at
not_seen_again seen [] j fresh h = refl
not_seen_again seen (at ∷ indices) j fresh h =
    ground (arith, not_seen_again (at ∷ seen) indices j fresh.1)

module _ {F : Type 0} where
  -- The row with the values of the SET list in their columns.
  abbrev pub assigned : ℕ → List ℕ → List (Literal F) → List (Value F) → List (Value F)
  assigned i [] values row = row
  assigned i (at ∷ indices) values row = elim (get_elem? values i) [
    | none ↦ row
    | some l ↦ assigned (i + 1) indices values (set row at l.value)
  ]

  write-eq :
      (columns : List Column) (at : ℕ) (v : Value F) (row : List (Value F)) {c : Column}
      → Fits columns row
      → get_elem? columns at ≡ some c
      → write at v row ≡ (set row at v, ok tt)
  unfolding write
  write-eq columns at v row f there =
      let (w, e, _) = Fits-TypedAt columns row at f there in rw (e, write)

  write_row-eq :
      (columns : List Column) (i : ℕ) (indices : List ℕ) (values : List (Literal F))
      (row : List (Value F))
      → Fits columns row
      → Pairs columns values i indices
      → (write_row i indices values row ≡ (assigned i indices values row, ok tt))
        × Fits columns (assigned i indices values row)
  unfolding write_row Action.◌>>=◌
  write_row-eq columns i [] values row f p = (refl, f)
  write_row-eq columns i (at ∷ indices) values row f (p, ps) =
      let fitting = Fits-set columns row at p.literal.value f p.column_there p.typed in
      let (later, fits) =
        write_row-eq columns (i + 1) indices values (set row at p.literal.value) fitting ps in
      (
        rw (index-eq-ok values i p.literal_there) (
            rw (write-eq columns at p.literal.value row f p.column_there)
              (rw (p.literal_there, assigned) later)),
        rw (p.literal_there, assigned) fits,
      )

  -- A column that no round of the loop names keeps its value.
  pub assigned_other :
      (columns : List Column) (i : ℕ) (indices : List ℕ) (values : List (Literal F))
      (row : List (Value F)) (j : ℕ)
      → length row ≡ length columns
      → Pairs columns values i indices
      → seen_at indices j ≡ false
      → get_elem? (assigned i indices values row) j ≡ get_elem? row j
  unfolding seen_at
  assigned_other columns i [] values row j long ps new = refl
  assigned_other columns i (at ∷ indices) values row j long (p, ps) new =
      let row' = set row at p.literal.value in
      let later =
        assigned_other columns (i + 1) indices values row' j
          (length-set row at p.literal.value ∙ long) ps (ground arith) in
      rw (p.literal_there, assigned)
        (later
          ∙ get_elem?-set row at j p.literal.value
              (omega (arith, get_elem?-lt columns at p.column_there, long))
          ∙ ground arith)

  -- The column that round `k` names gets the value of that round.
  pub assigned_listed :
      (columns : List Column) (i : ℕ) (indices : List ℕ) (values : List (Literal F))
      (row : List (Value F)) (seen : List ℕ) (k : ℕ) {at : ℕ} {l : Literal F}
      → length row ≡ length columns
      → Pairs columns values i indices
      → IsFresh seen indices
      → get_elem? indices k ≡ some at
      → get_elem? values (i + k) ≡ some l
      → get_elem? (assigned i indices values row) at ≡ some l.value
  assigned_listed columns i [] values row seen k long ps fresh e g = cc
  assigned_listed columns i (at ∷ indices) values row seen zero {at = j} {l} long (p, ps) fresh e
        g =
      let row' = set row at p.literal.value in
      let last = not_seen_again (at ∷ seen) indices j fresh.1 (unfold seen_at in ground arith) in
      rw (p.literal_there, assigned)
        (assigned_other columns (i + 1) indices values row' j
            (length-set row at p.literal.value ∙ long) ps last
          ∙ get_elem?-set row at j p.literal.value
              (omega (arith, get_elem?-lt columns at p.column_there, long))
          ∙ ground (arith, p.literal_there, g, ap (get_elem? values) (add-zero i)))
  assigned_listed columns i (at ∷ indices) values row seen (suc k) {at = j} {l} long (p, ps) fresh e
        g =
      rw (p.literal_there, assigned)
        (assigned_listed columns (i + 1) indices values (set row at p.literal.value) (at ∷ seen) k
          (length-set row at p.literal.value ∙ long) ps fresh.1 e
          (ap (get_elem? values) (omega arith) ∙ g))

module _ {F : Type 0} ⦃float : Float64 F⦄ where
  -- `row[filter] == literal.value`
  abbrev pub matches : Filter F → List (Value F) → Bool
  matches (i, value) row = elim (get_elem? row i) [ none ↦ false | some v ↦ value_eq v value ]

  -- What UPDATE makes of a row.
  abbrev pub updated : Filter F → List ℕ → List (Literal F) → List (Value F) → List (Value F)
  updated filter indices values row =
      if matches filter row then assigned 0 indices values row else row

  update_row-at :
      (i : ℕ) (value v : Value F) (indices : List ℕ) (values : List (Literal F))
      (row : List (Value F))
      → get_elem? row i ≡ some v
      → update_row (i, value) indices values row
        ≡ (if not (value_eq v value) then Action.pure tt else write_row 0 indices values) row
  unfolding update_row Action.◌>>=◌
  update_row-at i value v indices values row there = rw (index-eq-ok row i there) refl

  matches-at :
      (i : ℕ) (value v : Value F) (row : List (Value F))
      → get_elem? row i ≡ some v
      → matches (i, value) row ≡ value_eq v value
  matches-at i value v row there = rw (there, matches) refl

  update_row-eq :
      (columns : List Column) (filter : Filter F) (indices : List ℕ) (values : List (Literal F))
      (row : List (Value F))
      → Fits columns row
      → Pairs columns values 0 indices
      → FilterAt columns filter
      → (update_row filter indices values row ≡ (updated filter indices values row, ok tt))
        × Fits columns (updated filter indices values row)
  unfolding Action.pure
  update_row-eq columns (i, value) indices values row f p at =
      let (v, there, _) = Fits-TypedAt columns row i f at.there in
      elim (Bool-cases (value_eq v value)) [
        | inl e ↦
            rw (update_row-at i value v indices values row there, matches-at i value v row there)
              (rw e (write_row-eq columns 0 indices values row f p))
        | inr e ↦
            rw (update_row-at i value v indices values row there, matches-at i value v row there)
              (rw e (refl, f))
      ]

  pub update_each-eq :
      (columns : List Column) (filter : Filter F) (indices : List ℕ) (values : List (Literal F))
      (rows : List (List (Value F)))
      → All (Fits columns) rows
      → Pairs columns values 0 indices
      → FilterAt columns filter
      → (update_each filter indices values rows ≡ (map (updated filter indices values) rows, ok tt))
        × All (Fits columns) (map (updated filter indices values) rows)
  unfolding update_each
  update_each-eq columns filter indices values [] fits p at = (refl, tt)
  update_each-eq columns filter indices values (row ∷ rows) fits p at =
      let (one, f) = update_row-eq columns filter indices values row fits.0 p at in
      let (more, fs) = update_each-eq columns filter indices values rows fits.1 p at in
      (rw one (rw more refl), (f, fs))
