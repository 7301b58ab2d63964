-- ===== src/Dbms/Table/Update/Validate.antt =====
-- server/dbms/database.go: what `updateRows` has established before it writes.
use tac_os.Base.{
  ℕ, ◌+◌, ◌≡◌, ◌≢◌, refl, arith, false, List, [], ◌∷◌, length, get_elem?, get_elem?-some, All,
  All-get_elem?, Option, none, some,
}
use tac_os.Dbms.Outcome.{Returns, returned, failed, Returns-bind, Returns-if}
use tac_os.Dbms.Parser.Pieces.{LiteralAt, PredicateAt}
use tac_os.Dbms.Parser.Safe.{IdentifierAt}
use tac_os.Dbms.Parser.Total.{IsUsable}
use tac_os.Dbms.Statement.{Identifier, Literal, Predicate, Statement, update_rows}
use tac_os.Dbms.Table.{Column, seen_at}
use tac_os.Dbms.Table.Columns.{
  Names, Filters, column_index-Returns, check_type-Returns, index-eq-ok,
}
use tac_os.Dbms.Table.Update.{Filter, update_loop, filter_of, validate}

-- None of the indices has been seen, and none stands twice.
abbrev pub IsFresh : List ℕ → List ℕ → Type 0
IsFresh seen [] = Unit
IsFresh seen (at ∷ indices) = (seen_at seen at ≡ false) × IsFresh (at ∷ seen) indices

module _ {F : Type 0} where
  -- The value of round `i` has the type of the column at `at`.
  pub record PairAt (columns : List Column) (values : List (Literal F)) (at i : ℕ) : Type 0 where
    pub column : Column
    pub literal : Literal F
    pub column_there : get_elem? columns at ≡ some column
    pub literal_there : get_elem? values i ≡ some literal
    pub typed : literal.value.type_id ≡ column.type_id

  abbrev pub Pairs : List Column → List (Literal F) → ℕ → List ℕ → Type 0
  Pairs columns values i [] = Unit
  Pairs columns values i (at ∷ indices) =
      PairAt columns values at i × Pairs columns values (i + 1) indices

  -- The WHERE clause points to a column.
  pub record FilterAt (columns : List Column) (filter : Filter F) : Type 0 where
    pub column : Column
    pub there : get_elem? columns filter.0 ≡ some column
    pub typed : filter.1.type_id ≡ column.type_id

  update_loop-Returns :
      {n : ℕ} (columns : List Column) (i : ℕ) (cs : List Identifier) (values : List (Literal F))
      (seen : List ℕ)
      → All (IdentifierAt n) cs
      → All (LiteralAt n) values
      → i + length cs ≡ length values
      → Returns n
          (λ indices.
            Pairs columns values i indices × (IsFresh seen indices × Names columns cs indices))
          (update_loop columns i cs values seen)
  unfolding update_loop
  update_loop-Returns columns i [] values seen ids lits long = returned (tt, (tt, tt))
  update_loop-Returns {n} columns i (c ∷ cs) values seen ids lits long =
      Returns-bind _ (column_index-Returns columns c ids.0) λ at found.
        Returns-if (seen_at seen at) (λ _. failed ids.0)
          λ new.
            let (value, there) = get_elem?-some values i (omega arith) in
            rw (index-eq-ok values i there) (
              Returns-bind _
                (check_type-Returns columns at value found.there
                  (All-get_elem? (LiteralAt n) values i lits there))
                λ _ t.
                  Returns-bind _
                    (update_loop-Returns columns (i + 1) cs values (at ∷ seen) ids.1 lits
                      (omega arith))
                    λ indices later. returned (
                      (
                        record {
                          column = found.column;
                          literal = value;
                          column_there = found.there;
                          literal_there = there;
                          typed = t;
                        },
                        later.0,
                      ),
                      ((new, later.1.0), (found, later.1.1)),
                    ))

  filter_of-Returns :
      {n : ℕ} (columns : List Column) (p : Option (Predicate F))
      → PredicateAt n p
      → p ≢ none
      → Returns n
          (λ filter. FilterAt columns filter × Filters columns p (some filter))
          (filter_of columns p)
  unfolding filter_of
  filter_of-Returns columns none at given = absurd (given refl)
  filter_of-Returns columns (some p) at given =
      Returns-bind _ (column_index-Returns columns p.column at.0) λ i found.
        Returns-bind _ (check_type-Returns columns i p.literal found.there at.1) λ _ t.
          returned (record { column = found.column; there = found.there; typed = t }, (found, refl))

  -- An UPDATE that passes validation: it writes to the columns that its SET list names, one for each
  -- name and all distinct, with values of their types, where the column that its WHERE clause names
  -- has the value of the clause.
  pub record IsValidated (columns : List Column) (s : Statement F) (plan : List ℕ × Filter F)
      : Type 0 where
    pub pairs : Pairs columns s.values 0 plan.0
    pub fresh : IsFresh [] plan.0
    pub filter : FilterAt columns plan.1
    pub named : Names columns s.columns plan.0
    pub filtered : Filters columns s.predicate (some plan.1)

  pub validate-Returns :
      {n : ℕ} (columns : List Column) (s : Statement F)
      → IsUsable n s
      → s.operation ≡ update_rows
      → Returns n (IsValidated columns s) (validate columns s)
  unfolding validate
  validate-Returns columns s u op =
      let (same, given) = u.update_shape op in
      Returns-bind _
        (update_loop-Returns columns 0 s.columns s.values [] u.columns_at u.values_at (omega arith))
        λ indices planned.
          Returns-bind _ (filter_of-Returns columns s.predicate u.predicate_at given)
            λ filter there. returned (record {
              pairs = planned.0;
              fresh = planned.1.0;
              filter = there.0;
              named = planned.1.1;
              filtered = there.1;
            })
