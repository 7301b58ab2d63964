-- ===== src/Dbms/Table/Insert/Complete.antt =====
-- server/dbms/database.go: the row that INSERT builds, against the columns.
use tac_os.Base.{
  ℕ, ◌+◌, ◌<◌, ◌≡◌, ◌∙◌, arith, true, false, not, ◌==◌, Bool-cases, inl, inr, List, [], ◌∷◌, length,
  get_elem?, get_elem?-some, set, length-set, replicate, length-replicate, All, All-get_elem?, some,
}
use tac_os.Dbms.Outcome.{ok, Returns, returned, failed, Returns-bind, Returns-if}
use tac_os.Dbms.Parser.Pieces.{LiteralAt}
use tac_os.Dbms.Parser.Safe.{IdentifierAt}
use tac_os.Dbms.Parser.Total.{IsUsable}
use tac_os.Dbms.Statement.{Identifier, Literal, Statement}
use tac_os.Dbms.Table.{Column, assign, seen_at}
use tac_os.Dbms.Table.Columns.{
  column_index-Returns, check_type-Returns, get_elem?-lt, get_elem?-set, index-eq-ok,
}
use tac_os.Dbms.Table.Fits.{Fits, TypedAt, Fits-TypedAt_all}
use tac_os.Dbms.Table.Insert.{insert_loop, new_row}
use tac_os.Dbms.Table.Seen.{IsDistinct, seen_everywhere, seen_at-nil}
use tac_os.Dbms.Value.{Float64, Value, zero_value}

module _ {F : Type 0} where
  -- What holds of the row under construction, between two rounds of the loop.
  record Building (columns : List Column) (seen : List ℕ) (row : List (Value F)) : Type 0 where
    distinct : IsDistinct seen
    below : All (λ j. j < length columns) seen
    long : length row ≡ length columns
    typed : (j : ℕ) → seen_at seen j ≡ true → TypedAt columns row j

  typed-set :
      {columns : List Column} {seen : List ℕ} {row : List (Value F)} {c : Column} (at : ℕ)
      (v : Value F)
      → Building columns seen row
      → get_elem? columns at ≡ some c
      → v.type_id ≡ c.type_id
      → (j : ℕ) → seen_at (at ∷ seen) j ≡ true
      → TypedAt columns (set row at v) j
  unfolding seen_at
  typed-set {columns} {seen} {row} {c} at v b there t j h =
      let inside : at < length row = omega (arith, get_elem?-lt columns at there, b.long) in
      elim (Bool-cases (at == j)) [
        | inl e ↦ record {
          column = c;
          value = v;
          column_there = ground arith;
          value_there = ground (arith, get_elem?-set row at j v inside);
          typed = t;
        }
        | inr e ↦
            let old : TypedAt columns row j = b.typed j (ground arith) in
            record {
              column = old.column;
              value = old.value;
              column_there = old.column_there;
              value_there = get_elem?-set row at j v inside ∙ rw e old.value_there;
              typed = old.typed;
            }
      ]

  Building-set :
      {columns : List Column} {seen : List ℕ} {row : List (Value F)} {c : Column} (at : ℕ)
      (v : Value F)
      → Building columns seen row
      → seen_at seen at ≡ false
      → get_elem? columns at ≡ some c
      → v.type_id ≡ c.type_id
      → Building columns (at ∷ seen) (set row at v)
  Building-set {columns} {seen} {row} at v b new there t = record {
    distinct = (new, b.distinct);
    below = (get_elem?-lt columns at there, b.below);
    long = length-set row at v ∙ b.long;
    typed = typed-set at v b there t;
  }

  pub assign-eq-ok :
      (row : List (Value F)) (at : ℕ) (v : Value F)
      → at < length row
      → assign row at v ≡ ok (set row at v)
  unfolding assign
  assign-eq-ok row at v h = let (x, e) = get_elem?-some row at h in rw (e, assign)

  insert_loop-Returns :
      {n : ℕ} (columns : List Column) (i : ℕ) (cs : List Identifier) (values : List (Literal F))
      (seen : List ℕ) (row : List (Value F))
      → All (IdentifierAt n) cs
      → All (LiteralAt n) values
      → i + length cs ≡ length values
      → Building columns seen row
      → Returns n (λ r. Building columns r.0 r.1) (insert_loop columns i cs values seen row)
  unfolding insert_loop
  insert_loop-Returns columns i [] values seen row ids lits long b = returned b
  insert_loop-Returns {n} columns i (c ∷ cs) values seen row ids lits long b =
      Returns-bind _ (column_index-Returns columns c ids.0) λ at found.
        Returns-if (seen_at seen at) (λ _. failed ids.0)
          λ new.
            let (value, there) = get_elem?-some values i (omega arith) in
            rw (index-eq-ok values i there) (
              Returns-bind _
                (check_type-Returns columns at value found.there
                  (All-get_elem? (LiteralAt n) values i lits there))
                λ _ t.
                  rw
                    (assign-eq-ok row at value.value
                      (omega (arith, get_elem?-lt columns at found.there, b.long)))
                    (insert_loop-Returns columns (i + 1) cs values (at ∷ seen)
                      (set row at value.value) ids.1 lits (omega arith)
                      (Building-set at value.value b new found.there t)))

module _ {F : Type 0} ⦃float : Float64 F⦄ where
  -- INSERT of a usable statement builds a row that fits the columns, or fails at an offset of it.
  pub new_row-Returns :
      {n : ℕ} (columns : List Column) (s : Statement F)
      → IsUsable n s
      → Returns n (Fits columns) (new_row columns s)
  unfolding new_row
  new_row-Returns {n} columns s u =
      Returns-if (not (length s.columns == length s.values)) (λ _. failed u.table_at)
        λ same.
          Returns-bind _
            (insert_loop-Returns columns 0 s.columns s.values []
              (replicate (length columns) zero_value) u.columns_at u.values_at (ground arith) start)
            λ (seen, row) b.
              Returns-if (not (length seen == length columns)) (λ _. failed u.table_at)
                λ full. returned (
                  Fits-TypedAt_all columns row b.long λ j l.
                    b.typed j
                      (seen_everywhere (length columns) seen b.distinct b.below (ground arith) j l))
    where
      start : Building {F = F} columns [] (replicate (length columns) (zero_value {F = F}))
      start = record {
        distinct = tt;
        below = tt;
        long = length-replicate (length columns) (zero_value {F = F});
        typed = λ j h. cc (h, seen_at-nil j);
      }
