-- ===== src/Dbms/Table/Insert/Effect.antt =====
-- server/dbms/database.go: where INSERT puts its values, and what it does to the table.
use tac_os.Base.{
  ℕ, zero, suc, ◌+◌, ◌≡◌, refl, ap, sym, ◌∙◌, arith, true, false, ◌<◌, if◌then◌else◌, Bool-cases,
  ==→≡, ◌==◌, not, inl, inr, List, [], ◌∷◌, length, get_elem?, get_elem?-some, set, length-set,
  replicate, length-replicate, All, All-get_elem?, some, some_inj,
}
use native.Mathlib.Nat.{add-zero}
use tac_os.Dbms.Outcome.{
  ok, Returns, returned, failed, Returns-bind, Returns-ok, Returns-if, Returns-map, Returns-eq,
  ok-injective,
}
use tac_os.Dbms.Parser.Pieces.{LiteralAt}
use tac_os.Dbms.Parser.Safe.{IdentifierAt}
use tac_os.Dbms.Parser.Total.{IsUsable}
use tac_os.Dbms.Statement.{Identifier, Literal, Statement}
use tac_os.Dbms.Table.{Column, column_index, seen_at}
use tac_os.Dbms.Table.Columns.{
  column_index-Returns, check_type-Returns, get_elem?-lt, get_elem?-set, index-eq-ok,
}
use tac_os.Dbms.Table.Insert.{insert_loop, new_row}
use tac_os.Dbms.Table.Insert.Complete.{assign-eq-ok}
use tac_os.Dbms.Value.{Float64, Value, zero_value}

module _ {F : Type 0} where
  -- From round `i` on the loop puts the value of each round in the column of that round, and leaves
  -- the columns that were seen before alone.
  record Places (columns : List Column) (i : ℕ) (cs : List Identifier) (values : List (Literal F))
      (seen : List ℕ) (row : List (Value F)) (r : List ℕ × List (Value F)) : Type 0 where
    kept : (j : ℕ) → seen_at seen j ≡ true → get_elem? r.1 j ≡ get_elem? row j
    placed :
        (k at : ℕ) (c : Identifier) (l : Literal F)
        → get_elem? cs k ≡ some c
        → get_elem? values (i + k) ≡ some l
        → column_index columns c ≡ ok at
        → get_elem? r.1 at ≡ some l.value

  module _ (columns : List Column) (i : ℕ) (c : Identifier) (cs : List Identifier)
      (values : List (Literal F)) (seen : List ℕ) (row : List (Value F))
      (r : List ℕ × List (Value F)) (at : ℕ) (value : Literal F) (inside : at < length row)
      (new : seen_at seen at ≡ false) (found : column_index columns c ≡ ok at)
      (there : get_elem? values i ≡ some value)
      (later : Places columns (i + 1) cs values (at ∷ seen) (set row at value.value) r) where
    placed-step :
        (k to : ℕ) (d : Identifier) (l : Literal F)
        → get_elem? (c ∷ cs) k ≡ some d
        → get_elem? values (i + k) ≡ some l
        → column_index columns d ≡ ok to
        → get_elem? r.1 to ≡ some l.value
    unfolding seen_at
    placed-step zero to d l e g f =
        let same : at ≡ to =
          ok-injective (sym found ∙ ap (column_index columns) (some_inj e) ∙ f) in
        let now = later.kept at (ground arith) ∙ get_elem?-set row at at value.value inside in
        ap (get_elem? r.1) (sym same)
        ∙ now
        ∙ ground (arith, there, g, ap (get_elem? values) (add-zero i))
    placed-step (suc k) to d l e g f =
        later.placed k to d l e (ap (get_elem? values) (omega arith) ∙ g) f

    Places-step : Places columns i (c ∷ cs) values seen row r
    unfolding seen_at
    Places-step = record {
      kept = λ j h.
          later.kept j (ground arith) ∙ get_elem?-set row at j value.value inside ∙ other j h;
      placed = placed-step;
    }
      where
        other :
            (j : ℕ)
            → seen_at seen j ≡ true
            → (if at == j then some value.value else get_elem? row j) ≡ get_elem? row j
        other j h = elim (Bool-cases (at == j)) [
          | inl e ↦ cc (new, h, ap (seen_at seen) (==→≡ at j e))
          | inr e ↦ rw e
        ]

  insert_loop-Places :
      {n : ℕ} (columns : List Column) (i : ℕ) (cs : List Identifier) (values : List (Literal F))
      (seen : List ℕ) (row : List (Value F))
      → All (IdentifierAt n) cs
      → All (LiteralAt n) values
      → i + length cs ≡ length values
      → length row ≡ length columns
      → Returns n (Places columns i cs values seen row) (insert_loop columns i cs values seen row)
  unfolding insert_loop
  insert_loop-Places columns i [] values seen row ids lits long full =
      returned (record { kept = λ j h. refl; placed = λ k at c l e. cc })
  insert_loop-Places {n} columns i (c ∷ cs) values seen row ids lits long full =
      Returns-bind _ (Returns-eq (column_index-Returns columns c ids.0)) λ at (found, is).
        Returns-if (seen_at seen at) (λ _. failed ids.0)
          λ new.
            let (value, there) = get_elem?-some values i (omega arith) in
            let inside : at < length row =
              omega (arith, get_elem?-lt columns at found.there, full) in
            rw (index-eq-ok values i there) (
              Returns-bind _
                (check_type-Returns columns at value found.there
                  (All-get_elem? (LiteralAt n) values i lits there))
                λ _ t. rw (assign-eq-ok row at value.value inside) (
                  Returns-map
                    (λ r later. Places-step _ _ _ _ _ _ _ _ at value inside new is there later)
                    (insert_loop-Places columns (i + 1) cs values (at ∷ seen)
                      (set row at value.value) ids.1 lits (omega arith)
                      (length-set row at value.value ∙ full))))

module _ {F : Type 0} ⦃float : Float64 F⦄ where
  new_row-Places :
      {n : ℕ} (columns : List Column) (s : Statement F)
      → IsUsable n s
      → Returns n
          (λ row.
            (k at : ℕ) (c : Identifier) (l : Literal F)
            → get_elem? s.columns k ≡ some c
            → get_elem? s.values k ≡ some l
            → column_index columns c ≡ ok at
            → get_elem? row at ≡ some l.value)
          (new_row columns s)
  unfolding new_row
  new_row-Places {n} columns s u =
      Returns-if (not (length s.columns == length s.values)) (λ _. failed u.table_at)
        λ same.
          Returns-bind _
            (insert_loop-Places columns 0 s.columns s.values []
              (replicate (length columns) zero_value) u.columns_at u.values_at (ground arith)
              (length-replicate (length columns) (zero_value {F = F})))
            λ (seen, row) p.
              Returns-if (not (length seen == length columns)) (λ _. failed u.table_at)
                λ full. returned (λ k at c l e g f.
                  p.placed k at c l e (ap (get_elem? s.values) (omega arith) ∙ g) f)

  -- In the row that an INSERT of a usable statement builds, the k-th value of the statement stands
  -- in the column of its k-th name.
  pub new_row_places :
      {n : ℕ} (columns : List Column) (s : Statement F) (row : List (Value F)) (k at : ℕ)
      (c : Identifier) (l : Literal F)
      → IsUsable n s
      → new_row columns s ≡ ok row
      → get_elem? s.columns k ≡ some c
      → get_elem? s.values k ≡ some l
      → column_index columns c ≡ ok at
      → get_elem? row at ≡ some l.value
  new_row_places columns s row k at c l u e = Returns-ok (new_row-Places columns s u) e k at c l
