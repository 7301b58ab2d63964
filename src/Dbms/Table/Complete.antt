-- ===== src/Dbms/Table/Complete.antt =====
-- server/dbms/database.go: the lookups and checks of a statement find what is there, so that the
-- statement is refused only where it has no meaning for the table.
use tac_os.Base.{
  ℕ, zero, suc, ◌+◌, ◌≡◌, ◌≢◌, refl, sym, ap, ◌∙◌, arith, Bytes, true, false, bytes_eq,
  bytes_eq_iff, Bool-cases, inl, inr, List, [], ◌∷◌, get_elem?, All-get_elem?, Option, none, some,
  some_inj,
}
use tac_os.Dbms.Outcome.{ok}
use tac_os.Dbms.Statement.{Identifier, Literal, Predicate, Statement}
use tac_os.Dbms.Table.{Column, column_from, column_index, check_type}
use tac_os.Dbms.Table.Columns.{IsColumn, Names, Filters, index-eq-ok}
use tac_os.Dbms.Table.Consistent.{HasDistinctNames}
use tac_os.Dbms.Table.Update.{Filter, update_loop, filter_of, validate}
use tac_os.Dbms.Table.Update.Validate.{Pairs, IsFresh, FilterAt, IsValidated}
use tac_os.Dbms.Value.{SqlType, integer, real, text, type_eq}

other_name : (a b : Bytes) → a ≢ b → bytes_eq a b ≡ false
other_name a b n = elim (Bool-cases (bytes_eq a b)) [
  | inl e ↦ absurd (n ((bytes_eq_iff a b).0 e))
  | inr e ↦ e
]

column_from-ok :
    (i : ℕ) (columns : List Column) (id : Identifier) (k : ℕ)
    → HasDistinctNames columns
    → IsColumn columns id k
    → column_from i columns id ≡ ok (i + k)
unfolding column_from
column_from-ok i [] id k d found = absurd (nothing found.there)
  where
    nothing : {c : Column} → get_elem? [] k ≡ some c → ⊥
    nothing e = cc
column_from-ok i (c ∷ cs) id zero d found =
    let same : bytes_eq c.name id.name ≡ true =
      (bytes_eq_iff c.name id.name).1 (ap (λ x. x.name) (some_inj found.there) ∙ found.named) in
    rw same (ap ok (omega arith))
column_from-ok i (c ∷ cs) id (suc k) d found =
    let new = All-get_elem? (λ (x : Column). x.name ≢ c.name) cs k d.0 found.there in
    let other = other_name c.name id.name (λ e. new (found.named ∙ sym e)) in
    rw other (
      column_from-ok (i + 1) cs id k d.1
        (record { column = found.column; there = found.there; named = found.named })
      ∙ ap ok (omega arith))

pub column_index-ok :
    (columns : List Column) (id : Identifier) (k : ℕ)
    → HasDistinctNames columns
    → IsColumn columns id k
    → column_index columns id ≡ ok k
unfolding column_index
column_index-ok columns id k d found = column_from-ok 0 columns id k d found ∙ ap ok (omega arith)

type_eq_refl : (a : SqlType) → type_eq a a ≡ true
type_eq_refl integer = refl
type_eq_refl real = refl
type_eq_refl text = refl

module _ {F : Type 0} where
  pub check_type-ok :
      (columns : List Column) (i : ℕ) (l : Literal F) (c : Column)
      → get_elem? columns i ≡ some c
      → l.value.type_id ≡ c.type_id
      → check_type columns i l ≡ ok tt
  unfolding check_type
  check_type-ok columns i l c there typed =
      rw (index-eq-ok columns i there, typed, type_eq_refl c.type_id) refl

  update_loop-ok :
      (columns : List Column) (i : ℕ) (cs : List Identifier) (values : List (Literal F))
      (seen indices : List ℕ)
      → HasDistinctNames columns
      → Names columns cs indices
      → Pairs columns values i indices
      → IsFresh seen indices
      → update_loop columns i cs values seen ≡ ok indices
  unfolding update_loop
  update_loop-ok columns i [] values seen [] d n p f = refl
  update_loop-ok columns i [] values seen (at ∷ indices) d n p f = absurd n
  update_loop-ok columns i (c ∷ cs) values seen [] d n p f = absurd n
  update_loop-ok columns i (c ∷ cs) values seen (at ∷ indices) d (found, n) (p, ps) (new, f) =
      rw
        (
          column_index-ok columns c at d found,
          new,
          index-eq-ok values i p.literal_there,
          check_type-ok columns at p.literal p.column p.column_there p.typed,
          update_loop-ok columns (i + 1) cs values (at ∷ seen) indices d n ps f,
        )
        refl

  filter_of-ok :
      (columns : List Column) (p : Option (Predicate F)) (filter : Filter F)
      → HasDistinctNames columns
      → FilterAt columns filter
      → Filters columns p (some filter)
      → filter_of columns p ≡ ok filter
  unfolding filter_of
  filter_of-ok columns none filter d at n = absurd n
  filter_of-ok columns (some p) (i, value) d at (found, same) =
      rw
        (
          column_index-ok columns p.column i d found,
          check_type-ok columns i p.literal at.column at.there
              (ap (λ v. v.type_id) (sym same) ∙ at.typed),
          same,
        )
        refl

  -- An UPDATE is refused only where its SET list and WHERE clause mean no writes.
  pub validate-ok :
      (columns : List Column) (s : Statement F) (plan : List ℕ × Filter F)
      → HasDistinctNames columns
      → IsValidated columns s plan
      → validate columns s ≡ ok plan
  unfolding validate
  validate-ok columns s (indices, filter) d v =
      rw
        (
          update_loop-ok columns 0 s.columns s.values [] indices d v.named v.pairs v.fresh,
          filter_of-ok columns s.predicate filter d v.filter v.filtered,
        )
        refl
