-- ===== src/Dbms/Table/Columns.antt =====
-- server/dbms/database.go: what the lookups by column name, by index and by type return.
use tac_os.Base.{
  ℕ, zero, suc, ◌+◌, ◌≤◌, ◌<◌, ◌≡◌, refl, sym, arith, not, bytes_eq, bytes_eq_iff, List, [], ◌∷◌,
  length, get_elem?, get_elem?-some, set, subst, ◌==◌, if◌then◌else◌, Option, none, some, true,
}
use tac_os.Dbms.Outcome.{ok, Returns, returned, failed, Returns-if, Returns-map}
use tac_os.Dbms.Statement.{Identifier, Literal, Predicate}
use tac_os.Dbms.Table.{Column, column_from, column_index, index, check_type}
use tac_os.Dbms.Value.{Value, SqlType, integer, real, text, type_eq}

-- `i` is the index of a column with the name of `id`.
pub record IsColumn (columns : List Column) (id : Identifier) (i : ℕ) : Type 0 where
  pub column : Column
  pub there : get_elem? columns i ≡ some column
  pub named : column.name ≡ id.name

-- The indices are those of columns with these names, one for each, in order.
abbrev pub Names : List Column → List Identifier → List ℕ → Type 0
Names columns [] [] = Unit
Names columns (id ∷ ids) (i ∷ indices) = IsColumn columns id i × Names columns ids indices
Names columns _ _ = ⊥

-- The filter is the column and the value of the WHERE clause, and there is none without one.
abbrev pub Filters :
    {F : Type 0} → List Column → Option (Predicate F) → Option (ℕ × Value F) → Type 0
Filters columns none none = Unit
Filters columns (some p) (some (i, value)) = IsColumn columns p.column i × (value ≡ p.literal.value)
Filters columns _ _ = ⊥

column_from-Returns :
    {n : ℕ} (i : ℕ) (columns : List Column) (id : Identifier)
    → id.position ≤ n
    → Returns n (λ j. (k : ℕ) × (j ≡ i + k) × IsColumn columns id k) (column_from i columns id)
unfolding column_from
column_from-Returns i [] id at = failed at
column_from-Returns i (c ∷ cs) id at =
    Returns-if (bytes_eq c.name id.name)
      (λ e. returned (
        0,
        omega arith,
        record { column = c; there = refl; named = (bytes_eq_iff c.name id.name).0 e },
      ))
      (λ _.
        Returns-map
          (λ j (k, e, found). (
            suc k,
            omega arith,
            record { column = found.column; there = found.there; named = found.named },
          ))
          (column_from-Returns (i + 1) cs id at))

pub column_index-Returns :
    {n : ℕ} (columns : List Column) (id : Identifier)
    → id.position ≤ n
    → Returns n (IsColumn columns id) (column_index columns id)
unfolding column_index
column_index-Returns columns id at =
    Returns-map (λ j (k, e, found). subst (IsColumn columns id) (omega arith) found)
      (column_from-Returns 0 columns id at)

type_eq-eq : (a b : SqlType) → type_eq a b ≡ true → a ≡ b
type_eq-eq integer integer e = refl
type_eq-eq real real e = refl
type_eq-eq text text e = refl
type_eq-eq a b e = cc

module _ {ℓ} {A : Type ℓ} where
  pub get_elem?-lt : (xs : List A) (i : ℕ) {x : A} → get_elem? xs i ≡ some x → i < length xs
  get_elem?-lt [] i e = cc
  get_elem?-lt (y ∷ xs) zero e = omega arith
  get_elem?-lt (y ∷ xs) (suc i) e = omega (arith, get_elem?-lt xs i e)

  pub index-eq-ok : (xs : List A) (i : ℕ) {x : A} → get_elem? xs i ≡ some x → index xs i ≡ ok x
  unfolding index
  index-eq-ok xs i e = rw (e, index)

  pub index-Returns :
      {n : ℕ} (xs : List A) (i : ℕ) → i < length xs → Returns n (λ _. Unit {0}) (index xs i)
  index-Returns xs i h = let (x, e) = get_elem?-some xs i h in rw (index-eq-ok xs i e) (returned tt)

  pub get_elem?-set :
      (xs : List A) (i j : ℕ) (v : A)
      → i < length xs
      → get_elem? (set xs i v) j ≡ (if i == j then some v else get_elem? xs j)
  get_elem?-set [] i j v h = absurd (omega arith)
  get_elem?-set (x ∷ xs) zero zero v h = refl
  get_elem?-set (x ∷ xs) zero (suc j) v h = ground arith
  get_elem?-set (x ∷ xs) (suc i) zero v h = ground arith
  get_elem?-set (x ∷ xs) (suc i) (suc j) v h = ground (arith, get_elem?-set xs i j v)

module _ {F : Type 0} where
  pub check_type-Returns :
      {n : ℕ} (columns : List Column) (i : ℕ) (value : Literal F) {c : Column}
      → get_elem? columns i ≡ some c
      → value.position ≤ n
      → Returns n (λ _. value.value.type_id ≡ c.type_id) (check_type columns i value)
  unfolding check_type
  check_type-Returns columns i value {c} e at = rw (index-eq-ok columns i e) (
      Returns-if (not (type_eq c.type_id value.value.type_id)) (λ _. failed at)
        (λ same. returned (sym (type_eq-eq c.type_id value.value.type_id (ground arith)))))
