-- ===== src/Dbms/Table/Fits.antt =====
-- server/dbms/database.go: rows that have a value of the column's type in every column.
use tac_os.Base.{ℕ, zero, suc, ◌<◌, ◌≡◌, refl, arith, List, [], ◌∷◌, length, get_elem?, set, some}
use tac_os.Dbms.Table.{Column}
use tac_os.Dbms.Value.{Value}

module _ {F : Type 0} where
  abbrev pub Fits : List Column → List (Value F) → Type 0
  Fits [] [] = Unit
  Fits (c ∷ cs) (v ∷ vs) = (v.type_id ≡ c.type_id) × Fits cs vs
  Fits _ _ = ⊥

  -- The value at index `j` has the type of the column there.
  pub record TypedAt (columns : List Column) (row : List (Value F)) (j : ℕ) : Type 0 where
    pub column : Column
    pub value : Value F
    pub column_there : get_elem? columns j ≡ some column
    pub value_there : get_elem? row j ≡ some value
    pub typed : value.type_id ≡ column.type_id

  pub Fits-length :
      (columns : List Column) (row : List (Value F))
      → Fits columns row
      → length row ≡ length columns
  Fits-length [] [] f = refl
  Fits-length [] (v ∷ vs) f = absurd f
  Fits-length (c ∷ cs) [] f = absurd f
  Fits-length (c ∷ cs) (v ∷ vs) f = omega (arith, Fits-length cs vs f.1)

  pub Fits-TypedAt :
      (columns : List Column) (row : List (Value F)) (j : ℕ) {c : Column}
      → Fits columns row
      → get_elem? columns j ≡ some c
      → (v : Value F) × (get_elem? row j ≡ some v) × (v.type_id ≡ c.type_id)
  Fits-TypedAt [] row j f e = cc
  Fits-TypedAt (c ∷ cs) [] j f e = absurd f
  Fits-TypedAt (c ∷ cs) (v ∷ vs) zero f e = (v, refl, cc (f.0, e))
  Fits-TypedAt (c ∷ cs) (v ∷ vs) (suc j) f e = Fits-TypedAt cs vs j f.1 e

  pub Fits-set :
      (columns : List Column) (row : List (Value F)) (j : ℕ) (v : Value F) {c : Column}
      → Fits columns row
      → get_elem? columns j ≡ some c
      → v.type_id ≡ c.type_id
      → Fits columns (set row j v)
  Fits-set [] row j v f e t = cc
  Fits-set (c ∷ cs) [] j v f e t = absurd f
  Fits-set (c ∷ cs) (w ∷ vs) zero v f e t = (cc (t, e), f.1)
  Fits-set (c ∷ cs) (w ∷ vs) (suc j) v f e t = (f.0, Fits-set cs vs j v f.1 e t)

  typed_head :
      {c : Column} {cs : List Column} {v : Value F} {vs : List (Value F)}
      → TypedAt (c ∷ cs) (v ∷ vs) 0
      → v.type_id ≡ c.type_id
  typed_head t = cc (t.column_there, t.value_there, t.typed)

  typed_tail :
      {c : Column} {cs : List Column} {v : Value F} {vs : List (Value F)} (j : ℕ)
      → TypedAt (c ∷ cs) (v ∷ vs) (suc j)
      → TypedAt cs vs j
  typed_tail j t = record {
    column = t.column;
    value = t.value;
    column_there = t.column_there;
    value_there = t.value_there;
    typed = t.typed;
  }

  -- A row fits if it has as many values as columns and each index is typed.
  pub Fits-TypedAt_all :
      (columns : List Column) (row : List (Value F))
      → length row ≡ length columns
      → ((j : ℕ) → j < length columns → TypedAt columns row j)
      → Fits columns row
  Fits-TypedAt_all [] [] e h = tt
  Fits-TypedAt_all [] (v ∷ vs) e h = absurd (omega arith)
  Fits-TypedAt_all (c ∷ cs) [] e h = absurd (omega arith)
  Fits-TypedAt_all (c ∷ cs) (v ∷ vs) e h = (
    typed_head (h 0 (omega arith)),
    Fits-TypedAt_all cs vs (omega arith) (λ j l. typed_tail j (h (suc j) (omega arith))),
  )
