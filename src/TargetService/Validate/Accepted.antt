-- ===== src/TargetService/Validate/Accepted.antt =====
-- target-service/dbclient/client.go: what a response that passes `validate` looks like.
use tac_os.Base.{
  ℤ, pos, negsuc, ℕ, ◌≡◌, ◌≢◌, refl, sym, ap, subst, arith, Option-cases, if◌then◌else◌, Bool, true,
  false, not, ◌||◌, Bool-cases, inl, inr, Bytes, codes, bytes_eq, bytes_eq_iff, List, [], ◌∷◌,
  length, All, Option, none, some,
}
use tac_os.Dbms.Number.{parse_int}
use tac_os.TargetService.Validate.{
  Column, ErrorInfo, Json, json_string, json_number, json_other, WireResult, is_type, columns_valid,
  is_given, is_string, is_int64, is_position, failure_valid, is_float64, cell_valid, cells_valid,
  rows_valid, validate,
}

module _ (parses : Bytes → Bool) where
  -- A value of an SQL type.
  pub data CellIs : Bytes → Json → Type 0 where
    is_text : (s : Bytes) → CellIs (codes "TEXT") (json_string s)
    is_integer :
        {t : Bytes} {n : ℤ} → parse_int t ≡ some n → CellIs (codes "INTEGER") (json_number t)
    is_real : {t : Bytes} → parses t ≡ true → CellIs (codes "REAL") (json_number t)

  cell-IsText : (v : Json) → is_string v ≡ true → CellIs (codes "TEXT") v
  cell-IsText (json_string s) h = is_text s
  cell-IsText (json_number s) h = cc
  cell-IsText json_other h = cc

  cell-IsInteger : (v : Json) → is_int64 v ≡ true → CellIs (codes "INTEGER") v
  cell-IsInteger (json_string s) h = cc
  cell-IsInteger (json_number s) h = elim (Option-cases (parse_int s)) [
    | inl e ↦ cc (h, ap is_given e)
    | inr (n, e) ↦ is_integer e
  ]
  cell-IsInteger json_other h = cc

  cell-IsReal : (v : Json) → is_float64 parses v ≡ true → CellIs (codes "REAL") v
  cell-IsReal (json_string s) h = cc
  cell-IsReal (json_number s) h = is_real h
  cell-IsReal json_other h = cc

  cell_valid-CellIs :
      (t : Bytes) (v : Json) → is_type t ≡ true → cell_valid parses t v ≡ true → CellIs t v
  unfolding cell_valid is_type
  cell_valid-CellIs t v k h = elim (Bool-cases (bytes_eq t (codes "TEXT"))) [
    | inl e ↦
        subst (λ n. CellIs n v) (sym ((bytes_eq_iff t (codes "TEXT")).0 e))
          (cell-IsText v (rw e at h))
    | inr e ↦ elim (Bool-cases (bytes_eq t (codes "INTEGER"))) [
      | inl i ↦
          subst (λ n. CellIs n v) (sym ((bytes_eq_iff t (codes "INTEGER")).0 i))
            (cell-IsInteger v (rw (e, i) at h))
      | inr i ↦ elim (Bool-cases (bytes_eq t (codes "REAL"))) [
        | inl r ↦
            subst (λ n. CellIs n v) (sym ((bytes_eq_iff t (codes "REAL")).0 r))
              (cell-IsReal v (rw (e, i, r) at h))
        | inr r ↦ cc (rw (e, i, r) at k)
      ]
    ]
  ]

  -- A row with one value of the column's type for each column.
  abbrev pub RowIs : List Column → List Json → Type 0
  RowIs [] [] = Unit
  RowIs (c ∷ cs) (v ∷ vs) = CellIs c.type_name v × RowIs cs vs
  RowIs _ _ = ⊥

  columns_valid-All :
      (cs : List Column)
      → columns_valid cs ≡ true
      → All (λ c. (c.name ≢ []) × (is_type c.type_name ≡ true)) cs
  unfolding columns_valid
  columns_valid-All [] h = tt
  columns_valid-All (c ∷ cs) h = elim (Bool-cases (bytes_eq c.name [])) [
    | inl e ↦ cc (rw e at h)
    | inr e ↦ (
      (λ n. cc (e, (bytes_eq_iff c.name []).1 n), ground (arith, h)),
      columns_valid-All cs (ground (arith, h)),
    )
  ]

  cells_valid-RowIs :
      (cs : List Column) (row : List Json)
      → All (λ c. (c.name ≢ []) × (is_type c.type_name ≡ true)) cs
      → length row ≡ length cs
      → cells_valid parses cs row ≡ true
      → RowIs cs row
  unfolding cells_valid
  cells_valid-RowIs [] [] a l h = tt
  cells_valid-RowIs [] (v ∷ vs) a l h = absurd (omega arith)
  cells_valid-RowIs (c ∷ cs) [] a l h = absurd (omega arith)
  cells_valid-RowIs (c ∷ cs) (v ∷ vs) (k, a) l h = (
    cell_valid-CellIs c.type_name v k.1 (ground (arith, h)),
    cells_valid-RowIs cs vs a (omega arith) (ground (arith, h)),
  )

  rows_valid-All :
      (cs : List Column) (rows : List (List Json))
      → All (λ c. (c.name ≢ []) × (is_type c.type_name ≡ true)) cs
      → rows_valid parses cs rows ≡ true
      → All (RowIs cs) rows
  unfolding rows_valid
  rows_valid-All cs [] a h = tt
  rows_valid-All cs (row ∷ rows) a h = (
    cells_valid-RowIs cs row a (ground (arith, h)) (ground (arith, h)),
    rows_valid-All cs rows a (ground (arith, h)),
  )

  -- A response that passes `validate` and is OK has no error, its columns are named, and each of its
  -- rows has for each column a value of the column's type.
  pub validate-RowIs :
      (r : WireResult)
      → r.ok ≡ true
      → validate parses r ≡ true
      → (r.failure ≡ none) × All (λ c. c.name ≢ []) r.columns × All (RowIs r.columns) r.rows
  unfolding validate
  validate-RowIs r e h =
      let all = rw e at h in
      let columns = columns_valid-All r.columns (ground (arith, all)) in
      (
        not_given r.failure (ground (arith, all)),
        named r.columns columns,
        rows_valid-All r.columns r.rows columns (ground (arith, all)),
      )
    where
      not_given : (o : Option ErrorInfo) → not (is_given o) ≡ true → o ≡ none
      not_given none k = refl
      not_given (some x) k = cc

      named :
          (cs : List Column)
          → All (λ c. (c.name ≢ []) × (is_type c.type_name ≡ true)) cs
          → All (λ c. c.name ≢ []) cs
      named [] a = tt
      named (c ∷ cs) (k, a) = (k.0, named cs a)

-- The position of an error, of SQL or not.
abbrev pub IsPlaced : Bool → Option ℤ → Type 0
IsPlaced true position = (n : ℕ) × (position ≡ some (pos n))
IsPlaced false position = position ≡ none

-- The error of a response is one of the two kinds that the protocol has: a SQL_ERROR has a position
-- that is not negative, another error has none; both have a code and a message.
pub record IsReport (r : WireResult) : Type 0 where
  pub info : ErrorInfo
  pub given : r.failure ≡ some info
  pub coded : info.code ≢ []
  pub told : info.message ≢ []
  pub placed : IsPlaced (bytes_eq info.code (codes "SQL_ERROR")) info.position

module _ (parses : Bytes → Bool) where
  -- A response that passes `validate` and is not OK has an error with a code and a message; a
  -- SQL_ERROR has a position that is not negative, and any other error has none.
  pub validate-IsReport : (r : WireResult) → r.ok ≡ false → validate parses r ≡ true → IsReport r
  unfolding validate failure_valid
  validate-IsReport r e h = go r.failure refl (rw e at h)
    where
      place : (o : Option ℤ) → is_position o ≡ true → (n : ℕ) × (o ≡ some (pos n))
      place none k = cc
      place (some (pos n)) k = (n, refl)
      place (some (negsuc n)) k = cc

      placeless : (o : Option ℤ) → not (is_given o) ≡ true → o ≡ none
      placeless none k = refl
      placeless (some n) k = cc

      placed :
          (b : Bool) (o : Option ℤ)
          → (if b then is_position o else not (is_given o)) ≡ true
          → IsPlaced b o
      placed true o k = place o k
      placed false o k = placeless o k

      go : (o : Option ErrorInfo) → r.failure ≡ o → failure_valid o ≡ true → IsReport r
      go none same k = cc
      go (some x) same k = elim (Bool-cases (bytes_eq x.code [] || bytes_eq x.message [])) [
        | inl b ↦ cc (rw b at k)
        | inr b ↦ record {
          info = x;
          given = same;
          coded = λ n. cc (b, (bytes_eq_iff x.code []).1 n);
          told = λ n. ground (arith, b, (bytes_eq_iff x.message []).1 n);
          placed = placed (bytes_eq x.code (codes "SQL_ERROR")) x.position (rw b at k);
        }
      ]
