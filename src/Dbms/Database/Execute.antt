-- ===== src/Dbms/Database/Execute.antt =====
-- server/dbms/database.go: `Execute` as a whole.
use tac_os.Base.{
  ℕ, ◌≡◌, ◌≢◌, refl, sym, subst, ◌∙◌, ap, arith, Option-cases, false, ◌||◌, Bool-cases, inl, inr,
  Bytes, bytes_eq, bytes_eq_iff, List, [], ◌∷◌, length, All, All-map, some,
}
use tac_os.Dbms.Action
use tac_os.Dbms.Action.{Ends, done, refused, Ends-lift}
use tac_os.Dbms.Database.{
  Database, find_table, put_table, declared, create_columns, create, on_table, existing, run,
  execute,
}
use tac_os.Dbms.Outcome.{Outcome, Returns, returned, failed, Returns-bind, Returns-if}
use tac_os.Dbms.Parser.Pieces.{DefinitionAt}
use tac_os.Dbms.Parser.Statements.{parse}
use tac_os.Dbms.Parser.Total.{IsUsable, parse-Returns}
use tac_os.Dbms.Statement.{ColumnDefinition, Operation, Statement}
use tac_os.Dbms.Table.{Column, Table}
use tac_os.Dbms.Table.Consistent.{HasDistinctNames, IsConsistent}
use tac_os.Dbms.Table.Methods.{
  IsTabular, empty-IsTabular, insert-Ends, update_rows-Ends, select_rows-Ends,
}
use tac_os.Dbms.Value.{Float64, Result}

-- Every stored table is consistent.
abbrev pub IsConsistentDb : {F : Type 0} → Database F → Type 0
IsConsistentDb db = All (λ e. IsConsistent e.1) db

-- No column has a name that was declared before.
abbrev AreNew : List Bytes → List Column → Type 0
AreNew names cs = All (λ (c : Column). declared names c.name ≡ false) cs

declared-ne :
    (n : Bytes) (names : List Bytes) (c : Column)
    → declared (n ∷ names) c.name ≡ false
    → (c.name ≢ n) × (declared names c.name ≡ false)
unfolding declared
declared-ne n names c h = (
  λ e. cc (h, ap (λ b. b || declared names c.name) ((bytes_eq_iff n c.name).1 (sym e))),
  ground arith,
)

create_columns-Returns :
    {n : ℕ} (names : List Bytes) (ds : List ColumnDefinition)
    → All (DefinitionAt n) ds
    → Returns n (λ cs. AreNew names cs × HasDistinctNames cs) (create_columns names ds)
unfolding create_columns
create_columns-Returns names [] at = returned (tt, tt)
create_columns-Returns names (d ∷ ds) at =
    Returns-if (declared names d.name) (λ _. failed at.0)
      λ new. Returns-bind _ (create_columns-Returns (d.name ∷ names) ds at.1) λ cs (news, distinct).
        returned (
          (new, All-map cs (λ c h. (declared-ne d.name names c h).1) news),
          (All-map cs (λ c h. (declared-ne d.name names c h).0) news, distinct),
        )

module _ {F : Type 0} where
  find_table-IsConsistent :
      (db : Database F) (name : Bytes) {t : Table F}
      → IsConsistentDb db
      → find_table db name ≡ some t
      → IsConsistent t
  unfolding find_table
  find_table-IsConsistent [] name c e = cc
  find_table-IsConsistent ((n, u) ∷ db) name c e = elim (Bool-cases (bytes_eq n name)) [
    | inl same ↦ subst IsConsistent (ground arith) c.0
    | inr other ↦ find_table-IsConsistent db name c.1 (ground arith)
  ]

  put_table-IsConsistent :
      (db : Database F) (name : Bytes) (t : Table F)
      → IsConsistentDb db
      → IsConsistent t
      → IsConsistentDb (put_table db name t)
  unfolding put_table
  put_table-IsConsistent [] name t c d = (d, tt)
  put_table-IsConsistent ((n, u) ∷ db) name t c d = elim (Bool-cases (bytes_eq n name)) [
    | inl same ↦ rw same (d, c.1)
    | inr other ↦ rw other (c.0, put_table-IsConsistent db name t c.1 d)
  ]

  -- To write back what was found changes nothing.
  put_table-find_table :
      (db : Database F) (name : Bytes) (t : Table F)
      → find_table db name ≡ some t
      → put_table db name t ≡ db
  unfolding find_table put_table
  put_table-find_table [] name t e = cc
  put_table-find_table ((n, u) ∷ db) name t e = ground (arith, put_table-find_table db name t)

module _ {F : Type 0} ⦃float : Float64 F⦄ {n : ℕ} (s : Statement F) (u : IsUsable n s) where
  create-Ends :
      (db : Database F) → IsConsistentDb db → Ends n IsConsistentDb IsTabular db (create s db)
  unfolding create Action.modify Action.pure
  create-Ends db c = elim (Option-cases (find_table db s.table.name)) [
    | inl absent ↦
        rw (absent, create)
          (Ends-lift (create_columns [] s.definitions) _ db
            (create_columns-Returns [] s.definitions u.definitions_at)
            λ columns (_, distinct).
              unfold Action.◌>>=◌ in
              done
                (put_table-IsConsistent db s.table.name _ c
                  (record { names = distinct; rows = tt }))
                empty-IsTabular)
    | inr (t, there) ↦ rw (there, create) (refused refl u.table_at)
  ]

  on_table-Ends :
      (op : Operation) (t : Table F)
      → s.operation ≡ op
      → IsConsistent t
      → Ends n IsConsistent IsTabular t (on_table op s t)
  unfolding on_table
  on_table-Ends Operation.insert t e c = insert-Ends s t c u
  on_table-Ends Operation.update_rows t e c = update_rows-Ends s t c u e
  on_table-Ends op t e c = select_rows-Ends s t c u

  existing-Ends :
      (db : Database F) → IsConsistentDb db → Ends n IsConsistentDb IsTabular db (existing s db)
  unfolding existing
  existing-Ends db c = elim (Option-cases (find_table db s.table.name)) [
    | inl absent ↦ rw (absent, existing) (refused refl u.table_at)
    | inr (t, there) ↦
        rw (there, existing)
          (stored t there
            (on_table-Ends s.operation t refl (find_table-IsConsistent db s.table.name c there)))
  ]
    where
      stored :
          (t : Table F) {r : Table F × Outcome (Result F)}
          → find_table db s.table.name ≡ some t
          → Ends n IsConsistent IsTabular t r
          → Ends n IsConsistentDb IsTabular db (put_table db s.table.name r.0, r.1)
      stored t there (done d q) = done (put_table-IsConsistent db s.table.name _ c d) q
      stored t there (refused e at) =
          refused (ap (put_table db s.table.name) e ∙ put_table-find_table db s.table.name t there)
            at

module _ {F : Type 0} ⦃float : Float64 F⦄ where
  run-Ends :
      {n : ℕ} (op : Operation) (s : Statement F) (db : Database F)
      → IsUsable n s
      → IsConsistentDb db
      → Ends n IsConsistentDb IsTabular db (run op s db)
  unfolding run
  run-Ends Operation.create s db u c = create-Ends s u db c
  run-Ends op s db u c = existing-Ends s u db c

  -- `Execute` of any source on consistent tables ends without a panic. Either it succeeds, the tables
  -- are consistent again, and each row of the result has a value of the announced type for each
  -- announced column; or it returns an error at an offset of the source or at its end, and the
  -- tables are what they were.
  pub execute-Ends :
      (source : Bytes) (db : Database F)
      → IsConsistentDb db
      → Ends (length source) IsConsistentDb IsTabular db (execute source db)
  unfolding execute
  execute-Ends source db c =
      Ends-lift (parse source) _ db (parse-Returns source) λ s u. run-Ends s.operation s db u c
