-- ===== src/Dbms/Parser/Total.antt =====
-- server/dbms/parser.go: the statements that `parse` returns.
use tac_os.Base.{
  ℕ, zero, suc, ◌≤◌, ◌≡◌, ◌≢◌, refl, arith, Bool, Bytes, List, [], ◌∷◌, length, All, map, Option,
  none, some, Bool-cases, inl, inr,
}
use tac_os.Dbms.Lexer.{comma, star, end, Token, kind_eq}
use tac_os.Dbms.Lexer.Progress.{lex-Tokens}
use tac_os.Dbms.Outcome.{Returns, returned, failed, Returns-bind}
use tac_os.Dbms.Parser.Monad.{pure, ◌>>=◌, ◌>>◌}
use tac_os.Dbms.Parser.Parts.{fail, take, require}
use tac_os.Dbms.Parser.Pieces.{
  DefinitionAt, LiteralAt, PredicateAt, identifiers-Safe, column_definitions-Safe, literal-Safe,
  literals-Safe,
}
use tac_os.Dbms.Parser.Safe.{
  IsReadable, Tokens-IsReadable, Safe, Safe-pure, Safe-if, Safe-bind, Safe-zero, Safe-branch,
  fail-Safe, take-Safe, take_keyword-Safe, require-Safe, require_keyword-Safe, IdentifierAt,
  identifier-Safe,
}
use tac_os.Dbms.Parser.Statements.{
  create_statement, insert_statement, condition, selected_columns, select_statement, assignments,
  update_statement, any_statement, whole_input, parse,
}
use tac_os.Dbms.Statement.{
  Identifier, Literal, Predicate, Statement, statement_of, select_rows, update_rows,
}
use tac_os.Dbms.Value.{Float64}

-- Every offset of the statement is at most `n`, and an UPDATE has a value for each column and a WHERE.
pub record IsUsable {F : Type 0} (n : ℕ) (s : Statement F) : Type 0 where
  pub table_at : IdentifierAt n s.table
  pub definitions_at : All (DefinitionAt n) s.definitions
  pub columns_at : All (IdentifierAt n) s.columns
  pub values_at : All (LiteralAt n) s.values
  pub predicate_at : PredicateAt n s.predicate
  pub update_shape :
      s.operation ≡ update_rows → (length s.columns ≡ length s.values) × (s.predicate ≢ none)

-- The columns and the values of a SET list, as many of the one as of the other.
abbrev AssignmentsAt : {F : Type 0} → ℕ → List (Identifier × Literal F) → Type 0
AssignmentsAt {F} n rest =
    All (IdentifierAt n) (map (λ a. a.0) rest)
    × All (LiteralAt n) (map (λ a. a.1) rest)
    × (length (map (λ (a : Identifier × Literal F). a.0) rest)
        ≡ length (map (λ (a : Identifier × Literal F). a.1) rest))

selected_columns-Safe :
    {n : ℕ} (k : ℕ) (all : Bool) → Safe n k (selected_columns k all) (All (IdentifierAt n)) k
unfolding selected_columns
selected_columns-Safe k all =
    Safe-if all _ _ (λ _. Safe-pure [] tt (omega arith)) (λ _. identifiers-Safe k)

module _ {n : ℕ} {F : Type 0} ⦃float : Float64 F⦄ where
  create_statement-Safe : (k : ℕ) → Safe n k (create_statement {F = F} k) (IsUsable n) k
  unfolding create_statement
  create_statement-Safe k = Safe-bind _ _ (require_keyword-Safe _) λ _ _.
      Safe-bind _ _ identifier-Safe λ table at. Safe-bind _ _ (require-Safe _ _ (λ e. cc)) λ _ _.
        Safe-bind _ _ (column_definitions-Safe k) λ ds all.
          Safe-bind _ _ (require-Safe _ _ (λ e. cc)) λ _ _.
            Safe-pure _
              (record {
                table_at = at;
                definitions_at = all;
                columns_at = tt;
                values_at = tt;
                predicate_at = tt;
                update_shape = λ e. cc;
              })
              (omega arith)

  insert_statement-Safe : (k : ℕ) → Safe n k (insert_statement {F = F} k) (IsUsable n) k
  unfolding insert_statement
  insert_statement-Safe k = Safe-bind _ _ (require_keyword-Safe _) λ _ _.
      Safe-bind _ _ identifier-Safe λ table at. Safe-bind _ _ (require-Safe _ _ (λ e. cc)) λ _ _.
        Safe-bind _ _ (identifiers-Safe k) λ columns named.
          Safe-bind _ _ (require-Safe _ _ (λ e. cc)) λ _ _.
            Safe-bind _ _ (require_keyword-Safe _) λ _ _.
              Safe-bind _ _ (require-Safe _ _ (λ e. cc)) λ _ _.
                Safe-bind _ _ (literals-Safe k) λ values given.
                  Safe-bind _ _ (require-Safe _ _ (λ e. cc)) λ _ _.
                    Safe-pure _
                      (record {
                        table_at = at;
                        definitions_at = tt;
                        columns_at = named;
                        values_at = given;
                        predicate_at = tt;
                        update_shape = λ e. cc;
                      })
                      (omega arith)

  condition-Safe : {k : ℕ} → Safe n k (condition {F = F}) (λ p. PredicateAt n (some p)) k
  unfolding condition
  condition-Safe = Safe-bind _ _ identifier-Safe λ id at.
      Safe-bind _ _ (require-Safe _ _ (λ e. cc))
        λ _ _. Safe-bind _ _ literal-Safe λ v there. Safe-pure _ (at, there) (omega arith)

  select_statement-Safe : (k : ℕ) → Safe n k (select_statement {F = F} k) (IsUsable n) k
  unfolding select_statement
  select_statement-Safe k = Safe-bind _ _ (take-Safe star (λ e. cc)) λ all _.
      Safe-bind _ _ (selected_columns-Safe k all) λ columns named.
        Safe-bind _ _ (require_keyword-Safe _) λ _ _. Safe-bind _ _ identifier-Safe λ table at.
          Safe-bind _ _ (take_keyword-Safe _) λ has_where _.
            Safe-if has_where _ _
              (λ _.
                Safe-bind _ _ condition-Safe
                  λ p there. Safe-pure _ (usable at named there) (omega arith))
              (λ _. Safe-pure _ (usable at named tt) (omega arith))
    where
      usable :
          {table : Identifier} {columns : List Identifier} {all : Bool} {p : Option (Predicate F)}
          → IdentifierAt n table
          → All (IdentifierAt n) columns
          → PredicateAt n p
          → IsUsable n (record (statement_of select_rows table) {
            columns = columns;
            all = all;
            predicate = p;
          })
      usable at named there = record {
        table_at = at;
        definitions_at = tt;
        columns_at = named;
        values_at = tt;
        predicate_at = there;
        update_shape = λ e. cc;
      }

  assignments-Safe : (fuel : ℕ) → Safe n fuel (assignments {F = F} fuel) (AssignmentsAt n) fuel
  unfolding assignments
  assignments-Safe zero = Safe-zero _ _
  assignments-Safe (suc fuel) = Safe-bind _ _ identifier-Safe λ id at.
      Safe-bind _ _ (require-Safe _ _ (λ e. cc)) λ _ _. Safe-bind _ _ literal-Safe λ v there.
        Safe-branch fuel comma _ _ (λ e. cc) (omega arith)
          (Safe-bind _ _ (assignments-Safe fuel)
            λ rest all. Safe-pure _ ((at, all.0), (there, all.1), omega arith) (omega arith))
          (Safe-pure _ ((at, tt), (there, tt), refl) (omega arith))

  update_statement-Safe : (k : ℕ) → Safe n k (update_statement {F = F} k) (IsUsable n) k
  unfolding update_statement
  update_statement-Safe k = Safe-bind _ _ identifier-Safe λ table at.
      Safe-bind _ _ (require_keyword-Safe _) λ _ _. Safe-bind _ _ (assignments-Safe k) λ rest all.
        Safe-bind _ _ (require_keyword-Safe _) λ _ _. Safe-bind _ _ condition-Safe λ p there.
          Safe-pure _
            (record {
              table_at = at;
              definitions_at = tt;
              columns_at = all.0;
              values_at = all.1;
              predicate_at = there;
              update_shape = λ _. (all.2, λ e. cc);
            })
            (omega arith)

  any_statement-Safe : (k : ℕ) → Safe n k (any_statement {F = F} k) (IsUsable n) k
  unfolding any_statement
  any_statement-Safe k = Safe-bind _ _ (take_keyword-Safe _) λ is_create _.
      Safe-if is_create _ _ (λ _. create_statement-Safe k)
        λ _. Safe-bind _ _ (take_keyword-Safe _) λ is_insert _.
          Safe-if is_insert _ _ (λ _. insert_statement-Safe k)
            λ _. Safe-bind _ _ (take_keyword-Safe _) λ is_select _.
              Safe-if is_select _ _ (λ _. select_statement-Safe k)
                λ _. Safe-bind _ _ (take_keyword-Safe _) λ is_update _.
                  Safe-if is_update _ _ (λ _. update_statement-Safe k) (λ _. fail-Safe _ _ k)

  -- Behind the last token nothing is read any more.
  last-Returns :
      (s : Statement F) (message : Bytes) (ts : List Token)
      → IsUsable n s
      → IsReadable n ts
      → Returns n (λ r. IsUsable n r.0) ((require end message >> pure s) ts)
  unfolding require take fail ◌>>=◌
  last-Returns s message [] u h = absurd h
  last-Returns s message (t ∷ ts) u h = elim (Bool-cases (kind_eq t.kind end)) [
    | inl e ↦ rw e (returned u)
    | inr e ↦ rw e (failed h.0)
  ]

  whole_input-Returns :
      (k : ℕ) (ts : List Token)
      → IsReadable n ts
      → length ts ≤ k
      → Returns n (λ r. IsUsable n r.0) (whole_input {F = F} k ts)
  unfolding whole_input ◌>>=◌
  whole_input-Returns k ts h le =
      Returns-bind _ ((any_statement-Safe k).at ts h le) λ (s, ts') good.
        Returns-bind _ ((require-Safe _ _ (λ e. cc)).at ts' good.1 good.2)
          λ (_, ts'') more. last-Returns s _ ts'' good.0 more.1

module _ {F : Type 0} ⦃float : Float64 F⦄ where
  -- For every source the parser returns: a usable statement, or an error at an offset of the
  -- source or at its end. It never reads behind the last token and its loops come to an end.
  pub parse-Returns :
      (source : Bytes) → Returns (length source) (IsUsable (length source)) (parse {F = F} source)
  unfolding parse
  parse-Returns source = Returns-bind _ (lex-Tokens source) λ ts good.
      Returns-bind _ (whole_input-Returns (length ts) ts (Tokens-IsReadable good) (omega arith))
        λ (s, _) u. returned u
