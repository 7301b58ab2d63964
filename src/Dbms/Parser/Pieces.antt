-- ===== src/Dbms/Parser/Pieces.antt =====
-- server/dbms/parser.go: identifiers, types and literals as safe parsers.
use tac_os.Base.{ℤ, ℕ, zero, suc, ◌≤◌, arith, All, Option, none, some, ◌||◌}
use tac_os.Dbms.Lexer.{text_literal, integer_literal, real_literal, comma, Token}
use tac_os.Dbms.Parser.Parts.{identifiers, value_type, integer_of, real_of, literal_value, literal}
use tac_os.Dbms.Parser.Safe.{
  Safe, Safe-pure, Safe-reject, Safe-if, Safe-bind, Safe-zero, Safe-branch, current-Safe, fail-Safe,
  take-Safe, take_keyword-Safe, IdentifierAt, identifier-Safe,
}
use tac_os.Dbms.Parser.Statements.{column_definitions, literals}
use tac_os.Dbms.Statement.{Literal, ColumnDefinition, Predicate}
use tac_os.Dbms.Value.{Float64, integer, real, text}

abbrev pub DefinitionAt : ℕ → ColumnDefinition → Type 0
DefinitionAt n d = d.position ≤ n

abbrev pub LiteralAt : {F : Type 0} → ℕ → Literal F → Type 0
LiteralAt n l = l.position ≤ n

abbrev pub PredicateAt : {F : Type 0} → ℕ → Option (Predicate F) → Type 0
PredicateAt n none = Unit
PredicateAt n (some p) = IdentifierAt n p.column × LiteralAt n p.literal

module _ {n : ℕ} where
  pub identifiers-Safe : (fuel : ℕ) → Safe n fuel (identifiers fuel) (All (IdentifierAt n)) fuel
  unfolding identifiers
  identifiers-Safe zero = Safe-zero _ _
  identifiers-Safe (suc fuel) = Safe-bind _ _ identifier-Safe λ id at.
      Safe-branch fuel comma _ _ (λ e. cc) (omega arith)
        (Safe-bind _ _ (identifiers-Safe fuel) λ ids all. Safe-pure _ (at, all) (omega arith))
        (Safe-pure _ (at, tt) (omega arith))

  pub value_type-Safe : {k : ℕ} → Safe n k value_type (λ _. Unit) k
  unfolding value_type
  value_type-Safe {k} = Safe-bind _ _ (take_keyword-Safe _) λ is_integer _.
      Safe-if is_integer _ _ (λ _. Safe-pure integer tt (omega arith))
        λ _. Safe-bind _ _ (take_keyword-Safe _) λ is_real _.
          Safe-if is_real _ _ (λ _. Safe-pure real tt (omega arith))
            λ _. Safe-bind _ _ (take_keyword-Safe _) λ is_text _.
              Safe-if is_text _ _ (λ _. Safe-pure text tt (omega arith)) (λ _. fail-Safe _ _ k)

  pub column_definitions-Safe :
      (fuel : ℕ) → Safe n fuel (column_definitions fuel) (All (DefinitionAt n)) fuel
  unfolding column_definitions
  column_definitions-Safe zero = Safe-zero _ _
  column_definitions-Safe (suc fuel) = Safe-bind _ _ identifier-Safe λ id at.
      Safe-bind _ _ value_type-Safe λ type_id _.
        Safe-branch fuel comma _ _ (λ e. cc) (omega arith)
          (Safe-bind _ _ (column_definitions-Safe fuel)
            λ ds all. Safe-pure _ (at, all) (omega arith))
          (Safe-pure _ (at, tt) (omega arith))

  module _ {F : Type 0} ⦃float : Float64 F⦄ where
    integer_of-Safe :
        {k : ℕ} (t : Token) (r : Option ℤ)
        → t.position ≤ n
        → Safe n k (integer_of {F = F} t r) (λ _. Unit) k
    unfolding integer_of
    integer_of-Safe t none at = Safe-reject t.position _ at
    integer_of-Safe t (some i) at = Safe-pure _ tt (omega arith)

    real_of-Safe :
        {k : ℕ} (t : Token) (r : Option F) → t.position ≤ n → Safe n k (real_of t r) (λ _. Unit) k
    unfolding real_of
    real_of-Safe t none at = Safe-reject t.position _ at
    real_of-Safe t (some x) at =
        Safe-if (float.is_inf x || float.is_nan x) _ _ (λ _. Safe-reject t.position _ at)
          (λ _. Safe-pure _ tt (omega arith))

    literal_value-Safe :
        {k : ℕ} (t : Token) → t.position ≤ n → Safe n k (literal_value {F = F} t) (λ _. Unit) k
    unfolding literal_value
    literal_value-Safe {k} t at = Safe-bind _ _ (take-Safe text_literal (λ e. cc)) λ is_text _.
        Safe-if is_text _ _ (λ _. Safe-pure _ tt (omega arith))
          λ _. Safe-bind _ _ (take-Safe integer_literal (λ e. cc)) λ is_integer _.
            Safe-if is_integer _ _ (λ _. integer_of-Safe t _ at)
              λ _.
                Safe-bind _ _ (take-Safe real_literal (λ e. cc))
                  λ is_real _. Safe-if is_real _ _ (λ _. real_of-Safe t _ at) (λ _. fail-Safe _ _ k)

    pub literal-Safe : {k : ℕ} → Safe n k (literal {F = F}) (LiteralAt n) k
    unfolding literal
    literal-Safe =
        Safe-bind _ _ current-Safe
          λ t at. Safe-bind _ _ (literal_value-Safe t at) λ v _. Safe-pure _ at (omega arith)

    pub literals-Safe : (fuel : ℕ) → Safe n fuel (literals {F = F} fuel) (All (LiteralAt n)) fuel
    unfolding literals
    literals-Safe zero = Safe-zero _ _
    literals-Safe (suc fuel) = Safe-bind _ _ literal-Safe λ v at.
        Safe-branch fuel comma _ _ (λ e. cc) (omega arith)
          (Safe-bind _ _ (literals-Safe fuel) λ vs all. Safe-pure _ (at, all) (omega arith))
          (Safe-pure _ (at, tt) (omega arith))
