-- ===== src/Dbms/Lexer.antt =====
-- server/dbms/lexer.go. The source is the list of its bytes still to be read, beside the offset `i`.
pub mod Progress
use tac_os.Base.{
  ℕ, zero, suc, ◌+◌, ◌==◌, leb, if◌then◌else◌, Bool, true, false, not, ◌&&◌, ◌||◌, Bytes, codes,
  List, [], ◌∷◌, ◌++◌, length, Option, none, some,
}
use tac_os.Dbms.Outcome.{Outcome, ok, no_fuel, query_error, ◌>>=◌}

pub data Kind : Type 0 where
  word integer_literal real_literal text_literal left_paren right_paren : Kind
  comma equal star semicolon end : Kind

abbrev pub kind_eq : Kind → Kind → Bool
kind_eq word word = true
kind_eq integer_literal integer_literal = true
kind_eq real_literal real_literal = true
kind_eq text_literal text_literal = true
kind_eq left_paren left_paren = true
kind_eq right_paren right_paren = true
kind_eq comma comma = true
kind_eq equal equal = true
kind_eq star star = true
kind_eq semicolon semicolon = true
kind_eq end end = true
kind_eq _ _ = false

pub record Token : Type 0 where
  pub kind : Kind
  pub text : Bytes
  pub position : ℕ

unfoldable pub digit : ℕ → Bool
digit c = leb b'0' c && leb c b'9'

unfoldable pub letter : ℕ → Bool
letter c = leb b'A' c && leb c b'Z' || leb b'a' c && leb c b'z' || c == b'_'

unfoldable pub whitespace : ℕ → Bool
whitespace c = c == b' ' || c == b'\t' || c == b'\r' || c == b'\n' || c == 12 || c == 11

-- `for i < len(source) && p(source[i]) { i++ }`: what is passed over, and what is left
unfoldable pub span : (ℕ → Bool) → Bytes → Bytes × Bytes
span p [] = ([], [])
span p (c ∷ cs) = let (xs, ys) = span p cs in if p c then (c ∷ xs, ys) else ([], c ∷ cs)

-- `i == len(source) || !digit(source[i])` fails
abbrev digit_next : Bytes → Bool
digit_next [] = false
digit_next (c ∷ cs) = digit c

-- A token with the offset and the source behind it.
abbrev pub Lexed : Type 0
Lexed = Token × ℕ × Bytes

abbrev token_of : Kind → ℕ → Bytes → Bytes → Lexed
token_of k start txt rest =
    (record { kind = k; text = txt; position = start }, start + length txt, rest)

lex_word : ℕ → ℕ → Bytes → Lexed
unfolding span
lex_word start c rest =
    let (cs, after) = span (λ x. letter x || digit x) rest in token_of word start (c ∷ cs) after

-- from `k := integerLiteral` on, with the digits read so far
lex_fraction : ℕ → Bytes → Bytes → Outcome Lexed
unfolding span
lex_fraction start txt [] = ok (token_of integer_literal start txt [])
lex_fraction start txt (c ∷ rest) =
    if c == b'.'
    then (if not (digit_next rest)
        then query_error (start + length txt + 1) (codes "Expected digits after decimal point")
        else let (ds, after) = span digit rest in
          ok (token_of real_literal start (txt ++ c ∷ ds) after))
    else ok (token_of integer_literal start txt (c ∷ rest))

-- `c` is a digit or a minus sign
lex_number : ℕ → ℕ → Bytes → Outcome Lexed
unfolding lex_fraction span
lex_number start c rest =
    if c == b'-' && not (digit_next rest)
    then query_error start (codes "Expected digits after '-'")
    else let (ds, after) = span digit rest in lex_fraction start (c ∷ ds) after

-- the loop over a TEXT literal; `none` if it is not closed
unfoldable pub quoted : ℕ → Bytes → Bytes → Option (Bytes × ℕ × Bytes)
quoted i decoded [] = none
quoted i decoded (c ∷ []) = if c == b'\'' then some (decoded, i + 1, []) else none
quoted i decoded (c ∷ d ∷ rest) =
    let plain = quoted (i + 1) (decoded ++ c ∷ []) (d ∷ rest) in
    let doubled = quoted (i + 2) (decoded ++ b'\'' ∷ []) rest in
    if not (c == b'\'')
    then plain
    else if d == b'\''
    then doubled
    else some (decoded, i + 1, d ∷ rest)

-- `if !closed`, and the token of the loop's result
unfoldable pub text_token : ℕ → Option (Bytes × ℕ × Bytes) → Outcome Lexed
text_token start none = query_error start (codes "Unterminated TEXT literal")
text_token start (some (decoded, i, after)) =
    ok (record { kind = text_literal; text = decoded; position = start }, i, after)

unfoldable pub lex_text : ℕ → Bytes → Outcome Lexed
unfolding quoted text_token
lex_text start rest = text_token start (quoted (start + 1) [] rest)

-- the `switch c`
lex_symbol : ℕ → ℕ → Bytes → Outcome Lexed
lex_symbol start c rest =
    let one = λ (k : Kind). ok (token_of k start (c ∷ []) rest) in
    if c == b'('
    then one left_paren
    else if c == b')'
    then one right_paren
    else if c == b','
    then one comma
    else if c == b'='
    then one equal
    else if c == b'*'
    then one star
    else if c == b';'
    then one semicolon
    else query_error start (codes "Unsupported character")

-- one round of the loop, at a byte `c` that is no whitespace
unfoldable pub lex_token : ℕ → ℕ → Bytes → Outcome Lexed
unfolding lex_word lex_number lex_text lex_symbol letter digit
lex_token i c rest =
    if letter c
    then ok (lex_word i c rest)
    else if digit c || c == b'-'
    then lex_number i c rest
    else if c == b'\''
    then lex_text i rest
    else lex_symbol i c rest

unfoldable pub lex_from : ℕ → ℕ → Bytes → Outcome (List Token)
unfolding lex_token whitespace
lex_from zero i source = no_fuel
lex_from (suc fuel) i [] = ok (record { kind = end; text = []; position = i } ∷ [])
lex_from (suc fuel) i (c ∷ rest) =
    let skip = lex_from fuel (i + 1) rest in
    let next =
      lex_token i c rest >>= λ (t, j, after). lex_from fuel j after >>= λ ts. ok (t ∷ ts) in
    if whitespace c then skip else next

unfoldable pub lex : Bytes → Outcome (List Token)
unfolding lex_from
lex source = lex_from (suc (length source)) 0 source
