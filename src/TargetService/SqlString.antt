-- ===== src/TargetService/SqlString.antt =====
-- target-service/dbclient/client.go: `SQLString`, and its reading by server/dbms/lexer.go.
use tac_os.Base.{
  ℕ, suc, ◌+◌, ◌≡◌, refl, ◌∙◌, ap, sym, ==→≡, arith, Option, false, Bool, Bool-cases, inl, inr,
  ◌==◌, if◌then◌else◌, Bytes, [], ◌∷◌, ◌++◌, length, length-append, append_assoc, append-nil, some,
}
use tac_os.Dbms.Lexer.{Token, text_literal, whitespace, quoted, text_token, lex_token, lex_from}
use tac_os.Dbms.Outcome
use tac_os.Dbms.Outcome.{Outcome, ok}

-- `strings.ReplaceAll(s, "'", "''")`
unfoldable pub double_quotes : Bytes → Bytes
double_quotes [] = []
double_quotes (c ∷ cs) =
    let rest = double_quotes cs in if c == b'\'' then b'\'' ∷ b'\'' ∷ rest else c ∷ rest

unfoldable pub sql_string : Bytes → Bytes
sql_string s = b'\'' ∷ (double_quotes s ++ b'\'' ∷ [])

-- What follows is no quote.
abbrev pub starts_with_quote : Bytes → Bool
starts_with_quote [] = false
starts_with_quote (c ∷ cs) = c == b'\''

quoted-plain :
    (i : ℕ) (decoded : Bytes) (c : ℕ) (cs : Bytes)
    → c == b'\'' ≡ false
    → quoted i decoded (c ∷ cs) ≡ quoted (i + 1) (decoded ++ c ∷ []) cs
unfolding quoted
quoted-plain i decoded c [] h = rw h refl
quoted-plain i decoded c (d ∷ cs) h = rw h refl

quoted-doubled :
    (i : ℕ) (decoded cs : Bytes)
    → quoted i decoded (b'\'' ∷ b'\'' ∷ cs) ≡ quoted (i + 2) (decoded ++ b'\'' ∷ []) cs
unfolding quoted
quoted-doubled i decoded cs = refl

quoted_closing :
    (i : ℕ) (decoded rest : Bytes)
    → starts_with_quote rest ≡ false
    → quoted i decoded (b'\'' ∷ rest) ≡ some (decoded, i + 1, rest)
unfolding quoted
quoted_closing i decoded [] h = refl
quoted_closing i decoded (d ∷ rest) h = rw h refl

read_to :
    {a b rest : Bytes} {i j : ℕ}
    → a ≡ b
    → i ≡ j
    → ◌≡◌ {A = Option (Bytes × ℕ × Bytes)} (some (a, i, rest)) (some (b, j, rest))
read_to p q = cc

quoted-double_quotes :
    (i : ℕ) (decoded s rest : Bytes)
    → starts_with_quote rest ≡ false
    → quoted i decoded (double_quotes s ++ (b'\'' ∷ rest))
      ≡ some (decoded ++ s, i + length (double_quotes s) + 1, rest)
unfolding double_quotes
quoted-double_quotes i decoded [] rest h =
    quoted_closing i decoded rest h
    ∙ rw append-nil (ap (λ j. some (decoded, j, rest)) (omega arith))
quoted-double_quotes i decoded (c ∷ cs) rest h = elim (Bool-cases (c == b'\'')) [
  | inl e ↦ rw e (
      quoted-doubled i decoded (double_quotes cs ++ (b'\'' ∷ rest))
      ∙ quoted-double_quotes (i + 2) (decoded ++ b'\'' ∷ []) cs rest h
      ∙ read_to
          (append_assoc decoded (b'\'' ∷ []) cs
            ∙ ap (λ x. decoded ++ x ∷ cs) (sym (==→≡ c b'\'' e)))
          (omega arith))
  | inr e ↦ rw e (
      quoted-plain i decoded c (double_quotes cs ++ (b'\'' ∷ rest)) e
      ∙ quoted-double_quotes (i + 1) (decoded ++ c ∷ []) cs rest h
      ∙ read_to (append_assoc decoded (c ∷ []) cs) (omega arith))
]

abbrev pub text_token_at : Bytes → ℕ → Token
text_token_at s i = record { kind = text_literal; text = s; position = i }

lex_token-sql_string :
    (i : ℕ) (s rest : Bytes)
    → starts_with_quote rest ≡ false
    → lex_token i b'\'' ((double_quotes s ++ b'\'' ∷ []) ++ rest)
      ≡ ok (text_token_at s i, i + length (sql_string s), rest)
unfolding lex_token sql_string
lex_token-sql_string i s rest h = rw (append_assoc (double_quotes s) (b'\'' ∷ []) rest) (
    ap (text_token i) (quoted-double_quotes (i + 1) [] s rest h)
    ∙ ap (λ j. ok (text_token_at s i, j, rest))
        (omega (arith, length-append (double_quotes s) (b'\'' ∷ []))))

-- The DBMS reads the text behind `SQLString`, whatever it holds, as one TEXT literal with that text,
-- if no quote follows; then it goes on behind it.
pub lex_from-sql_string :
    (fuel i : ℕ) (s rest : Bytes)
    → starts_with_quote rest ≡ false
    → lex_from (suc fuel) i (sql_string s ++ rest)
      ≡ Outcome.◌>>=◌
          (lex_from fuel (i + length (sql_string s)) rest)
          (λ ts. ok (text_token_at s i ∷ ts))
unfolding lex_from whitespace
lex_from-sql_string fuel i s rest h = unfold sql_string in rw (lex_token-sql_string i s rest h) refl
