-- ===== src/TargetService/Framing.antt =====
-- target-service/dbclient/client.go: `SQLString`, and how server/dbms/internal/cli/cli.go reads it.
use tac_os.Base.{
  ℕ, ◌≡◌, refl, ap, ◌∙◌, sym, ◌==◌, true, false, Bool-cases, inl, inr, Bytes, [], ◌∷◌, ◌++◌,
  append_assoc,
}
use tac_os.Dbms.Cli.Reading.{
  InputEnd, ReadResult, statement, finished, read_failed, with_bytes, read_loop, read_statement,
}
use tac_os.Dbms.Lexer.{whitespace}
use tac_os.TargetService.SqlString.{double_quotes, sql_string}

with_bytes-append :
    (a b : Bytes) (r : ReadResult) → with_bytes a (with_bytes b r) ≡ with_bytes (a ++ b) r
unfolding with_bytes
with_bytes-append a b (statement source rest) =
    ap (λ xs. statement xs rest) (sym (append_assoc a b source))
with_bytes-append a b finished = refl
with_bytes-append a b read_failed = refl

module _ (e : InputEnd) where
  read_loop-plain :
      (x : ℕ) (tail : Bytes)
      → x == b'\'' ≡ false
      → read_loop e true true (x ∷ tail) ≡ with_bytes (x ∷ []) (read_loop e true true tail)
  unfolding read_loop
  read_loop-plain x [] h =
      rw h (elim (Bool-cases (x == b';')) [ inl k ↦ rw k refl | inr k ↦ rw k refl ])
  read_loop-plain x (d ∷ tail) h =
      rw h (elim (Bool-cases (x == b';')) [ inl k ↦ rw k refl | inr k ↦ rw k refl ])

  read_loop-opening :
      (tail : Bytes)
      → read_loop e false false (b'\'' ∷ tail)
        ≡ with_bytes (b'\'' ∷ []) (read_loop e true true tail)
  unfolding read_loop whitespace
  read_loop-opening [] = refl
  read_loop-opening (d ∷ tail) = refl

  read_loop-semicolon :
      (rest : Bytes) → read_loop e false true (b';' ∷ rest) ≡ statement (b';' ∷ []) rest
  unfolding read_loop
  read_loop-semicolon [] = refl
  read_loop-semicolon (d ∷ rest) = refl

  read_loop-doubled :
      (tail : Bytes)
      → read_loop e true true (b'\'' ∷ b'\'' ∷ tail)
        ≡ with_bytes (b'\'' ∷ b'\'' ∷ []) (read_loop e true true tail)
  unfolding read_loop
  read_loop-doubled tail = refl

  read_loop-closing :
      (rest : Bytes)
      → read_loop e true true (b'\'' ∷ b';' ∷ rest)
        ≡ with_bytes (b'\'' ∷ []) (read_loop e false true (b';' ∷ rest))
  unfolding read_loop
  read_loop-closing rest = refl

  read_loop-double_quotes :
      (s rest : Bytes)
      → read_loop e true true (double_quotes s ++ b'\'' ∷ b';' ∷ rest)
        ≡ with_bytes (double_quotes s ++ b'\'' ∷ []) (read_loop e false true (b';' ∷ rest))
  unfolding double_quotes
  read_loop-double_quotes [] rest = read_loop-closing rest
  read_loop-double_quotes (x ∷ xs) rest = elim (Bool-cases (x == b'\'')) [
    | inl h ↦ rw h (
        read_loop-doubled _
        ∙ ap (with_bytes (b'\'' ∷ b'\'' ∷ [])) (read_loop-double_quotes xs rest)
        ∙ with_bytes-append (b'\'' ∷ b'\'' ∷ []) (double_quotes xs ++ b'\'' ∷ []) _)
    | inr h ↦ rw h (
        read_loop-plain x _ h
        ∙ ap (with_bytes (x ∷ [])) (read_loop-double_quotes xs rest)
        ∙ with_bytes-append (x ∷ []) (double_quotes xs ++ b'\'' ∷ []) _)
  ]

  -- The text of `SQLString`, with a semicolon behind it at the start of the input, is what
  -- `readStatement` reads, whatever the text holds: a semicolon or a quote in it ends nothing.
  pub read_statement-sql_string :
      (s rest : Bytes)
      → read_statement e (sql_string s ++ b';' ∷ rest) ≡ statement (sql_string s ++ b';' ∷ []) rest
  unfolding read_statement sql_string with_bytes
  read_statement-sql_string s rest =
      rw (append_assoc (double_quotes s) (b'\'' ∷ []) (b';' ∷ rest)) (
        read_loop-opening (double_quotes s ++ b'\'' ∷ b';' ∷ rest)
        ∙ ap (with_bytes (b'\'' ∷ [])) (
            read_loop-double_quotes s rest
            ∙ ap (with_bytes (double_quotes s ++ b'\'' ∷ [])) (read_loop-semicolon rest)))
