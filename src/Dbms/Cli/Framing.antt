-- ===== src/Dbms/Cli/Framing.antt =====
-- server/dbms/internal/cli/cli.go: how `readStatement` divides the input.
use tac_os.Base.{
  ℕ, ◌≤◌, ◌≡◌, refl, ap, ◌∙◌, arith, ◌==◌, if◌then◌else◌, Bool, true, false, not, ◌&&◌, ◌||◌, Bytes,
  [], ◌∷◌, ◌++◌, append_assoc, length, subst, sym,
}
use tac_os.Dbms.Cli.Reading.{
  InputEnd, at_eof, broken, ReadResult, statement, finished, read_failed, with_bytes, read_end,
  read_loop, read_statement,
}
use tac_os.Dbms.Lexer.{whitespace}

-- What is read and what is left make up the input; what is read is not empty where the loop had
-- nothing before.
abbrev pub Splits : Bool → Bytes → ReadResult → Type 0
Splits has_content input (statement source rest) =
    (input ≡ source ++ rest) × (has_content ≡ false → 1 ≤ length source)
Splits has_content input finished = Unit
Splits has_content input read_failed = Unit

with_bytes-Splits :
    (h k : Bool) (c : ℕ) (bytes input : Bytes) (r : ReadResult)
    → Splits k input r
    → Splits h (c ∷ (bytes ++ input)) (with_bytes (c ∷ bytes) r)
unfolding with_bytes
with_bytes-Splits h k c bytes input (statement source rest) (e, more) = (
  ap (λ xs. c ∷ (bytes ++ xs)) e ∙ ap (λ xs. c ∷ xs) (sym (append_assoc bytes source rest)),
  λ _. omega arith,
)
with_bytes-Splits h k c bytes input finished s = tt
with_bytes-Splits h k c bytes input read_failed s = tt

read_end-Splits : (h : Bool) (e : InputEnd) → Splits h [] (read_end h e)
unfolding read_end
read_end-Splits true at_eof = (refl, λ e. cc)
read_end-Splits false at_eof = tt
read_end-Splits h broken = tt

Splits-if :
    (h : Bool) (input : Bytes) (x y : ReadResult) (b : Bool)
    → Splits h input x
    → Splits h input y
    → Splits h input (if b then x else y)
Splits-if h input x y true p q = p
Splits-if h input x y false p q = q

read_loop-Splits :
    (e : InputEnd) (quoted h : Bool) (input : Bytes) → Splits h input (read_loop e quoted h input)
unfolding read_loop
read_loop-Splits e quoted h [] = read_end-Splits h e
read_loop-Splits e quoted h (c ∷ []) =
    let last = with_bytes-Splits h _ c [] [] _ (read_end-Splits (h || not (whitespace c)) e) in
    Splits-if _ _ _ _ (c == b'\'') last
      (Splits-if _ _ _ _ (c == b';' && not quoted) (refl, λ _. omega arith) last)
read_loop-Splits e quoted h (c ∷ d ∷ rest) =
    let content = h || not (whitespace c) in
    Splits-if _ _ _ _ (c == b'\'')
      (Splits-if _ _ _ _ (quoted && d == b'\'')
        (with_bytes-Splits h content c (d ∷ []) rest _ (read_loop-Splits e quoted content rest))
        (with_bytes-Splits h content c [] (d ∷ rest) _
          (read_loop-Splits e (not quoted) content (d ∷ rest))))
      (Splits-if _ _ _ _ (c == b';' && not quoted) (refl, λ _. omega arith)
        (with_bytes-Splits h content c [] (d ∷ rest) _
          (read_loop-Splits e quoted content (d ∷ rest))))

Splits-statement :
    {h : Bool} {input source rest : Bytes} (r : ReadResult)
    → Splits h input r
    → r ≡ statement source rest
    → (input ≡ source ++ rest) × (h ≡ false → 1 ≤ length source)
Splits-statement {h} {input} r s e = subst (Splits h input) e s

-- A statement that `readStatement` returns is a prefix of the input and not empty, and the rest of
-- the input is left.
pub read_statement-splits :
    (e : InputEnd) (input source rest : Bytes)
    → read_statement e input ≡ statement source rest
    → (input ≡ source ++ rest) × (1 ≤ length source)
unfolding read_statement
read_statement-splits e input source rest h =
    let (split, more) = Splits-statement _ (read_loop-Splits e false false input) h in
    (split, more refl)
