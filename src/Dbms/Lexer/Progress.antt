-- ===== src/Dbms/Lexer/Progress.antt =====
-- server/dbms/lexer.go: the tokens that `lex` returns, and where they lie.
use tac_os.Base.{
  ℕ, zero, suc, ◌+◌, ◌<◌, ◌≤◌, ◌≡◌, ◌≢◌, refl, arith, ◌==◌, Bool, not, ◌&&◌, ◌||◌, true, Bytes,
  List, [], ◌∷◌, ◌++◌, length, length-append, Option, none, some,
}
use tac_os.Dbms.Lexer.{
  Kind, word, integer_literal, real_literal, left_paren, right_paren, comma, equal, star, semicolon,
  end, Token, Lexed, digit, letter, whitespace, span, digit_next, token_of, lex_word, lex_fraction,
  lex_number, quoted, text_token, lex_text, lex_symbol, lex_token, lex_from, lex,
}
use tac_os.Dbms.Outcome.{ok, Returns, returned, failed, Returns-bind, Returns-map, Returns-if}

length-span : (p : ℕ → Bool) (cs : Bytes) → length (span p cs).0 + length (span p cs).1 ≡ length cs
unfolding span
length-span p [] = refl
length-span p (c ∷ cs) = ground (arith, length-span p cs)

-- A token read at `i` from a source of `m` bytes, with what is left behind it.
pub record ReadAt (i m : ℕ) (l : Lexed) : Type 0 where
  pub starts : l.0.position ≡ i
  pub not_end : l.0.kind ≢ end
  pub forward : i < l.1
  pub left : l.1 + length l.2 ≡ i + m

-- `token_of` moves by the length of its text.
token_of-ReadAt :
    (k : Kind) (i m : ℕ) (txt after : Bytes)
    → k ≢ end
    → 0 < length txt
    → length txt + length after ≡ m
    → ReadAt i m (token_of k i txt after)
token_of-ReadAt k i m txt after ne h e = record {
  starts = refl;
  not_end = ne;
  forward = omega arith;
  left = omega arith;
}

lex_word-ReadAt : (i c : ℕ) (rest : Bytes) → ReadAt i (suc (length rest)) (lex_word i c rest)
unfolding lex_word
lex_word-ReadAt i c rest =
    token_of-ReadAt word i _ _ _ (λ e. cc) (omega arith)
      (omega (arith, length-span (λ x. letter x || digit x) rest))

lex_fraction-Returns :
    (i m : ℕ) (txt rest : Bytes)
    → 0 < length txt
    → length txt + length rest ≡ m
    → Returns (i + m) (ReadAt i m) (lex_fraction i txt rest)
unfolding lex_fraction
lex_fraction-Returns i m txt [] h e =
    returned (token_of-ReadAt integer_literal i m txt [] (λ e. cc) h e)
lex_fraction-Returns i m txt (c ∷ rest) h e =
    Returns-if (c == b'.')
      (λ _.
        Returns-if (not (digit_next rest)) (λ _. failed (omega arith))
          (λ _. returned (
            token_of-ReadAt real_literal i m _ _ (λ e. cc)
              (omega (arith, length-append txt (c ∷ (span digit rest).0)))
              (omega
                (arith, length-append txt (c ∷ (span digit rest).0), length-span digit rest)))))
      (λ _. returned (token_of-ReadAt integer_literal i m txt (c ∷ rest) (λ e. cc) h e))

lex_number-Returns :
    (i c : ℕ) (rest : Bytes)
    → Returns (i + suc (length rest)) (ReadAt i (suc (length rest))) (lex_number i c rest)
unfolding lex_number
lex_number-Returns i c rest =
    Returns-if (c == b'-' && not (digit_next rest)) (λ _. failed (omega arith))
      (λ _.
        lex_fraction-Returns i _ (c ∷ (span digit rest).0) (span digit rest).1 (omega arith)
          (omega (arith, length-span digit rest)))

-- Where a TEXT literal that starts at `i` closes.
abbrev Closes : ℕ → Bytes → Option (Bytes × ℕ × Bytes) → Type 0
Closes i s none = Unit
Closes i s (some (_, j, after)) = (i < j) × (j + length after ≡ i + length s)

quoted-Closes : (i : ℕ) (decoded s : Bytes) → Closes i s (quoted i decoded s)
unfolding quoted
quoted-Closes i decoded [] = tt
quoted-Closes i decoded (c ∷ []) = ground arith
quoted-Closes i decoded (c ∷ d ∷ rest) = ground (
  arith,
  quoted-Closes (i + 1) (decoded ++ c ∷ []) (d ∷ rest),
  quoted-Closes (i + 2) (decoded ++ b'\'' ∷ []) rest,
)

text_token-Returns :
    (i : ℕ) (rest : Bytes) (q : Option (Bytes × ℕ × Bytes))
    → Closes (i + 1) rest q
    → Returns (i + suc (length rest)) (ReadAt i (suc (length rest))) (text_token i q)
unfolding text_token
text_token-Returns i rest none h = failed (omega arith)
text_token-Returns i rest (some (decoded, j, after)) h =
    returned
      (record { starts = refl; not_end = λ e. cc; forward = omega arith; left = omega arith })

lex_text-Returns :
    (i : ℕ) (rest : Bytes)
    → Returns (i + suc (length rest)) (ReadAt i (suc (length rest))) (lex_text i rest)
unfolding lex_text
lex_text-Returns i rest = text_token-Returns i rest _ (quoted-Closes (i + 1) [] rest)

lex_symbol-Returns :
    (i c : ℕ) (rest : Bytes)
    → Returns (i + suc (length rest)) (ReadAt i (suc (length rest))) (lex_symbol i c rest)
unfolding lex_symbol
lex_symbol-Returns i c rest = Returns-if (c == b'(') (one left_paren (λ e. cc)) (λ _.
    Returns-if (c == b')') (one right_paren (λ e. cc)) (λ _.
      Returns-if (c == b',') (one comma (λ e. cc)) (λ _.
        Returns-if (c == b'=') (one equal (λ e. cc)) (λ _.
          Returns-if (c == b'*') (one star (λ e. cc))
            (λ _. Returns-if (c == b';') (one semicolon (λ e. cc)) (λ _. failed (omega arith)))))))
  where
    one :
        {b : Bool} (k : Kind)
        → k ≢ end
        → b ≡ true
        → Returns
            (i + suc (length rest))
            (ReadAt i (suc (length rest)))
            (ok (token_of k i (c ∷ []) rest))
    one k ne _ = returned (token_of-ReadAt k i _ (c ∷ []) rest ne (omega arith) (omega arith))

-- One round reads a token at `i`, or fails inside the source.
pub lex_token-Returns :
    (i c : ℕ) (rest : Bytes)
    → Returns (i + suc (length rest)) (ReadAt i (suc (length rest))) (lex_token i c rest)
unfolding lex_token
lex_token-Returns i c rest =
    Returns-if (letter c) (λ _. returned (lex_word-ReadAt i c rest))
      (λ _.
        Returns-if (digit c || c == b'-') (λ _. lex_number-Returns i c rest)
          (λ _.
            Returns-if (c == b'\'') (λ _. lex_text-Returns i rest)
              (λ _. lex_symbol-Returns i c rest)))

-- Tokens at ascending positions from `i` on; the last, and no other, is `end`, at position `n`.
pub data Tokens (n : ℕ) : ℕ → List Token → Type 0 where
  finish : {i : ℕ} {t : Token} → t.kind ≡ end → t.position ≡ n → i ≤ n → Tokens n i (t ∷ [])
  next :
      {i : ℕ} {t : Token} {ts : List Token}
      → t.kind ≢ end
      → i ≤ t.position
      → Tokens n (suc t.position) ts
      → Tokens n i (t ∷ ts)

Tokens-earlier : {n i j : ℕ} {ts : List Token} → i ≤ j → Tokens n j ts → Tokens n i ts
Tokens-earlier h (finish k p l) = finish k p (omega arith)
Tokens-earlier h (next k p l) = next k (omega arith) l

lex_from-Tokens :
    (fuel i n : ℕ) (source : Bytes)
    → length source < fuel
    → i + length source ≡ n
    → Returns n (Tokens n i) (lex_from fuel i source)
unfolding lex_from
lex_from-Tokens zero i n source h e = absurd (omega arith)
lex_from-Tokens (suc fuel) i n [] h e = returned (finish refl (omega arith) (omega arith))
lex_from-Tokens (suc fuel) i n (c ∷ rest) h e =
    Returns-if (whitespace c)
      (λ _.
        Returns-map (λ ts. Tokens-earlier (omega arith))
          (lex_from-Tokens fuel (i + 1) n rest (omega arith) (omega arith)))
      (λ _. Returns-bind _ (rw e at (lex_token-Returns i c rest)) (λ (t, j, after) r.
        Returns-bind _
          (lex_from-Tokens fuel j n after (omega (arith, r.left, r.forward))
            (omega (arith, r.left)))
          (λ ts more. returned (
            next r.not_end (omega (arith, r.starts))
              (Tokens-earlier (omega (arith, r.starts, r.forward)) more)))))

-- For every source the lexer ends without a panic: with tokens in the order of the source, closed
-- by one `end` token at its length, or with an error at an offset of the source or at its end.
pub lex-Tokens : (source : Bytes) → Returns (length source) (Tokens (length source) 0) (lex source)
unfolding lex
lex-Tokens source =
    lex_from-Tokens (suc (length source)) 0 (length source) source (omega arith) (omega arith)
