-- ===== src/Dbms/Cli/Numbers.antt =====
-- server/dbms/internal/cli/cli.go: the display of integers, against the parser of literals.
use tac_os.Base.{
  ℕ, zero, suc, ◌+◌, ◌*◌, ◌/◌, ◌%◌, ◌^◌, ◌≤◌, ◌<◌, ◌==◌, leb, ltb, ◌≡◌, refl, ap, ◌∙◌, arith, ℤ,
  pos, negsuc, true, false, ◌&&◌, Bool-cases, inl, inr, Bytes, [], ◌∷◌, some,
}
use tac_os.Dbms.Cli.Printing.{digits, format_nat, format_int}
use tac_os.Dbms.Number.{parse_digits, parse_unsigned, signed, parse_int}

-- One more digit.
parse_digits-digit :
    (m d : ℕ) (later : Bytes)
    → d < 10
    → parse_digits m ((b'0' + d) ∷ later) ≡ parse_digits (m * 10 + d) later
unfolding parse_digits
parse_digits-digit m d later h =
    let valid : (leb b'0' (b'0' + d) && leb (b'0' + d) b'9') ≡ true = ground arith in
    rw valid (ap (λ k. parse_digits k later) (omega arith))

parse_digits-digits :
    (fuel n : ℕ) (later : Bytes)
    → n < fuel
    → parse_digits 0 (digits fuel n later) ≡ parse_digits n later
unfolding digits
parse_digits-digits zero n later h = absurd (omega arith)
parse_digits-digits (suc fuel) n later h = elim (Bool-cases (ltb n 10)) [
  | inl e ↦ rw e (
      parse_digits-digit 0 n later (ground (arith, e))
      ∙ ap (λ k. parse_digits k later) (omega arith))
  | inr e ↦ rw e (
      parse_digits-digits fuel (n / 10) ((b'0' + n % 10) ∷ later) (ground (arith, e))
      ∙ parse_digits-digit (n / 10) (n % 10) later (omega arith)
      ∙ ap (λ k. parse_digits k later) (omega arith))
]

-- The first of the digits is one.
abbrev StartsWithDigit : Bytes → Type 0
StartsWithDigit [] = ⊥
StartsWithDigit (c ∷ cs) = b'0' ≤ c

digits-StartsWithDigit :
    (fuel n : ℕ) (later : Bytes) → n < fuel → StartsWithDigit (digits fuel n later)
unfolding digits
digits-StartsWithDigit zero n later h = absurd (omega arith)
digits-StartsWithDigit (suc fuel) n later h = elim (Bool-cases (ltb n 10)) [
  | inl e ↦ rw e (omega arith)
  | inr e ↦
      rw e (digits-StartsWithDigit fuel (n / 10) ((b'0' + n % 10) ∷ later) (ground (arith, e)))
]

unsigned : (n : ℕ) → parse_digits 0 (format_nat n) ≡ some n
unsigned n = parse_digits-digits (suc n) n [] (omega arith) ∙ (unfold parse_digits in refl)

parse_unsigned-same : (s : Bytes) → StartsWithDigit s → parse_unsigned s ≡ parse_digits 0 s
parse_unsigned-same [] h = absurd h
parse_unsigned-same (c ∷ cs) h = refl

parse_int-unsigned : (s : Bytes) → StartsWithDigit s → parse_int s ≡ signed false (parse_digits 0 s)
unfolding parse_int
parse_int-unsigned [] h = absurd h
parse_int-unsigned (c ∷ cs) h =
    let minus : c == b'-' ≡ false = ground arith in
    let plus : c == b'+' ≡ false = ground arith in rw (minus, plus) refl

-- The integers of 64 bits.
abbrev pub IsInt64 : ℤ → Type 0
IsInt64 (pos n) = n < 2 ^ 63
IsInt64 (negsuc n) = n < 2 ^ 63

-- Any integer of 64 bits, as the command line shows it, is a literal that the parser reads as the
-- same integer.
pub parse_int-format_int : (x : ℤ) → IsInt64 x → parse_int (format_int x) ≡ some x
unfolding format_int parse_int
parse_int-format_int (pos n) h =
    let fits : leb (2 ^ 63) n ≡ false = ground arith in
    parse_int-unsigned (format_nat n) (digits-StartsWithDigit (suc n) n [] (omega arith))
    ∙ rw (unsigned n, fits) refl
parse_int-format_int (negsuc n) h =
    let fits : ltb (2 ^ 63) (suc n) ≡ false = ground arith in
    rw
      (
        parse_unsigned-same (format_nat (suc n))
            (digits-StartsWithDigit (suc (suc n)) (suc n) [] (omega arith)),
        unsigned (suc n),
        fits,
      )
      refl
