-- ===== src/Dbms/Number.antt =====
-- `strconv.ParseInt(text, 10, 64)`, which server/dbms/parser.go calls.
use tac_os.Base.{
  ℤ, pos, negsuc, ℕ, zero, suc, ◌+◌, ◌-◌, ◌*◌, ◌^◌, ◌==◌, leb, ltb, if◌then◌else◌, Bool, true,
  false, ◌&&◌, Bytes, [], ◌∷◌, Option, none, some,
}

-- The digits read so far stand for `n`.
unfoldable pub parse_digits : ℕ → Bytes → Option ℕ
parse_digits n [] = some n
parse_digits n (c ∷ cs) =
    let rest = parse_digits (n * 10 + (c - b'0')) cs in
    if leb b'0' c && leb c b'9' then rest else none

abbrev pub parse_unsigned : Bytes → Option ℕ
parse_unsigned [] = none
parse_unsigned (c ∷ cs) = parse_digits 0 (c ∷ cs)

abbrev pub negate : ℕ → ℤ
negate zero = pos 0
negate (suc n) = negsuc n

-- a result outside the signed 64-bit range is an error
abbrev pub in_range : Bool → ℕ → Option ℤ
in_range true n = if ltb (2 ^ 63) n then none else some (negate n)
in_range false n = if leb (2 ^ 63) n then none else some (pos n)

abbrev pub signed : Bool → Option ℕ → Option ℤ
signed neg none = none
signed neg (some n) = in_range neg n

unfoldable pub parse_int : Bytes → Option ℤ
unfolding parse_digits
parse_int [] = none
parse_int (c ∷ cs) =
    if c == b'-'
    then signed true (parse_unsigned cs)
    else if c == b'+'
    then signed false (parse_unsigned cs)
    else signed false (parse_unsigned (c ∷ cs))
