-- ===== src/Dbms/Cli/Printing.antt =====
-- server/dbms/internal/cli/cli.go: `display` and `printResult`.
use tac_os.Base.{
  ℕ, zero, suc, ◌+◌, ◌/◌, ◌%◌, ◌==◌, ltb, if◌then◌else◌, ℤ, pos, negsuc, Bytes, codes, List, [],
  ◌∷◌, ◌++◌, length, map,
}
use tac_os.Dbms.Value.{SqlType, integer, real, text, Value, Result}

-- the digits of `n`, the last first out of `fuel` rounds; `n + 1` rounds are enough
unfoldable pub digits : ℕ → ℕ → Bytes → Bytes
digits zero n later = later
digits (suc fuel) n later =
    let more = digits fuel (n / 10) ((b'0' + n % 10) ∷ later) in
    if ltb n 10 then (b'0' + n) ∷ later else more

abbrev pub format_nat : ℕ → Bytes
format_nat n = digits (suc n) n []

-- `strconv.FormatInt(n, 10)`
unfoldable pub format_int : ℤ → Bytes
unfolding digits
format_int (pos n) = format_nat n
format_int (negsuc n) = b'-' ∷ format_nat (suc n)

-- the replacer
abbrev escape_byte : ℕ → Bytes
escape_byte c =
    if c == b'\''
    then codes "''"
    else if c == b'\\'
    then codes "\\\\"
    else if c == b'\n'
    then codes "\\n"
    else if c == b'\r'
    then codes "\\r"
    else if c == b'\t'
    then codes "\\t"
    else c ∷ []

unfoldable pub escape : Bytes → Bytes
escape [] = []
escape (c ∷ cs) = escape_byte c ++ escape cs

-- `strings.Join(values, "\t")`
unfoldable pub join_tabs : List Bytes → Bytes
join_tabs [] = []
join_tabs (v ∷ []) = v
join_tabs (v ∷ w ∷ vs) = v ++ b'\t' ∷ join_tabs (w ∷ vs)

module _ {F : Type 0} (format_float : F → Bytes) where
  abbrev display_as : SqlType → Value F → Bytes
  display_as integer v = format_int v.integer
  display_as real v = format_float v.real
  display_as text v = b'\'' ∷ (escape v.text ++ b'\'' ∷ [])

  unfoldable pub display : Value F → Bytes
  unfolding format_int escape
  display v = display_as v.type_id v

  -- the lines of `printResult`, without their ends
  unfoldable pub result_lines : Result F → List Bytes
  unfolding display join_tabs
  result_lines r =
      if length r.columns == 0
      then codes "OK" ∷ []
      else join_tabs r.columns
        ∷ (map (λ row. join_tabs (map display row)) r.rows
            ++ (format_nat (length r.rows) ++ codes " row(s)") ∷ [])
