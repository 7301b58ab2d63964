-- ===== src/Dbms/Parser/Parts.antt =====
-- server/dbms/parser.go: tokens, identifiers, types and literals. The state is the list of the tokens from
-- `index` on; a read behind the last token is a panic. Loops take fuel, the number of tokens.
use tac_os.Base.{
  ℤ, ℕ, zero, suc, ◌+◌, leb, if◌then◌else◌, Bool, true, false, ◌&&◌, ◌||◌, not, Bytes, codes,
  bytes_eq, List, [], ◌∷◌, ◌++◌, map, Option, none, some,
}
use tac_os.Dbms.Lexer.{
  Kind, word, integer_literal, real_literal, text_literal, comma, kind_eq, Token,
}
use tac_os.Dbms.Number.{parse_int}
use tac_os.Dbms.Outcome.{ok, panic, no_fuel}
use tac_os.Dbms.Parser.Monad.{Parse, pure, current, reject, ◌>>=◌}
use tac_os.Dbms.Statement.{Identifier, Literal}
use tac_os.Dbms.Value.{Float64, SqlType, integer, real, text, Value, zero_value}

unfoldable pub fail {ℓ} : {A : Type ℓ} → Bytes → Parse A
fail message = do t ← current; reject t.position message

unfoldable pub take : Kind → Parse Bool
take k [] = panic
take k (t ∷ ts) = if kind_eq t.kind k then ok (true, ts) else ok (false, t ∷ ts)

-- `strings.EqualFold`, on the ASCII text of a word
abbrev fold : ℕ → ℕ
fold c = if leb b'A' c && leb c b'Z' then c + 32 else c

unfoldable pub equal_fold : Bytes → Bytes → Bool
unfolding bytes_eq
equal_fold a b = bytes_eq (map fold a) (map fold b)

unfoldable pub take_keyword : Bytes → Parse Bool
take_keyword keyword [] = panic
take_keyword keyword (t ∷ ts) =
    if not (kind_eq t.kind word) || not (equal_fold t.text keyword)
    then ok (false, t ∷ ts)
    else ok (true, ts)

unfoldable pub require : Kind → Bytes → Parse (Unit {0})
require k message = do found ← take k; if found then pure tt else fail message

unfoldable pub require_keyword : Bytes → Parse (Unit {0})
require_keyword keyword = do
  found ← take_keyword keyword
  if found then pure tt else fail (codes "Expected keyword " ++ keyword)

unfoldable pub identifier : Parse Identifier
identifier = do
  t ← current
  found ← take word
  if found
      then pure (record { name = t.text; position = t.position })
      else fail (codes "Expected an identifier")

unfoldable pub identifiers : ℕ → Parse (List Identifier)
identifiers zero = λ _. no_fuel
identifiers (suc fuel) =
    let more = identifiers fuel in
    do
      id ← identifier
      comma_follows ← take comma
      if comma_follows then (do ids ← more; pure (id ∷ ids)) else pure (id ∷ [])

unfoldable pub value_type : Parse SqlType
value_type = do
  is_integer ← take_keyword (codes "INTEGER")
  if is_integer then pure integer else do
    is_real ← take_keyword (codes "REAL")
    if is_real then pure real else do
      is_text ← take_keyword (codes "TEXT")
      if is_text then pure text else fail (codes "Expected type INTEGER, REAL or TEXT")

module _ {F : Type 0} ⦃float : Float64 F⦄ where
  unfoldable pub text_value : Bytes → Value F
  text_value s = record zero_value { type_id = text; text = s }

  unfoldable pub integer_of : Token → Option ℤ → Parse (Value F)
  integer_of t none = reject t.position (codes "INTEGER literal is outside the signed 64-bit range")
  integer_of t (some n) = pure (record zero_value { type_id = integer; integer = n })

  unfoldable pub real_of : Token → Option F → Parse (Value F)
  real_of t none = reject t.position (codes "REAL literal is outside the finite double range")
  real_of t (some x) =
      if float.is_inf x || float.is_nan x
      then reject t.position (codes "REAL literal is outside the finite double range")
      else pure (record zero_value { type_id = real; real = x })

  -- the `switch`
  unfoldable pub literal_value : Token → Parse (Value F)
  literal_value t = do
    is_text ← take text_literal
    if is_text then pure (text_value t.text) else do
      is_integer ← take integer_literal
      if is_integer then integer_of t (parse_int t.text) else do
        is_real ← take real_literal
        if is_real
            then real_of t (float.parse_float t.text)
            else fail (codes "Expected an INTEGER, REAL or TEXT literal")

  unfoldable pub literal : Parse (Literal F)
  unfolding literal_value text_value integer_of real_of
  literal = do t ← current; v ← literal_value t; pure (record { value = v; position = t.position })
