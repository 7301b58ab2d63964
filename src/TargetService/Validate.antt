-- ===== src/TargetService/Validate.antt =====
-- target-service/dbclient/client.go: `validate`, over a response as the JSON decoder leaves it.
pub mod Accepted
mod Tests
use tac_os.Base.{
  ℤ, ℕ, ◌+◌, ◌==◌, if◌then◌else◌, Bool, true, false, not, ◌&&◌, ◌||◌, Bytes, codes, bytes_eq, List,
  [], ◌∷◌, length, Option, none, some, pos, negsuc,
}
use tac_os.Dbms.Number.{parse_int}

pub record Column : Type 0 where
  pub name : Bytes
  pub type_name : Bytes

pub record ErrorInfo : Type 0 where
  pub code : Bytes
  pub message : Bytes
  pub position : Option ℤ

-- what `any` holds with `UseNumber`: a string, the text of a number, or something else
pub data Json : Type 0 where
  json_string json_number : Bytes → Json
  json_other : Json

pub record WireResult : Type 0 where
  pub ok : Bool
  pub columns : List Column
  pub rows : List (List Json)
  pub failure : Option ErrorInfo

unfoldable pub is_type : Bytes → Bool
is_type t = bytes_eq t (codes "TEXT") || bytes_eq t (codes "INTEGER") || bytes_eq t (codes "REAL")

-- the loop over the columns
unfoldable pub columns_valid : List Column → Bool
unfolding is_type
columns_valid [] = true
columns_valid (c ∷ cs) = not (bytes_eq c.name [] || not (is_type c.type_name)) && columns_valid cs

abbrev pub is_string : Json → Bool
is_string (json_string s) = true
is_string _ = false

abbrev pub is_given : {A : Type 0} → Option A → Bool
is_given none = false
is_given (some x) = true

-- `num.Int64()`
abbrev pub is_int64 : Json → Bool
is_int64 (json_number t) = is_given (parse_int t)
is_int64 _ = false

abbrev pub is_negative : ℤ → Bool
is_negative (pos n) = false
is_negative (negsuc n) = true

-- `r.Error.Position == nil || *r.Error.Position < 0` fails
abbrev pub is_position : Option ℤ → Bool
is_position none = false
is_position (some n) = not (is_negative n)

unfoldable pub failure_valid : Option ErrorInfo → Bool
failure_valid none = false
failure_valid (some e) =
    if bytes_eq e.code [] || bytes_eq e.message []
    then false
    else if bytes_eq e.code (codes "SQL_ERROR")
    then is_position e.position
    else not (is_given e.position)

-- `parses` says that strconv.ParseFloat of a text returns no error.
module _ (parses : Bytes → Bool) where
  -- `num.Float64()`
  abbrev pub is_float64 : Json → Bool
  is_float64 (json_number t) = parses t
  is_float64 _ = false

  -- the `switch` on the type
  unfoldable pub cell_valid : Bytes → Json → Bool
  cell_valid t v =
      if bytes_eq t (codes "TEXT")
      then is_string v
      else if bytes_eq t (codes "INTEGER")
      then is_int64 v
      else if bytes_eq t (codes "REAL")
      then is_float64 v
      else true

  -- the loop over a row that is as wide as the columns
  unfoldable pub cells_valid : List Column → List Json → Bool
  unfolding cell_valid
  cells_valid [] row = true
  cells_valid (c ∷ cs) [] = true
  cells_valid (c ∷ cs) (v ∷ vs) = cell_valid c.type_name v && cells_valid cs vs

  -- the loop over the rows
  unfoldable pub rows_valid : List Column → List (List Json) → Bool
  unfolding cells_valid
  rows_valid columns [] = true
  rows_valid columns (row ∷ rows) =
      not (not (length row == length columns)) && cells_valid columns row && rows_valid columns rows

  -- `validate` returns no error
  unfoldable pub validate : WireResult → Bool
  unfolding rows_valid columns_valid failure_valid
  validate r =
      if r.ok
      then not (is_given r.failure) && columns_valid r.columns && rows_valid r.columns r.rows
      else failure_valid r.failure
