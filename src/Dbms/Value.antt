-- ===== src/Dbms/Value.antt =====
-- server/dbms/value.go: types, values and results. A float64 is a parameter: its type, its zero
-- value, Go's `==` on it, and what strconv and math say of it.
use tac_os.Base.{ℤ, pos, int_eq, Bool, true, false, ◌&&◌, Bytes, bytes_eq, List, [], Option}

pub record Float64 (F : Type 0) : Type 0 where
  pub zero_value : F
  pub equals : F → F → Bool
  pub parse_float : Bytes → Option F
  pub is_inf : F → Bool
  pub is_nan : F → Bool

pub data SqlType : Type 0 where
  integer real text : SqlType

abbrev pub type_eq : SqlType → SqlType → Bool
type_eq integer integer = true
type_eq real real = true
type_eq text text = true
type_eq _ _ = false

pub record Value (F : Type 0) : Type 0 where
  pub type_id : SqlType
  pub integer : ℤ
  pub real : F
  pub text : Bytes

pub record Result (F : Type 0) : Type 0 where
  pub columns : List Bytes
  pub types : List SqlType
  pub rows : List (List (Value F))

module _ {F : Type 0} where
  abbrev pub empty_result : Result F
  empty_result = record { columns = []; types = []; rows = [] }

module _ {F : Type 0} ⦃float : Float64 F⦄ where
  -- `Value{}`
  abbrev pub zero_value : Value F
  zero_value = record { type_id = integer; integer = pos 0; real = float.zero_value; text = [] }

  -- Go's `==` on the struct
  unfoldable pub value_eq : Value F → Value F → Bool
  value_eq a b =
      type_eq a.type_id b.type_id
      && int_eq a.integer b.integer
      && float.equals a.real b.real
      && bytes_eq a.text b.text
