-- ===== src/MarkerDetect/Ipc/Request.antt =====
-- prototypes/marker-detect/ipc/protocol.go: `parseRequest`, over the tokens that the JSON decoder
-- reads from the line. The decoder is Go's library: its stream is an argument.
pub mod Exact
use tac_os.Base.{
  ℕ, ◌==◌, Bool, true, false, not, ◌&&◌, if◌then◌else◌, Bytes, bytes_eq, codes, List, [], ◌∷◌,
  Option, none, some,
}

pub data Token : Type 0 where
  -- a bracket or a brace
  delim : ℕ → Token
  -- a string, also a key
  string : Bytes → Token
  -- a number, a Boolean or null
  scalar : Token

-- What the calls of `Token` give one after the other.
pub data Tokens : Type 0 where
  -- `io.EOF`, also inside an object
  end : Tokens
  -- any other error; with whether `More` finds a byte there that closes nothing
  malformed : Bool → Tokens
  token : Token → Tokens → Tokens

pub data BadRequest : Type 0 where
  invalid_json not_object duplicate_field not_string extra_bytes missing_field : BadRequest
  unknown_field unknown_command : Bytes → BadRequest

abbrev pub is_closing : ℕ → Bool
is_closing c = if c == b'}' then true else c == b']'

-- `dec.More()`
unfoldable pub more : Tokens → Bool
more end = false
more (malformed b) = b
more (token (delim c) rest) = not (is_closing c)
more (token (string s) rest) = true
more (token scalar rest) = true

-- `key, _ := tok.(string)`
unfoldable pub key_of : Token → Bytes
key_of (delim c) = []
key_of (string s) = s
key_of scalar = []

-- the tests behind the closing brace
unfoldable pub check_command : Option Bytes → Option BadRequest
check_command none = some missing_field
check_command (some command) =
    if bytes_eq command (codes "DETECT") then none else some (unknown_command command)

unfoldable pub check_end : Option Bytes → Tokens → Option BadRequest
unfolding check_command
check_end command end = check_command command
check_end command (malformed b) = some extra_bytes
check_end command (token t rest) = some extra_bytes

unfoldable pub check_closing : Option Bytes → Tokens → Option BadRequest
unfolding check_end
check_closing command end = some invalid_json
check_closing command (malformed b) = some invalid_json
check_closing command (token t rest) = check_end command rest

unfoldable pub has_command : Option Bytes → Bool
has_command none = false
has_command (some command) = true

-- what `dec.Token` gives for the key, and the tests on it; `value` is what follows them
unfoldable pub read_field : Option Bytes → Token → Option BadRequest → Option BadRequest
unfolding key_of has_command bytes_eq
read_field command key value =
    if not (bytes_eq (key_of key) (codes "command"))
    then some (unknown_field (key_of key))
    else if has_command command
    then some duplicate_field
    else value

unfoldable mutual
  unfolding more check_closing read_field

  -- `for dec.More() { … }`
  pub read_fields : Option Bytes → Tokens → Option BadRequest
  read_fields command end = check_closing command end
  read_fields command (malformed b) =
      if b then some invalid_json else check_closing command (malformed b)
  read_fields command (token key rest) =
      let value = read_value rest in
      if more (token key rest)
      then read_field command key value
      else check_closing command (token key rest)

  -- the value of the field, and the rounds that follow
  pub read_value : Tokens → Option BadRequest
  read_value end = some invalid_json
  read_value (malformed b) = some invalid_json
  read_value (token (string s) rest) = read_fields (some s) rest
  read_value (token (delim c) rest) = some not_string
  read_value (token scalar rest) = some not_string

-- nothing, if the request is accepted
unfoldable pub parse_request : Tokens → Option BadRequest
unfolding read_fields read_value
parse_request end = some invalid_json
parse_request (malformed b) = some invalid_json
parse_request (token (delim c) rest) = if c == b'{' then read_fields none rest else some not_object
parse_request (token (string s) rest) = some not_object
parse_request (token scalar rest) = some not_object
