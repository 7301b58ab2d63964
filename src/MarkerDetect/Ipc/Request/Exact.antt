-- ===== src/MarkerDetect/Ipc/Request/Exact.antt =====
-- prototypes/marker-detect/ipc/protocol.go: the requests that `parseRequest` accepts.
use tac_os.Base.{
  ℕ, ◌≡◌, refl, ap, arith, ◌==◌, true, false, ◌↔◌, Bool-cases, inl, inr, Bytes, bytes_eq,
  bytes_eq_iff, codes, Option, none, some,
}
use tac_os.MarkerDetect.Ipc.Request.{
  Token, delim, string, scalar, Tokens, end, malformed, token, is_closing, more, check_command,
  BadRequest, unknown_command, unknown_field, duplicate_field, not_object, check_end, check_closing,
  has_command, key_of, read_field, read_fields, read_value, parse_request,
}

abbrev detect_command : Bytes
detect_command = codes "DETECT"

-- a token that closes, and nothing behind it
pub data Closes : Tokens → Type 0 where
  closes : {c : ℕ} → is_closing c ≡ true → Closes (token (delim c) end)

-- `{`, the one key, its one value, and the end
pub data IsDetect : Tokens → Type 0 where
  is_detect :
      {rest : Tokens}
      → Closes rest
      → IsDetect (
          token
            (delim b'{')
            (token (string (codes "command")) (token (string (codes "DETECT")) rest)))

-- What is accepted when `s` is the value of the field that was read.
data Ended (s : Bytes) (rest : Tokens) : Type 0 where
  ended : s ≡ detect_command → Closes rest → Ended s rest

check_command-none : (s : Bytes) → check_command (some s) ≡ none → s ≡ detect_command
unfolding check_command
check_command-none s h = elim (Bool-cases (bytes_eq s detect_command)) [
  | inl e ↦ (bytes_eq_iff s detect_command).0 e
  | inr e ↦ absurd (refused (rw e at h))
]
  where
    refused : some (unknown_command s) ≡ none → ⊥
    refused k = cc

-- A command that is refused for itself is not missing.
check_closing-Ended :
    (s : Bytes) (key : Token) (rest : Tokens)
    → more (token key rest) ≡ false
    → check_closing (some s) (token key rest) ≡ none
    → Ended s (token key rest)
unfolding check_closing check_end more
check_closing-Ended s (delim c) end m h = ended (check_command-none s h) (closes (ground arith))
check_closing-Ended s (delim c) (malformed b) m h = cc
check_closing-Ended s (delim c) (token t r) m h = cc
check_closing-Ended s (string t) rest m h = cc
check_closing-Ended s scalar rest m h = cc

read_field-again :
    (s : Bytes) (key : Token) (value : Option BadRequest) → read_field (some s) key value ≡ none → ⊥
unfolding read_field has_command
read_field-again s key value h = elim (Bool-cases (bytes_eq (key_of key) (codes "command"))) [
  | inl e ↦ never duplicate_field (rw e at h)
  | inr e ↦ never (unknown_field (key_of key)) (rw e at h)
]
  where
    never : (e : BadRequest) → some e ≡ none → ⊥
    never e k = cc

-- Behind a command only the end is accepted.
read_fields-Ended : (s : Bytes) (rest : Tokens) → read_fields (some s) rest ≡ none → Ended s rest
unfolding read_fields check_closing
read_fields-Ended s end h = cc
read_fields-Ended s (malformed true) h = cc
read_fields-Ended s (malformed false) h = cc
read_fields-Ended s (token key rest) h = elim (Bool-cases (more (token key rest))) [
  | inl e ↦ absurd (read_field-again s key (read_value rest) (rw e at h))
  | inr e ↦ check_closing-Ended s key rest e (rw e at h)
]

-- The one field and the end.
data OnlyField : Tokens → Type 0 where
  only_field :
      {rest : Tokens}
      → Closes rest
      → OnlyField (token (string (codes "command")) (token (string detect_command) rest))

key_of-command : (key : Token) → key_of key ≡ codes "command" → key ≡ string (codes "command")
unfolding key_of
key_of-command (delim c) e = cc
key_of-command (string s) e = ap string e
key_of-command scalar e = cc

read_field-command :
    (key : Token) (value : Option BadRequest)
    → read_field none key value ≡ none
    → (key ≡ string (codes "command")) × (value ≡ none)
unfolding read_field has_command
read_field-command key value h = elim (Bool-cases (bytes_eq (key_of key) (codes "command"))) [
  | inl e ↦ (key_of-command key ((bytes_eq_iff (key_of key) _).0 e), rw e at h)
  | inr e ↦ absurd (unknown (rw e at h))
]
  where
    unknown : some (unknown_field (key_of key)) ≡ none → ⊥
    unknown k = cc

field_of :
    {s : Bytes} {key : Token} {rest : Tokens}
    → key ≡ string (codes "command")
    → Ended s rest
    → OnlyField (token key (token (string s) rest))
field_of e (ended f c) = rw (e, f) (only_field c)

read_value-OnlyField :
    (key : Token) (rest : Tokens)
    → key ≡ string (codes "command")
    → read_value rest ≡ none
    → OnlyField (token key rest)
unfolding read_value
read_value-OnlyField key end k h = cc
read_value-OnlyField key (malformed b) k h = cc
read_value-OnlyField key (token (string s) rest) k h = field_of k (read_fields-Ended s rest h)
read_value-OnlyField key (token (delim c) rest) k h = cc
read_value-OnlyField key (token scalar rest) k h = cc

check_closing-missing : (rest : Tokens) → check_closing none rest ≡ none → ⊥
unfolding check_closing check_end check_command
check_closing-missing end h = cc
check_closing-missing (malformed b) h = cc
check_closing-missing (token t end) h = cc
check_closing-missing (token t (malformed b)) h = cc
check_closing-missing (token t (token u rest)) h = cc

read_fields-OnlyField : (rest : Tokens) → read_fields none rest ≡ none → OnlyField rest
unfolding read_fields
read_fields-OnlyField end h = absurd (check_closing-missing end h)
read_fields-OnlyField (malformed true) h = cc
read_fields-OnlyField (malformed false) h = absurd (check_closing-missing (malformed false) h)
read_fields-OnlyField (token key rest) h = elim (Bool-cases (more (token key rest))) [
  | inl e ↦
      let (k, v) = read_field-command key (read_value rest) (rw e at h) in
      read_value-OnlyField key rest k v
  | inr e ↦ absurd (check_closing-missing (token key rest) (rw e at h))
]

braced : {rest : Tokens} → OnlyField rest → IsDetect (token (delim b'{') rest)
braced (only_field c) = is_detect c

parse_request-IsDetect : (s : Tokens) → parse_request s ≡ none → IsDetect s
unfolding parse_request
parse_request-IsDetect end h = cc
parse_request-IsDetect (malformed b) h = cc
parse_request-IsDetect (token (string s) rest) h = cc
parse_request-IsDetect (token scalar rest) h = cc
parse_request-IsDetect (token (delim c) rest) h = elim (Bool-cases (c == b'{')) [
  | inl e ↦
      let brace : c ≡ b'{' = ground arith in
      rw brace (braced (read_fields-OnlyField rest (rw e at h)))
  | inr e ↦ absurd (refused (rw e at h))
]
  where
    refused : some not_object ≡ none → ⊥
    refused k = cc

read_fields-Closes : {rest : Tokens} → Closes rest → read_fields (some detect_command) rest ≡ none
unfolding read_fields check_closing check_end check_command more bytes_eq
read_fields-Closes (closes h) = rw h refl

IsDetect-parse_request : (s : Tokens) → IsDetect s → parse_request s ≡ none
unfolding parse_request read_fields read_value read_field has_command key_of more bytes_eq
IsDetect-parse_request s (is_detect c) = read_fields-Closes c

-- A request is accepted exactly when its tokens are an opening brace, the key `command`, the string
-- `DETECT`, one closing bracket or brace, and the end of the line: another key, a second field, a
-- value of another type, another command and anything behind the object are refused.
pub parse_request_iff : (s : Tokens) → (parse_request s ≡ none) ↔ IsDetect s
parse_request_iff s = (parse_request-IsDetect s, IsDetect-parse_request s)
