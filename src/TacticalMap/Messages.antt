-- ===== src/TacticalMap/Messages.antt =====
-- app/map: messages.go, and `receiveTargets` of broker.go. What the JSON decoder gives for a record is an
-- argument, as are UTF-8 and TrimSpace.
pub mod Records
pub mod Received
use tac_os.Base.{
  ℕ, ℤ, pos, leb, if◌then◌else◌, Bool, true, false, not, ◌&&◌, ◌||◌, Bytes, bytes_eq, codes,
  strip_prefix, List, [], ◌∷◌, Option, none, some,
}
use tac_os.TacticalMap.Config.{Geo, Target, valid_coordinates, bad_probability}

-- A value of a field: null, another one, or an error of `Decode`.
pub data Raw : Type 0 where
  null_value other_value undecodable : Raw

-- What stands where `More` is false.
pub data Ending : Type 0 where
  -- the closing brace, and then `io.EOF`, or anything else
  closed_at_end closed_with_more : Ending
  unclosed : Ending

-- What the decoder gives behind the first token.
pub data Entries : Type 0 where
  ending : Ending → Entries
  bad_key : Entries
  -- a key that is no string
  other_key : Entries
  entry : Bytes → Raw → Entries → Entries

pub data JsonRecord : Type 0 where
  no_object : JsonRecord
  an_object : Entries → JsonRecord

pub data RecordError : Type 0 where
  not_utf8 not_an_object malformed unexpected_key missing_fields more_data : RecordError
  unexpected null_field : Bytes → RecordError

-- `remaining[name]`
unfoldable pub remains : Bytes → List Bytes → Bool
remains name [] = false
remains name (f ∷ fs) = bytes_eq f name || remains name fs

-- `delete(remaining, name)`
unfoldable pub without_field : Bytes → List Bytes → List Bytes
without_field name [] = []
without_field name (f ∷ fs) =
    let later = without_field name fs in if bytes_eq f name then later else f ∷ later

unfoldable pub is_empty : {A : Type 0} → List A → Bool
is_empty [] = true
is_empty (x ∷ xs) = false

unfoldable pub check_ending : List Bytes → Ending → Option RecordError
unfolding is_empty
check_ending remaining unclosed = some malformed
check_ending remaining closed_at_end = if is_empty remaining then none else some missing_fields
check_ending remaining closed_with_more =
    if is_empty remaining then some more_data else some missing_fields

unfoldable pub check_value : Bytes → Raw → Option RecordError → Option RecordError
check_value name undecodable rest = some malformed
check_value name null_value rest = some (null_field name)
check_value name other_value rest = rest

-- `for d.More() { … }`, and what follows it
unfoldable pub check_entries : List Bytes → Entries → Option RecordError
unfolding remains without_field check_ending check_value
check_entries remaining (ending e) = check_ending remaining e
check_entries remaining bad_key = some malformed
check_entries remaining other_key = some unexpected_key
check_entries remaining (entry name raw entries) =
    let rest = check_entries (without_field name remaining) entries in
    if remains name remaining then check_value name raw rest else some (unexpected name)

-- the checks of `decodeRecord`, before it unmarshals
unfoldable pub check_record : Bool → List Bytes → JsonRecord → Option RecordError
unfolding check_entries
check_record utf8 fields no_object = if utf8 then some not_an_object else some not_utf8
check_record utf8 fields (an_object entries) =
    if utf8 then check_entries fields entries else some not_utf8

abbrev pub target_fields : List Bytes
target_fields =
    codes "targetId"
    ∷ codes "latitude"
    ∷ codes "longitude"
    ∷ codes "probability"
    ∷ codes "lastSeenAt"
    ∷ []

abbrev pub observation_fields : List Bytes
observation_fields =
    codes "targetId"
    ∷ codes "observerId"
    ∷ codes "latitude"
    ∷ codes "longitude"
    ∷ codes "confidence"
    ∷ codes "timestamp"
    ∷ []

pub record Observation (F : Type 0) : Type 0 where
  pub target_id : Bytes
  pub observer_id : Bytes
  pub latitude : F
  pub longitude : F
  pub confidence : F
  -- an int64
  pub timestamp : ℤ

-- What `json` and `utf8` say of a payload.
pub record Decoder (F : Type 0) : Type 0 where
  pub utf8_valid : Bytes → Bool
  pub read_record : Bytes → JsonRecord
  -- `json.Unmarshal` into a `Target`, or into an `Observation`
  pub to_target : Bytes → Option (Target F)
  pub to_observation : Bytes → Option (Observation F)

pub data MessageError : Type 0 where
  bad_record : RecordError → MessageError
  bad_json bad_values empty_ids not_decimal : MessageError

pub data Parsed (A : Type 0) : Type 0 where
  parsed : A → Parsed A
  refused : MessageError → Parsed A

-- the loop over the bytes of `o.TargetID`
unfoldable pub is_decimal : Bytes → Bool
is_decimal [] = true
is_decimal (c ∷ cs) = leb b'0' c && leb c b'9' && is_decimal cs

module _ {F : Type 0} ⦃geo : Geo F⦄ where
  -- the tests of `parseTarget`
  unfoldable pub check_target : Option (Target F) → Parsed (Target F)
  unfolding valid_coordinates
  check_target none = refused bad_json
  check_target (some t) =
      if bytes_eq t.target_id []
        || not (valid_coordinates t.latitude t.longitude)
        || bad_probability t.probability
      then refused bad_values
      else parsed t

  -- `Observation.validate`
  unfoldable pub check_observation : Option (Observation F) → Parsed (Observation F)
  unfolding valid_coordinates is_decimal
  check_observation none = refused bad_json
  check_observation (some o) =
      if bytes_eq o.target_id [] || bytes_eq o.observer_id []
      then refused empty_ids
      else if not (is_decimal o.target_id)
      then refused not_decimal
      else if not (valid_coordinates o.latitude o.longitude) || bad_probability o.confidence
      then refused bad_values
      else parsed o

unfoldable pub on_record : {A : Type 0} → Option RecordError → Parsed A → Parsed A
on_record (some e) values = refused (bad_record e)
on_record none values = values

-- an error is a notice
unfoldable pub sent_on : {A : Type 0} → Parsed A → Option A
sent_on (parsed a) = some a
sent_on (refused e) = none

-- `updates <- target`, before those of the rest of the loop
unfoldable pub send_target : {A : Type 0} → Option A → List A → List A
send_target none rest = rest
send_target (some a) rest = a ∷ rest

module _ {F : Type 0} ⦃geo : Geo F⦄ (decoder : Decoder F) where
  unfoldable pub parse_target : Bytes → Parsed (Target F)
  unfolding check_record check_target on_record
  parse_target payload =
      on_record
        (check_record (decoder.utf8_valid payload) target_fields (decoder.read_record payload))
        (check_target (decoder.to_target payload))

  unfoldable pub parse_observation : Bytes → Parsed (Observation F)
  unfolding check_record check_observation on_record
  parse_observation payload =
      on_record
        (check_record (decoder.utf8_valid payload) observation_fields (decoder.read_record payload))
        (check_observation (decoder.to_observation payload))

  -- the rest of a line behind the prefix
  unfoldable pub on_message : Option Bytes → Option (Target F)
  unfolding parse_target sent_on
  on_message none = none
  on_message (some payload) = sent_on (parse_target payload)

  -- one line from the broker, without its end
  unfoldable pub receive_line : Bytes → Option (Target F)
  unfolding on_message strip_prefix
  receive_line line = on_message (strip_prefix (codes "MSG targets.updated ") line)

  -- the loop of `receiveTargets` over the lines that it reads
  unfoldable pub receive_lines : List Bytes → List (Target F)
  unfolding receive_line send_target
  receive_lines [] = []
  receive_lines (line ∷ lines) = send_target (receive_line line) (receive_lines lines)
