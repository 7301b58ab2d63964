-- ===== src/TargetService/Store.antt =====
-- target-service/main.go: `parseObservation`, `handleMessage` and the loop of `run` over the lines
-- that the scanner returns. JSON and floating point are parameters.
pub mod Latest
pub mod Valid
mod Tests
use tac_os.Base.{
  if◌then◌else◌, ℤ, pos, negsuc, is_positive, Bool, true, false, not, ◌&&◌, ◌||◌, Bytes, codes,
  bytes_eq, strip_prefix, ℕ, ◌==◌, List, [], ◌∷◌, length, Option, none, some,
}
use tac_os.Broker.Lines.{trim_cr}

pub record Observation (F : Type 0) : Type 0 where
  pub target_id : Bytes
  pub observer_id : Bytes
  pub latitude : F
  pub longitude : F
  pub confidence : F
  -- an int64
  pub timestamp : ℤ

pub record Coding (F : Type 0) : Type 0 where
  -- the keys of the object, each once; none if the payload is no JSON object
  pub raw_keys : Bytes → Option (List Bytes)
  pub unmarshal : Bytes → Option (Observation F)
  -- `strings.TrimSpace(s) == ""`
  pub is_blank : Bytes → Bool
  pub is_nan : F → Bool
  -- Go's `<`
  pub less : F → F → Bool
  pub of_int : ℤ → F

pub data ParseError : Type 0 where
  invalid_json not_six invalid_type empty_id bad_coordinates bad_confidence bad_timestamp :
      ParseError
  missing_field : Bytes → ParseError

pub data Parsed (F : Type 0) : Type 0 where
  parsed : Observation F → Parsed F
  rejected : ParseError → Parsed F

unfoldable pub has_key : Bytes → List Bytes → Bool
has_key key [] = false
has_key key (k ∷ keys) = bytes_eq k key || has_key key keys

-- the loop over the six names
unfoldable pub first_missing : List Bytes → List Bytes → Option Bytes
unfolding has_key
first_missing keys [] = none
first_missing keys (name ∷ names) =
    let later = first_missing keys names in if has_key name keys then later else some name

abbrev pub field_names : List Bytes
field_names =
    codes "targetId"
    ∷ codes "observerId"
    ∷ codes "latitude"
    ∷ codes "longitude"
    ∷ codes "confidence"
    ∷ codes "timestamp"
    ∷ []

abbrev pub Store : Type 0 → Type 0
Store F = List (Bytes × Observation F)

module _ {F : Type 0} where
  -- `s.latest[o.TargetID] = o`
  unfoldable pub save : Observation F → Store F → Store F
  save o [] = (o.target_id, o) ∷ []
  save o ((k, p) ∷ store) =
      let later = save o store in if bytes_eq k o.target_id then (k, o) ∷ store else (k, p) ∷ later

  unfoldable pub find : Bytes → Store F → Option (Observation F)
  find id [] = none
  find id ((k, o) ∷ store) = let later = find id store in if bytes_eq k id then some o else later

module _ {F : Type 0} (coding : Coding F) where
  -- `math.IsNaN(x) || x < low || x > high`
  abbrev pub outside : F → ℤ → ℤ → Bool
  outside x low high =
      coding.is_nan x || coding.less x (coding.of_int low) || coding.less (coding.of_int high) x

  -- the tests on the values
  unfoldable pub check : Observation F → Parsed F
  check o =
      if coding.is_blank o.target_id || coding.is_blank o.observer_id
      then rejected empty_id
      else if outside o.latitude (negsuc 89) (pos 90) || outside o.longitude (negsuc 179) (pos 180)
      then rejected bad_coordinates
      else if outside o.confidence (pos 0) (pos 1)
      then rejected bad_confidence
      else if not (is_positive o.timestamp)
      then rejected bad_timestamp
      else parsed o

  unfoldable pub typed : Option (Observation F) → Parsed F
  unfolding check
  typed none = rejected invalid_type
  typed (some o) = check o

  unfoldable pub with_fields : Bytes → Option Bytes → Parsed F
  unfolding typed
  with_fields payload (some name) = rejected (missing_field name)
  with_fields payload none = typed (coding.unmarshal payload)

  unfoldable pub with_keys : Bytes → Option (List Bytes) → Parsed F
  unfolding with_fields first_missing
  with_keys payload none = rejected invalid_json
  with_keys payload (some keys) =
      if not (length keys == 6)
      then rejected not_six
      else with_fields payload (first_missing keys field_names)

  unfoldable pub parse_observation : Bytes → Parsed F
  unfolding with_keys
  parse_observation payload = with_keys payload (coding.raw_keys payload)

  unfoldable pub store_parsed : Parsed F → Store F → Store F
  unfolding save
  store_parsed (rejected e) store = store
  store_parsed (parsed o) store = save o store

  unfoldable pub on_payload : Option Bytes → Store F → Store F
  unfolding store_parsed parse_observation
  on_payload none store = store
  on_payload (some payload) store = store_parsed (parse_observation payload) store

  unfoldable pub handle_message : Bytes → Store F → Store F
  unfolding on_payload strip_prefix
  handle_message line store = on_payload (strip_prefix (codes "MSG observations ") line) store

  -- the loop of `run`
  unfoldable pub run_lines : List Bytes → Store F → Store F
  unfolding handle_message trim_cr
  run_lines [] store = store
  run_lines (line ∷ lines) store = run_lines lines (handle_message (trim_cr line) store)
