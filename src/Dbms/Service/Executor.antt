-- ===== src/Dbms/Service/Executor.antt =====
-- server/dbms/internal/server/protocol.go: `executor.execute`. The test of UTF-8, TrimSpace and the
-- JSON encoder are Go's library, and parameters.
pub mod Payloads
use tac_os.Base.{
  ℕ, ltb, if◌then◌else◌, Bool, false, not, ◌&&◌, Bytes, codes, String, [], Option, none, some,
  length,
}
use tac_os.Dbms.Action.{Action}
use tac_os.Dbms.Database.{Database}
use tac_os.Dbms.Frame.{max_frame}
use tac_os.Dbms.Outcome.{Outcome, ok, err, panic, no_fuel}
use tac_os.Dbms.Service.{Response, query}
use tac_os.Dbms.Value.{Float64}

pub record Encoder (F : Type 0) : Type 0 where
  pub utf8_valid : Bytes → Bool
  -- `strings.TrimSpace(s) == ""`
  pub is_blank : Bytes → Bool
  -- `json.Marshal`
  pub marshal : Response F → Option Bytes

-- `errorResponse`
abbrev pub error_response : {F : Type 0} → String → String → Response F
error_response code message = record {
  ok = false;
  columns = none;
  rows = none;
  failure = some (record { code = codes code; message = codes message; position = none });
}

abbrev pub bad_request : {F : Type 0} → Response F
bad_request = error_response "BAD_REQUEST" "SQL payload is empty or invalid UTF-8"

abbrev pub internal_error : {F : Type 0} → Response F
internal_error = error_response "INTERNAL_ERROR" "Could not encode result"

abbrev pub too_large : {F : Type 0} → Response F
too_large = error_response "RESULT_TOO_LARGE" "Query result exceeds frame limit"

-- `payload, _ = …`: the payload is empty if there is an error
unfoldable pub marshalled : Option Bytes → Bytes
marshalled none = []
marshalled (some payload) = payload

unfoldable pub or_internal : Option Bytes → Option Bytes → Bytes
unfolding marshalled
or_internal (some payload) internal = payload
or_internal none internal = marshalled internal

unfoldable pub bounded : Bytes → Option Bytes → Bytes
unfolding marshalled
bounded payload large = if ltb max_frame (length payload) then marshalled large else payload

module _ {F : Type 0} (encoder : Encoder F) where
  unfoldable pub payload_of : Response F → Bytes
  unfolding or_internal bounded
  payload_of r =
      bounded (or_internal (encoder.marshal r) (encoder.marshal internal_error))
        (encoder.marshal too_large)

  -- a panic of `query` is one of `execute`
  unfoldable pub payload_outcome : Outcome (Response F) → Outcome Bytes
  unfolding payload_of
  payload_outcome (ok r) = ok (payload_of r)
  payload_outcome (err e) = err e
  payload_outcome panic = panic
  payload_outcome no_fuel = no_fuel

module _ {F : Type 0} ⦃float : Float64 F⦄ (encoder : Encoder F) where
  unfoldable pub execute : Bytes → Action (Database F) Bytes
  unfolding payload_outcome query
  execute bytes db =
      if encoder.utf8_valid bytes && not (encoder.is_blank bytes)
      then (let (db', r) = query bytes db in (db', payload_outcome encoder r))
      else (db, ok (payload_of encoder bad_request))
