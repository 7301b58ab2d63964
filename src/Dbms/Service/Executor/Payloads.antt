-- ===== src/Dbms/Service/Executor/Payloads.antt =====
-- server/dbms/internal/server/protocol.go: the payloads of `executor.execute`.
use tac_os.Base.{
  ℕ, ◌≤◌, ltb, ◌≡◌, refl, arith, if_both, not, ◌&&◌, Bytes, length, Option, none, some,
}
use tac_os.Dbms.Database.{Database}
use tac_os.Dbms.Database.Execute.{IsConsistentDb}
use tac_os.Dbms.Frame.{max_frame}
use tac_os.Dbms.Outcome.{Outcome, ok}
use tac_os.Dbms.Service.{Response}
use tac_os.Dbms.Service.Answers.{Answered, replied, reported, query-Answered}
use tac_os.Dbms.Service.Executor.{
  Encoder, bad_request, internal_error, too_large, marshalled, or_internal, bounded, payload_of,
  payload_outcome, execute,
}
use tac_os.Dbms.Value.{Float64}

-- What fits a frame.
pub record IsPayload (payload : Bytes) : Type 0 where
  pub nonempty : 1 ≤ length payload
  pub fits : length payload ≤ max_frame

-- What the JSON encoder promises: no text is empty, and the two fixed responses have one that fits.
pub record Encodes {F : Type 0} (encoder : Encoder F) : Type 0 where
  pub has_text :
      (r : Response F) (payload : Bytes) → encoder.marshal r ≡ some payload → 1 ≤ length payload
  pub internal : (p : Bytes) × (encoder.marshal internal_error ≡ some p) × (length p ≤ max_frame)
  pub large : (p : Bytes) × (encoder.marshal too_large ≡ some p) × (length p ≤ max_frame)

module _ {F : Type 0} (encoder : Encoder F) (encodes : Encodes encoder) where
  or_internal-nonempty :
      (r : Response F) (m : Option Bytes)
      → encoder.marshal r ≡ m
      → 1 ≤ length (or_internal m (encoder.marshal internal_error))
  unfolding or_internal marshalled
  or_internal-nonempty r (some p) e = encodes.has_text r p e
  or_internal-nonempty r none e =
      let (p, is, small) = encodes.internal in rw is (encodes.has_text internal_error p is)

  bounded-IsPayload : (p : Bytes) → 1 ≤ length p → IsPayload (bounded p (encoder.marshal too_large))
  unfolding bounded marshalled
  bounded-IsPayload p h =
      let (q, is, small) = encodes.large in
      if_both IsPayload (ltb max_frame (length p)) _ _
        (λ e. rw is (record { nonempty = encodes.has_text too_large q is; fits = small }))
        (λ e. record { nonempty = h; fits = ground arith })

  payload_of-IsPayload : (r : Response F) → IsPayload (payload_of encoder r)
  unfolding payload_of
  payload_of-IsPayload r = bounded-IsPayload _ (or_internal-nonempty r (encoder.marshal r) refl)

-- A request was executed: the tables are consistent, and a payload that fits a frame is returned.
pub data Executed {F : Type 0} : Database F × Outcome Bytes → Type 0 where
  executed :
      {t : Database F} {payload : Bytes}
      → IsConsistentDb t
      → IsPayload payload
      → Executed (t, ok payload)

module _ {F : Type 0} ⦃float : Float64 F⦄ (encoder : Encoder F) (encodes : Encodes encoder) where
  Answered-Executed :
      {n : ℕ} {db : Database F} {p : Database F × Outcome (Response F)}
      → IsConsistentDb db
      → Answered n db p
      → Executed (p.0, payload_outcome encoder p.1)
  unfolding payload_outcome
  Answered-Executed c (replied d s) = executed d (payload_of-IsPayload encoder encodes _)
  Answered-Executed c (reported at) = executed c (payload_of-IsPayload encoder encodes _)

  -- On consistent tables every request, also one that is empty, blank or not UTF-8, is executed
  -- without a panic: the tables are consistent afterwards, and the response is of 1 to 1048576 bytes,
  -- if the JSON encoder gives no empty text and encodes the two fixed errors in a frame.
  pub execute-Executed :
      (bytes : Bytes) (db : Database F) → IsConsistentDb db → Executed (execute encoder bytes db)
  unfolding execute
  execute-Executed bytes db c =
      if_both Executed (encoder.utf8_valid bytes && not (encoder.is_blank bytes)) _ _
        (λ e. Answered-Executed c (query-Answered bytes db c))
        (λ e. executed c (payload_of-IsPayload encoder encodes bad_request))
