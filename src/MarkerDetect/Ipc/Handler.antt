-- ===== src/MarkerDetect/Ipc/Handler.antt =====
-- prototypes/marker-detect/ipc/server.go: `handle`, `detect` and `write`, for one connection. What the
-- client sends is the list of its bytes, up to the end of the stream. `W` is the world behind the
-- source of detections and the connection.
pub mod Lines
pub mod Valid
use tac_os.Base.{
  ℕ, zero, suc, ◌==◌, if◌then◌else◌, Bool, true, false, Bytes, List, [], ◌∷◌, Option, none, some,
  length,
}
use tac_os.MarkerDetect.Detection.{Floats, Detection, Fault, validate}
use tac_os.MarkerDetect.Ipc.Request.{Tokens, BadRequest, parse_request}
use tac_os.MarkerDetect.Ipc.Response.{
  Response, encode_success, encode_failure, camera_unavailable_code, detection_failed_code,
  bad_request_code, max_frame_bytes,
}

-- What `Source.Detect` returns.
pub data Detected (F : Type 0) : Type 0 where
  detected : List (Detection F) → Detected F
  camera_unavailable detector_error : Detected F

-- What the handler calls: the source, the connection, the tokens of the JSON decoder.
pub record Calls (F W : Type 0) : Type 0 where
  pub detect_source : W → W × Detected F
  -- `c.Write`; false if it failed
  pub write : Response F → W → W × Bool
  pub tokens : Bytes → Tokens

-- What `ReadSlice('\n')` gives.
pub data Slice : Type 0 where
  line : Bytes → Bytes → Slice
  buffer_full : Slice
  -- the end of the stream, with the bytes before it
  at_end : Bytes → Slice

-- How the stream of a client ends: `io.EOF`, or another error, as `Close` of the server makes it.
pub data Ending : Type 0 where
  eof broken : Ending

-- one byte before what the rest of the call gives
unfoldable pub put_before : ℕ → Slice → Slice
put_before c (line l rest) = line (c ∷ l) rest
put_before c buffer_full = buffer_full
put_before c (at_end part) = at_end (c ∷ part)

-- `ReadSlice('\n')`, with room for so many bytes in the buffer
unfoldable pub read_slice : ℕ → Bytes → Slice
unfolding put_before
read_slice zero source = buffer_full
read_slice (suc n) [] = at_end []
read_slice (suc n) (c ∷ source) =
    if c == b'\n' then line (c ∷ []) source else put_before c (read_slice n source)

-- How a connection ends.
pub data HangUp : Type 0 where
  too_long truncated end_of_stream write_failed no_fuel : HangUp

module _ {F : Type 0} ⦃floats : Floats F⦄ where
  unfoldable pub checked_response : List (Detection F) → Option Fault → Response F
  unfolding encode_success
  checked_response dets none = encode_success dets
  checked_response dets (some fault) = encode_failure detection_failed_code

  unfoldable pub detected_response : Detected F → Response F
  unfolding checked_response validate
  detected_response camera_unavailable = encode_failure camera_unavailable_code
  detected_response detector_error = encode_failure detection_failed_code
  detected_response (detected dets) = checked_response dets (validate dets)

module _ {F W : Type 0} ⦃floats : Floats F⦄ (calls : Calls F W) where
  unfoldable pub detect : W → W × Response F
  unfolding detected_response
  detect w = let (w', r) = calls.detect_source w in (w', detected_response r)

  -- the response to one line is written, after a detection if the request is good
  unfoldable pub answer_parsed : Option BadRequest → W → W × Bool
  unfolding detect
  answer_parsed (some bad) w = calls.write (encode_failure bad_request_code) w
  answer_parsed none w = let (w', r) = detect w in calls.write r w'

  unfoldable pub answer_line : Bytes → W → W × Bool
  unfolding answer_parsed parse_request
  answer_line l w = answer_parsed (parse_request (calls.tokens l)) w

  -- the loop goes on if the write succeeded
  unfoldable pub go_on : (W → W × HangUp) → W × Bool → W × HangUp
  go_on loop (w, true) = loop w
  go_on loop (w, false) = (w, write_failed)

  unfoldable pub last_answer : HangUp → W → W × HangUp
  last_answer why w = ((calls.write (encode_failure bad_request_code) w).0, why)

  unfoldable pub on_end : Ending → Bytes → W → W × HangUp
  unfolding last_answer
  on_end eof [] w = (w, end_of_stream)
  on_end eof (c ∷ part) w = last_answer truncated w
  on_end broken part w = (w, end_of_stream)

  -- the `switch`, and what follows it; `loop` is the next round
  unfoldable pub on_slice : Ending → (Bytes → W → W × HangUp) → Slice → W → W × HangUp
  unfolding answer_line go_on on_end last_answer
  on_slice ending loop (line l rest) w = go_on (loop rest) (answer_line l w)
  on_slice ending loop buffer_full w = last_answer too_long w
  on_slice ending loop (at_end part) w = on_end ending part w

  -- `for { … }`, with `limit` bytes of buffer
  unfoldable pub handle_loop : Ending → (limit fuel : ℕ) → Bytes → W → W × HangUp
  unfolding on_slice read_slice
  handle_loop ending limit zero source w = (w, no_fuel)
  handle_loop ending limit (suc fuel) source w =
      on_slice ending (handle_loop ending limit fuel) (read_slice limit source) w

  -- every round but the last takes a byte
  unfoldable pub handle : Ending → Bytes → W → W × HangUp
  unfolding handle_loop
  handle ending source w = handle_loop ending max_frame_bytes (suc (length source)) source w
