-- ===== src/MarkerDetect/Ipc/Handler/Valid.antt =====
-- prototypes/marker-detect/ipc/server.go: what a handler may write.
use tac_os.Base.{
  ◌≡◌, refl, Bool, true, false, Bytes, List, [], ◌∷◌, Option, none, some, zero, suc, ℕ, length,
}
use tac_os.MarkerDetect.Detection.{Floats, Detection, Fault, validate}
use tac_os.MarkerDetect.Ipc.Handler.{
  Calls, Detected, detected, camera_unavailable, detector_error, Slice, line, buffer_full, at_end,
  Ending, eof, broken, read_slice, HangUp, checked_response, detected_response, detect,
  answer_parsed, answer_line, go_on, last_answer, on_end, on_slice, handle_loop, handle,
}
use tac_os.MarkerDetect.Ipc.Request.{BadRequest, parse_request}
use tac_os.MarkerDetect.Ipc.Response.{Response, failure, encode_success, max_frame_bytes}

module _ {F : Type 0} ⦃floats : Floats F⦄ where
  -- An error, or detections that `validate` accepts.
  pub data IsSendable : Response F → Type 0 where
    is_failure : (code : Bytes) → IsSendable (failure code)
    is_success :
        {r : Response F} (dets : List (Detection F))
        → validate dets ≡ none
        → r ≡ encode_success dets
        → IsSendable r

  checked_response-IsSendable :
      (dets : List (Detection F)) (fault : Option Fault)
      → validate dets ≡ fault
      → IsSendable (checked_response dets fault)
  unfolding checked_response
  checked_response-IsSendable dets none h = is_success dets h refl
  checked_response-IsSendable dets (some fault) h = is_failure _

  detected_response-IsSendable : (d : Detected F) → IsSendable (detected_response d)
  unfolding detected_response
  detected_response-IsSendable (detected dets) = checked_response-IsSendable dets _ refl
  detected_response-IsSendable camera_unavailable = is_failure _
  detected_response-IsSendable detector_error = is_failure _

module _ {F W : Type 0} ⦃floats : Floats F⦄ (calls : Calls F W) (P : W → Type 0)
    (source_keeps : (w : W) → P w → P (calls.detect_source w).0)
    (write_keeps : (r : Response F) (w : W) → IsSendable r → P w → P (calls.write r w).0)
    (ending : Ending) where
  answer_parsed-keeps : (bad : Option BadRequest) (w : W) → P w → P (answer_parsed calls bad w).0
  unfolding answer_parsed detect
  answer_parsed-keeps (some bad) w p = write_keeps _ w (is_failure _) p
  answer_parsed-keeps none w p =
      write_keeps _ _ (detected_response-IsSendable (calls.detect_source w).1) (source_keeps w p)

  go_on-keeps :
      (loop : W → W × HangUp) (r : W × Bool)
      → ((w : W) → P w → P (loop w).0)
      → P r.0
      → P (go_on calls loop r).0
  unfolding go_on
  go_on-keeps loop (w, true) h p = h w p
  go_on-keeps loop (w, false) h p = p

  on_end-keeps : (part : Bytes) (w : W) → P w → P (on_end calls ending part w).0
  unfolding on_end last_answer
  on_end-keeps part w p = go ending part
    where
      go : (e : Ending) (part : Bytes) → P (on_end calls e part w).0
      go eof [] = p
      go eof (c ∷ part) = write_keeps _ w (is_failure _) p
      go broken part = p

  on_slice-keeps :
      (loop : Bytes → W → W × HangUp) (r : Slice) (w : W)
      → ((rest : Bytes) (w : W) → P w → P (loop rest w).0)
      → P w
      → P (on_slice calls ending loop r w).0
  unfolding on_slice answer_line last_answer
  on_slice-keeps loop (line l rest) w h p =
      go_on-keeps (loop rest) _ (h rest) (answer_parsed-keeps (parse_request (calls.tokens l)) w p)
  on_slice-keeps loop buffer_full w h p = write_keeps _ w (is_failure _) p
  on_slice-keeps loop (at_end part) w h p = on_end-keeps part w p

  handle_loop-keeps :
      (limit fuel : ℕ) (source : Bytes) (w : W)
      → P w
      → P (handle_loop calls ending limit fuel source w).0
  unfolding handle_loop
  handle_loop-keeps limit zero source w p = p
  handle_loop-keeps limit (suc fuel) source w p =
      on_slice-keeps (handle_loop calls ending limit fuel) (read_slice limit source) w
        (handle_loop-keeps limit fuel) p

  -- What holds of the world is kept by a handler, if the source of detections keeps it, and the write
  -- of a response that is an error or whose detections pass `validate` keeps it: a handler writes no
  -- other response, whatever the client sends and the source returns.
  pub handle-keeps : (source : Bytes) (w : W) → P w → P (handle calls ending source w).0
  unfolding handle
  handle-keeps source w p = handle_loop-keeps max_frame_bytes (suc (length source)) source w p
