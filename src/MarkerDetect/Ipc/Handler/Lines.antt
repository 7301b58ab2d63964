-- ===== src/MarkerDetect/Ipc/Handler/Lines.antt =====
-- prototypes/marker-detect/ipc/server.go: the lines of a connection and their responses.
use tac_os.Base.{
  ℕ, zero, suc, ◌<◌, ◌≡◌, refl, ap, ◌∙◌, arith, ◌==◌, Bool, true, false, ◌||◌, Bool-cases, Option,
  none, some, inl, inr, Bytes, List, [], ◌∷◌, ◌++◌, length, length-append, All,
}
use tac_os.MarkerDetect.Detection.{Floats, Detection, Fault, validate}
use tac_os.MarkerDetect.Ipc.Request.{BadRequest, parse_request}
use tac_os.MarkerDetect.Ipc.Handler.{
  Calls, Slice, line, buffer_full, at_end, Ending, put_before, read_slice, HangUp, too_long,
  write_failed, truncated, end_of_stream, eof, broken, Detected, detected, camera_unavailable,
  detector_error, detected_response, checked_response, answer_parsed, answer_line, go_on,
  last_answer, on_end, on_slice, handle_loop, handle,
}
use tac_os.MarkerDetect.Ipc.Response.{
  Response, encode_success, encode_failure, camera_unavailable_code, detection_failed_code,
  bad_request_code, max_frame_bytes,
}

abbrev pub has_newline : Bytes → Bool
has_newline [] = false
has_newline (c ∷ cs) = c == b'\n' || has_newline cs

-- A line without its end, which fits the buffer with it.
pub record IsShort (limit : ℕ) (body : Bytes) : Type 0 where
  pub one_line : has_newline body ≡ false
  pub fits : length body < limit

-- What is behind the last complete line: a part of a line, also an empty one, or a line that is too
-- long with what follows it.
pub data Tail (limit : ℕ) : Type 0 where
  partial : (part : Bytes) → IsShort limit part → Tail limit
  oversized : (head more : Bytes) → has_newline head ≡ false → length head ≡ limit → Tail limit

abbrev pub tail_bytes : {limit : ℕ} → Tail limit → Bytes
tail_bytes (partial part short) = part
tail_bytes (oversized head more one_line full) = head ++ more

-- complete lines, and what follows them
abbrev pub join : List Bytes → Bytes → Bytes
join [] tail = tail
join (body ∷ bodies) tail = body ++ b'\n' ∷ join bodies tail

-- The three results of `ReadSlice`.
data Sliced (limit : ℕ) (source : Bytes) (r : Slice) : Type 0 where
  whole_line :
      (body rest : Bytes)
      → IsShort limit body
      → source ≡ body ++ b'\n' ∷ rest
      → r ≡ line (body ++ b'\n' ∷ []) rest
      → Sliced limit source r
  no_room :
      (head more : Bytes)
      → has_newline head ≡ false
      → length head ≡ limit
      → source ≡ head ++ more
      → r ≡ buffer_full
      → Sliced limit source r
  only_part : IsShort limit source → r ≡ at_end source → Sliced limit source r

Sliced-put_before :
    (c n : ℕ) (source : Bytes) (r : Slice)
    → (c == b'\n') ≡ false
    → Sliced n source r
    → Sliced (suc n) (c ∷ source) (put_before c r)
unfolding put_before
Sliced-put_before c n source r h (whole_line body rest short s e) =
    whole_line (c ∷ body) rest
      (record { one_line = ground (arith, short.one_line); fits = omega (arith, short.fits) })
      (ap (λ t. c ∷ t) s) (rw e refl)
Sliced-put_before c n source r h (no_room head more one full s e) =
    no_room (c ∷ head) more (ground arith) (omega arith) (ap (λ t. c ∷ t) s) (rw e refl)
Sliced-put_before c n source r h (only_part short e) =
    only_part
      (record { one_line = ground (arith, short.one_line); fits = omega (arith, short.fits) })
      (rw e refl)

read_slice-Sliced : (n : ℕ) (source : Bytes) → Sliced n source (read_slice n source)
unfolding read_slice
read_slice-Sliced zero source = no_room [] source refl refl refl refl
read_slice-Sliced (suc n) [] = only_part (record { one_line = refl; fits = omega arith }) refl
read_slice-Sliced (suc n) (c ∷ source) = elim (Bool-cases (c == b'\n')) [
  | inl e ↦
      let newline : c ≡ b'\n' = ground arith in
      whole_line [] source (record { one_line = refl; fits = omega arith })
        (ap (λ t. t ∷ source) newline) (rw e (ap (λ t. line (t ∷ []) source) newline))
  | inr e ↦ rw e (Sliced-put_before c n source _ e (read_slice-Sliced n source))
]

module _ {F : Type 0} ⦃floats : Floats F⦄ where
  abbrev if_valid : Option Fault → List (Detection F) → Response F
  if_valid none dets = encode_success dets
  if_valid (some fault) dets = encode_failure detection_failed_code

  -- What a client gets for a result of the source of detections: the detections, if they are valid,
  -- and else the code of the failure.
  abbrev pub source_response : Detected F → Response F
  source_response camera_unavailable = encode_failure camera_unavailable_code
  source_response detector_error = encode_failure detection_failed_code
  source_response (detected dets) = if_valid (validate dets) dets

  detected_response-eq : (d : Detected F) → detected_response d ≡ source_response d
  unfolding detected_response checked_response
  detected_response-eq camera_unavailable = refl
  detected_response-eq detector_error = refl
  detected_response-eq (detected dets) = checked (validate dets)
    where
      checked : (o : Option Fault) → checked_response dets o ≡ if_valid o dets
      checked none = refl
      checked (some fault) = refl

module _ {F W : Type 0} ⦃floats : Floats F⦄ (calls : Calls F W) (ending : Ending) where
  -- A request gets one response, with the result of one detection; another line gets BAD_REQUEST and
  -- no detection.
  abbrev pub answer_request : Option BadRequest → W → W × Bool
  answer_request (some bad) w = calls.write (encode_failure bad_request_code) w
  answer_request none w = let (w', d) = calls.detect_source w in calls.write (source_response d) w'

  answer_line-eq :
      (l : Bytes) (w : W)
      → answer_line calls l w ≡ answer_request (parse_request (calls.tokens l)) w
  unfolding answer_line
  answer_line-eq l w = parsed (parse_request (calls.tokens l)) w
    where
      parsed : (b : Option BadRequest) (w : W) → answer_parsed calls b w ≡ answer_request b w
      parsed (some bad) w = refl
      parsed none w =
          ap (λ r. calls.write r (calls.detect_source w).0)
            (detected_response-eq (calls.detect_source w).1)

  abbrev pub then_lines : (W → W × Bool) → W × Bool → W × Bool
  then_lines later (w, true) = later w
  then_lines later (w, false) = (w, false)

  -- Every line is answered once, in order, until a write fails.
  abbrev pub answer_lines : List Bytes → W → W × Bool
  answer_lines [] w = (w, true)
  answer_lines (body ∷ bodies) w =
      then_lines (answer_lines bodies)
        (answer_request (parse_request (calls.tokens (body ++ b'\n' ∷ []))) w)

  -- BAD_REQUEST is written once, whether that succeeds or not.
  abbrev refused : HangUp → W → W × HangUp
  refused why w = ((calls.write (encode_failure bad_request_code) w).0, why)

  -- A part of a line is refused at the end of the stream, and not if it is empty or an error cut it.
  abbrev pub partial_answer : Ending → Bytes → W → W × HangUp
  partial_answer eof (c ∷ part) w = refused truncated w
  partial_answer _ _ w = (w, end_of_stream)

  partial_answer-eq :
      (e : Ending) (part : Bytes) (w : W) → on_end calls e part w ≡ partial_answer e part w
  unfolding on_end last_answer
  partial_answer-eq eof [] w = refl
  partial_answer-eq eof (c ∷ part) w = refl
  partial_answer-eq broken part w = refl

  -- The tail is refused, but for an empty one, or one that an error cut.
  abbrev pub answer_tail : {limit : ℕ} → Tail limit → W × Bool → W × HangUp
  answer_tail tail (w, false) = (w, write_failed)
  answer_tail (partial part short) (w, true) = partial_answer ending part w
  answer_tail (oversized head more one_line full) (w, true) = refused too_long w

  -- How a handler with so much buffer served the bytes `source`.
  pub record AnswersLines (limit : ℕ) (source : Bytes) (loop : W → W × HangUp) : Type 0 where
    pub lines : List Bytes
    pub short : All (IsShort limit) lines
    pub tail : Tail limit
    pub source_is : source ≡ join lines (tail_bytes tail)
    pub loop_is : (w : W) → loop w ≡ answer_tail tail (answer_lines lines w)

  go_on-answer_tail :
      {limit : ℕ} (tail : Tail limit) (bodies : List Bytes) (loop : W → W × HangUp) (p : W × Bool)
      → ((w : W) → loop w ≡ answer_tail tail (answer_lines bodies w))
      → go_on calls loop p ≡ answer_tail tail (then_lines (answer_lines bodies) p)
  unfolding go_on
  go_on-answer_tail tail bodies loop (w, true) h = h w
  go_on-answer_tail (partial part short) bodies loop (w, false) h = refl
  go_on-answer_tail (oversized head more one full) bodies loop (w, false) h = refl

  on_slice-AnswersLines :
      (limit fuel : ℕ) (source : Bytes) (r : Slice)
      → length source < suc fuel
      → ((rest : Bytes)
          → length rest < fuel
          → AnswersLines limit rest (handle_loop calls ending limit fuel rest))
      → Sliced limit source r
      → AnswersLines limit source (on_slice calls ending (handle_loop calls ending limit fuel) r)
  unfolding on_slice last_answer
  on_slice-AnswersLines limit fuel source r h ih (whole_line body rest short s e) =
      let later = ih rest (omega (arith, ap length s, length-append body (b'\n' ∷ rest))) in
      record {
        lines = body ∷ later.lines;
        short = (short, later.short);
        tail = later.tail;
        source_is = s ∙ ap (λ t. body ++ b'\n' ∷ t) later.source_is;
        loop_is = λ w.
            rw (e, answer_line-eq (body ++ b'\n' ∷ []) w)
              (go_on-answer_tail later.tail later.lines _
                (answer_request (parse_request (calls.tokens (body ++ b'\n' ∷ []))) w)
                later.loop_is);
      }
  on_slice-AnswersLines limit fuel source r h ih (no_room head more one full s e) = record {
    lines = [];
    short = tt;
    tail = oversized head more one full;
    source_is = s;
    loop_is = λ w. rw e refl;
  }
  on_slice-AnswersLines limit fuel source r h ih (only_part short e) = record {
    lines = [];
    short = tt;
    tail = partial source short;
    source_is = refl;
    loop_is = λ w. rw e (partial_answer-eq ending source w);
  }

  handle_loop-AnswersLines :
      (limit fuel : ℕ) (source : Bytes)
      → length source < fuel
      → AnswersLines limit source (handle_loop calls ending limit fuel source)
  unfolding handle_loop
  handle_loop-AnswersLines limit zero source h = absurd (omega arith)
  handle_loop-AnswersLines limit (suc fuel) source h =
      on_slice-AnswersLines limit fuel source _ h (handle_loop-AnswersLines limit fuel)
        (read_slice-Sliced limit source)

  -- Whatever a client sends, its handler returns: the bytes are complete lines, each with its end not
  -- longer than the frame limit, and a tail. Every line gets exactly one response, in the order of the
  -- lines, until a write fails: BAD_REQUEST if its tokens are no request, and else the result of one
  -- detection, or the code of its failure. Then a line that is too long, or a partial line before the end of the
  -- stream, gets one BAD_REQUEST, and the connection is closed.
  pub handle-AnswersLines :
      (source : Bytes) → AnswersLines max_frame_bytes source (handle calls ending source)
  unfolding handle
  handle-AnswersLines source =
      handle_loop-AnswersLines max_frame_bytes (suc (length source)) source (omega arith)
