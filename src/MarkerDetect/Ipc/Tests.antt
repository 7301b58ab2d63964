-- ===== src/MarkerDetect/Ipc/Tests.antt =====
-- The detector's socket at concrete inputs. Here a float64 is a natural number, and the world is the
-- list of the responses that were written.
use tac_os.Base.{
  ℕ, ltb, ◌==◌, ◌≡◌, refl, ◌↔◌, pos, int_ltb, true, false, if◌then◌else◌, Bytes, bytes_eq, codes,
  List, [], ◌∷◌, ◌++◌, All, none, some, has, without, without_all, ◌⊎◌, ◌<◌,
}
use tac_os.MarkerDetect.Detection.{Floats, Detection, validate}
use tac_os.MarkerDetect.Exact.{validate_iff}
use tac_os.MarkerDetect.Normalize.Accepted.{IsGood, IsAscending}
use tac_os.MarkerDetect.Ipc.Handler.{Calls, detected, truncated, eof, handle, handle_loop}
use tac_os.MarkerDetect.Ipc.Handler.Lines.{AnswersLines, handle-AnswersLines}
use tac_os.MarkerDetect.Ipc.Handler.Valid.{IsSendable}
use tac_os.MarkerDetect.Ipc.Request.{
  delim, string, Tokens, end, malformed, token, parse_request, unknown_field, missing_field,
}
use tac_os.MarkerDetect.Ipc.Request.Exact.{IsDetect, parse_request_iff}
use tac_os.MarkerDetect.Ipc.Response.{Response, success, failure, bad_request_code, max_frame_bytes}
use tac_os.MarkerDetect.Ipc.Sessions.{
  Server, Step, Reach, here, next, serve, arrived, arrive, accepted, closes, detection_begins,
  begin_serve, accept, close,
}
use tac_os.MarkerDetect.Ipc.Sessions.Closing.{IsTracked, Reach-IsTracked}
use tac_os.MarkerDetect.Ipc.Sessions.Draining.{remaining, Reach-Settles}

instance abbrev whole : Floats ℕ
whole = record {
  is_nan = λ x. false;
  is_inf = λ x. false;
  less = ltb;
  zero_value = 0;
  equal = ◌==◌;
}

abbrev detect_tokens : Tokens
detect_tokens =
    token (delim b'{')
      (token (string (codes "command")) (token (string (codes "DETECT")) (token (delim b'}') end)))

parse_request_detect : parse_request detect_tokens ≡ none
unfolding parse_request
parse_request_detect = refl

parse_request_case :
    parse_request (token (delim b'{') (token (string (codes "Command")) end))
    ≡ some (unknown_field (codes "Command"))
unfolding parse_request
parse_request_case = refl

parse_request_empty :
    parse_request (token (delim b'{') (token (delim b'}') end)) ≡ some missing_field
unfolding parse_request
parse_request_empty = refl

parse_request_iff_example : (parse_request detect_tokens ≡ none) ↔ IsDetect detect_tokens
parse_request_iff_example = parse_request_iff detect_tokens

abbrev at : ℕ → ℕ → Detection ℕ
at id distance = record { id = pos id; angle = 10; distance = distance }

abbrev two : List (Detection ℕ)
two = at 3 5 ∷ at 4 1 ∷ []

validate_iff_example : (validate two ≡ none) ↔ (All IsGood two × IsAscending two)
validate_iff_example = validate_iff two

abbrev log_calls : Calls ℕ (List (Response ℕ))
log_calls = record {
  detect_source = λ w. (w, detected two);
  write = λ r w. (w ++ r ∷ [], true);
  tokens = λ l. if bytes_eq l (codes "D\n") then detect_tokens else malformed true;
}

-- a request, a bad line and a part of a line
abbrev stream : Bytes
stream = codes "D\n?\nD"

short_run : handle_loop log_calls eof 5 6 stream [] ≡ (
  success (
        record { id = pos 3; relative_angle = 10; distance = 5 }
        ∷ record { id = pos 4; relative_angle = 10; distance = 1 }
        ∷ [])
      ∷ failure bad_request_code
      ∷ failure bad_request_code
      ∷ [],
  truncated,
)
unfolding handle_loop bytes_eq int_ltb
short_run = refl

handle-AnswersLines_example :
    AnswersLines log_calls eof max_frame_bytes stream (handle log_calls eof stream)
handle-AnswersLines_example = handle-AnswersLines log_calls eof stream

abbrev AllSendable : List (Response ℕ) → Type 0
AllSendable w = All IsSendable w

All-put :
    (r : Response ℕ) (w : List (Response ℕ))
    → IsSendable r
    → AllSendable w
    → AllSendable (w ++ r ∷ [])
All-put r [] s a = (s, tt)
All-put r (x ∷ xs) s (p, a) = (p, All-put r xs s a)

-- a connection whose handler detects while the server is closed
abbrev closing_server : Server
closing_server = record {
  serving = true;
  listening = false;
  closed = true;
  pending = [];
  conns = 7 ∷ [];
  open_sockets = [];
  handlers = 7 ∷ [];
  in_loop = 7 ∷ [];
  detecting = some 7;
}

closing_server-Reach : Reach closing_server
unfolding begin_serve arrive accept close has without without_all
closing_server-Reach =
    next
      (next (next (next (next here serve) (arrived 7 refl refl refl refl)) (accepted 7 refl))
        (detection_begins 7 refl refl))
      closes

Reach-IsTracked_example : IsTracked closing_server
Reach-IsTracked_example = Reach-IsTracked closing_server-Reach

Reach-Settles_example :
    ((t : Server)
      → Step closing_server t
      → (t ≡ closing_server) ⊎ (remaining t < remaining closing_server))
    × ((closing_server.handlers ≡ [])
        ⊎ ((t : Server) × Step closing_server t × (remaining t < remaining closing_server)))
Reach-Settles_example = Reach-Settles closing_server-Reach refl
