-- ===== src/TargetService/Client.antt =====
-- target-service/dbclient/client.go: `Client`, `Exec` and `Close`. The lock makes each call one step.
pub mod Connection
mod Tests
use tac_os.Base.{
  ℕ, ◌==◌, ltb, if◌then◌else◌, Bool, true, false, not, ◌||◌, Bytes, List, [], ◌∷◌, length, Option,
  none, some,
}
use tac_os.Dbms.Frame.{Written, Sent, sent, write_part, uint32, put_uint32}

-- what the JSON decoder makes of a body: an error, a response with text behind it, or a response
pub data Decoded (R : Type 0) : Type 0 where
  malformed trailing : Decoded R
  decoded : R → Decoded R

-- The network, the context of the call, UTF-8 and JSON, behind a world `W`. `C` is a connection and
-- `R` a response.
pub record Network (W C R : Type 0) : Type 0 where
  pub valid_utf8 : Bytes → Bool
  -- `strings.TrimSpace(sql) == ""`
  pub is_blank : Bytes → Bool
  pub cancelled : W → Bool
  pub dial : W → W × Option C
  pub set_deadline : C → W → W × Bool
  pub write : C → Bytes → W → W × Written
  pub read_full : C → ℕ → W → W × Option Bytes
  pub close : C → W → W
  pub decode : Bytes → Decoded R
  -- `validate`, and `r.OK`
  pub is_valid : R → Bool
  pub is_ok : R → Bool

pub record Client (C : Type 0) : Type 0 where
  pub conn : Option C
  pub closed : Bool

pub data ExecError : Type 0 where
  bad_sql frame_size client_closed context_done dial_failed : ExecError
  deadline_failed header_unsent body_unsent no_header bad_length no_body : ExecError
  invalid_utf8 malformed_json trailing_json invalid_response : ExecError

-- a result, a response with an error, or a failure
pub data ExecResult (R : Type 0) : Type 0 where
  answered query_failed : R → ExecResult R
  failed : ExecError → ExecResult R

abbrev pub max_sql : ℕ
max_sql = 1048576

-- `writeAll`
abbrev pub write_all : {W : Type 0} → (Bytes → W → W × Written) → Bytes → W → W × Sent
write_all write b w = write_part write (length b) b w

abbrev pub all_sent : Sent → Bool
all_sent sent = true
all_sent _ = false

module _ {W C R : Type 0} (net : Network W C R) where
  -- `c.drop()` with an open connection, and the failure that is returned
  unfoldable pub dropped : C → ExecError → Client C → W → W × Client C × ExecResult R
  dropped conn e c w = (net.close conn w, record c { conn = none }, failed e)

  -- from `validate` on
  unfoldable pub finish : C → Decoded R → Client C → W → W × Client C × ExecResult R
  unfolding dropped
  finish conn malformed c w = dropped conn malformed_json c w
  finish conn trailing c w = dropped conn trailing_json c w
  finish conn (decoded r) c w =
      if not (net.is_valid r)
      then dropped conn invalid_response c w
      else (w, c, if net.is_ok r then answered r else query_failed r)

  unfoldable pub on_body : C → Client C → W × Option Bytes → W × Client C × ExecResult R
  unfolding finish
  on_body conn c (w, none) = dropped conn no_body c w
  on_body conn c (w, some body) =
      if not (net.valid_utf8 body)
      then dropped conn invalid_utf8 c w
      else finish conn (net.decode body) c w

  unfoldable pub on_header : C → Client C → W × Option Bytes → W × Client C × ExecResult R
  unfolding on_body
  on_header conn c (w, none) = dropped conn no_header c w
  on_header conn c (w, some header) =
      let n = uint32 header in
      if n == 0 || ltb max_sql n
      then dropped conn bad_length c w
      else on_body conn c (net.read_full conn n w)

  -- behind the header: the body of the request, and the response
  unfoldable pub on_header_sent : C → Bytes → Client C → W → W × Client C × ExecResult R
  unfolding on_header
  on_header_sent conn sql c w =
      let (w', r) = write_all (net.write conn) sql w in
      if not (all_sent r)
      then dropped conn body_unsent c w'
      else on_header conn c (net.read_full conn 4 w')

  -- the exchange over an open connection
  unfoldable pub exchange : C → Bytes → Client C → W → W × Client C × ExecResult R
  unfolding on_header_sent
  exchange conn sql c w =
      let (w', set) = net.set_deadline conn w in
      let (w'', r) = write_all (net.write conn) (put_uint32 (length sql)) w' in
      if not set
      then dropped conn deadline_failed c w'
      else if not (all_sent r)
      then dropped conn header_unsent c w''
      else on_header_sent conn sql c w''

  unfoldable pub on_dialed : Bytes → Client C → W × Option C → W × Client C × ExecResult R
  unfolding exchange
  on_dialed sql c (w, none) = (w, c, failed dial_failed)
  on_dialed sql c (w, some conn) = exchange conn sql (record c { conn = some conn }) w

  unfoldable pub connected : Bytes → Client C → Option C → W → W × Client C × ExecResult R
  unfolding on_dialed
  connected sql c none w = on_dialed sql c (net.dial w)
  connected sql c (some conn) w = exchange conn sql c w

  unfoldable pub exec : Bytes → Client C → W → W × Client C × ExecResult R
  unfolding connected
  exec sql c w =
      if not (net.valid_utf8 sql) || net.is_blank sql
      then (w, c, failed bad_sql)
      else if ltb max_sql (length sql)
      then (w, c, failed frame_size)
      else if c.closed
      then (w, c, failed client_closed)
      else if net.cancelled w
      then (w, c, failed context_done)
      else connected sql c c.conn w

  -- `drop`, on a connection or none
  unfoldable pub drop : Option C → Client C → W → W × Client C
  drop none c w = (w, c)
  drop (some conn) c w = (net.close conn w, record c { conn = none })

  -- `Close`
  unfoldable pub close : Client C → W → W × Client C
  unfolding drop
  close c w = drop c.conn (record c { closed = true }) w
