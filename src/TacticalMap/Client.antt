-- ===== src/TacticalMap/Client.antt =====
-- app/map/client.go: `readResponse`, and what `Send` and `subscribe` make of it. The connection and the
-- JSON decoder are Go's library, and arguments.
pub mod Server
use tac_os.Base.{
  ℕ, if◌then◌else◌, Bool, true, false, not, ◌||◌, Bytes, bytes_eq, codes, [], Option, none, some,
}
use tac_os.TacticalMap.Session.{Sending, accepted, rejected, send_failed}

-- `response`
pub record WireResponse : Type 0 where
  pub ok : Option Bool
  pub message : Bytes
  pub event : Bytes
  pub window_id : Bytes

-- What `readResponse` returns.
pub data Reply : Type 0 where
  replied : WireResponse → Reply
  reply_rejected : Bytes → Reply
  unread undecoded no_ok : Reply

unfoldable pub on_ok : WireResponse → Option Bool → Reply
on_ok r none = no_ok
on_ok r (some true) = replied r
on_ok r (some false) = reply_rejected r.message

unfoldable pub on_decoded : Option WireResponse → Reply
unfolding on_ok
on_decoded none = undecoded
on_decoded (some r) = on_ok r r.ok

-- a line that was read, or an error of `ReadSlice`
unfoldable pub read_response : (Bytes → Option WireResponse) → Option Bytes → Reply
unfolding on_decoded
read_response unmarshal none = unread
read_response unmarshal (some line) = on_decoded (unmarshal line)

-- what `Send` returns
unfoldable pub sending_of : Reply → Sending
sending_of (replied r) = accepted
sending_of (reply_rejected message) = rejected message
sending_of unread = send_failed
sending_of undecoded = send_failed
sending_of no_ok = send_failed

-- whether `subscribe` takes it for the acknowledgement
unfoldable pub is_acknowledged : Reply → Bool
unfolding bytes_eq
is_acknowledged (replied r) =
    not (not (bytes_eq r.event []) || not (bytes_eq r.message (codes "subscribed")))
is_acknowledged (reply_rejected message) = false
is_acknowledged unread = false
is_acknowledged undecoded = false
is_acknowledged no_ok = false
