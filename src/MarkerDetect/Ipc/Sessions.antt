-- ===== src/MarkerDetect/Ipc/Sessions.antt =====
-- prototypes/marker-detect/ipc/server.go: `Serve`, `Close` and the ends of `handle`, interleaved as
-- its goroutines are. A connection is a number; what the locks guard is one step.
pub mod Closing
pub mod Draining
use tac_os.Base.{
  ℕ, ◌==◌, ◌≡◌, Bool, true, false, if◌then◌else◌, List, [], ◌∷◌, Option, none, some, has, without,
  without_all,
}

pub record Server : Type 0 where
  -- `Serve` is in its loop
  pub serving : Bool
  -- the listener is open
  pub listening : Bool
  pub closed : Bool
  -- the connection that `Accept` has returned, until `Serve` has the lock
  pub pending : List ℕ
  pub conns : List ℕ
  -- the connections whose socket this side has not closed
  pub open_sockets : List ℕ
  -- the handlers that `wg` counts
  pub handlers : List ℕ
  -- the handlers that are in their loop
  pub in_loop : List ℕ
  -- the handler that holds `detectMu`
  pub detecting : Option ℕ

-- `NewServer`
abbrev pub new_server : Server
new_server = record {
  serving = false;
  listening = false;
  closed = false;
  pending = [];
  conns = [];
  open_sockets = [];
  handlers = [];
  in_loop = [];
  detecting = none;
}

-- `Serve`, up to its loop: a closed server returns at once
unfoldable pub begin_serve : Server → Server
begin_serve s = if s.closed then s else record s { serving = true; listening = true }

-- `Accept` returns the connection `c`
unfoldable pub arrive : ℕ → Server → Server
arrive c s = record s { pending = c ∷ s.pending; open_sockets = c ∷ s.open_sockets }

-- `Serve` has the lock: a closed server closes the connection and returns, and the listener is closed
-- too. A server stays closed, and no other goroutine knows the connection, so that it makes no
-- difference that `Serve` closes it when it has let go of the lock.
unfoldable pub accept : ℕ → Server → Server
unfolding without
accept c s =
    if s.closed
    then record s {
      serving = false;
      listening = false;
      pending = without c s.pending;
      open_sockets = without c s.open_sockets;
    }
    else record s {
      pending = without c s.pending;
      conns = c ∷ s.conns;
      handlers = c ∷ s.handlers;
      in_loop = c ∷ s.in_loop;
    }

-- `Accept` returned an error: `Serve` returns, and `l` is closed
unfoldable pub stop_serving : Server → Server
stop_serving s = record s { serving = false; listening = false }

-- `Close`, up to its wait: the first call closes the listener and every connection
unfoldable pub close : Server → Server
unfolding without_all
close s = if s.closed then s else record s {
  closed = true;
  listening = false;
  open_sockets = without_all s.conns s.open_sockets;
}

-- `return` of the loop of `handle`
unfoldable pub leave : ℕ → Server → Server
unfolding without
leave c s = record s { in_loop = without c s.in_loop }

-- `Detect` returns, and the response is written: that fails if this side has closed the socket, and
-- then the handler leaves its loop
unfoldable pub end_detection : ℕ → Server → Server
unfolding leave has
end_detection c s =
    let t = record s { detecting = none } in if has c s.open_sockets then t else leave c t

-- the deferred calls of `handle`, one by one
unfoldable pub close_socket : ℕ → Server → Server
unfolding without
close_socket c s = record s { open_sockets = without c s.open_sockets }

unfoldable pub forget : ℕ → Server → Server
unfolding without
forget c s = record s { conns = without c s.conns }

unfoldable pub done : ℕ → Server → Server
unfolding without
done c s = record s { handlers = without c s.handlers }

abbrev pub is_detecting : ℕ → Option ℕ → Bool
is_detecting c none = false
is_detecting c (some d) = d == c

-- A step of one of the goroutines. A handler may leave its loop where it is not in `detect`, since a
-- client ends its stream or does not read its responses; lines that it has read may still be answered
-- when its socket is closed. It makes its deferred calls in this order. A new connection is none that
-- a handler has.
pub data Step (s : Server) : Server → Type 0 where
  serve : Step s (begin_serve s)
  arrived :
      (c : ℕ)
      → s.serving ≡ true
      → s.listening ≡ true
      → s.pending ≡ []
      → has c s.handlers ≡ false
      → Step s (arrive c s)
  accepted : (c : ℕ) → has c s.pending ≡ true → Step s (accept c s)
  accept_failed : s.serving ≡ true → s.pending ≡ [] → Step s (stop_serving s)
  closes : Step s (close s)
  detection_begins :
      (c : ℕ)
      → has c s.in_loop ≡ true
      → s.detecting ≡ none
      → Step s (record s { detecting = some c })
  detection_ends : (c : ℕ) → s.detecting ≡ some c → Step s (end_detection c s)
  leaves :
      (c : ℕ) → has c s.in_loop ≡ true → is_detecting c s.detecting ≡ false → Step s (leave c s)
  socket_closed :
      (c : ℕ) → has c s.handlers ≡ true → has c s.in_loop ≡ false → Step s (close_socket c s)
  forgotten :
      (c : ℕ)
      → has c s.handlers ≡ true
      → has c s.in_loop ≡ false
      → has c s.open_sockets ≡ false
      → Step s (forget c s)
  handler_done :
      (c : ℕ)
      → has c s.handlers ≡ true
      → has c s.in_loop ≡ false
      → has c s.conns ≡ false
      → Step s (done c s)

pub data Reach : Server → Type 0 where
  here : Reach new_server
  next : {s t : Server} → Reach s → Step s t → Reach t
