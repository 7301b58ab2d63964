-- ===== src/Dbms/Server.antt =====
-- server/dbms/internal/server/server.go: the server that owns the socket, `Serve` and `Close`, with
-- its goroutines interleaved. A connection is a number, and so is an inode.
pub mod Orderly
pub mod Listen
mod Tests
use tac_os.Base.{
  ℕ, ◌==◌, ◌≡◌, Bool, true, false, ◌&&◌, if◌then◌else◌, Bytes, List, [], ◌∷◌, Option, none, some,
  has, without, without_all,
}
use tac_os.Dbms.Database.{Database}
use tac_os.Dbms.Service.Executor.{Encoder, execute}
use tac_os.Dbms.Value.{Float64}

-- `once`: `Close` was not called; its first call has shut the sockets; it has returned.
pub data Closing : Type 0 where
  unclosed shut finished : Closing

-- what stands at the path of the socket
pub record PathFile : Type 0 where
  pub inode : ℕ
  pub is_socket : Bool

pub record Server (F : Type 0) : Type 0 where
  pub serving : Bool
  pub listening : Bool
  pub closing : Closing
  pub lock_held : Bool
  pub inode : ℕ
  pub path : Option PathFile
  -- the connection that `Accept` has returned, until `Serve` has the lock
  pub pending : List ℕ
  pub connections : List ℕ
  -- the connections that this side has not closed
  pub open_sockets : List ℕ
  pub workers : List ℕ
  pub db : Database F

-- `s.closed`
unfoldable pub is_closed : Closing → Bool
is_closed unclosed = false
is_closed shut = true
is_closed finished = true

-- `os.SameFile(info, s.inode) && info.Mode()&os.ModeSocket != 0`
unfoldable pub path_after : ℕ → Option PathFile → Option PathFile
path_after inode none = none
path_after inode (some f) = if f.inode == inode && f.is_socket then none else some f

module _ {F : Type 0} where
  -- what `Listen` returns
  abbrev pub new_server : ℕ → Server F
  new_server inode = record {
    serving = false;
    listening = true;
    closing = unclosed;
    lock_held = true;
    inode = inode;
    path = some (record { inode = inode; is_socket = true });
    pending = [];
    connections = [];
    open_sockets = [];
    workers = [];
    db = [];
  }

  -- the first call of `Close`, up to `Unlock`; any other call waits for it and does nothing
  unfoldable pub shut_sockets : Server F → Server F
  unfolding without_all
  shut_sockets s = record s {
    closing = shut;
    listening = false;
    open_sockets = without_all s.connections s.open_sockets;
  }

  -- the rest of `Close`
  unfoldable pub release : Server F → Server F
  unfolding path_after
  release s = record s { closing = finished; lock_held = false; path = path_after s.inode s.path }

  -- `Accept` returns the connection `c`
  unfoldable pub arrive : ℕ → Server F → Server F
  arrive c s = record s { pending = c ∷ s.pending; open_sockets = c ∷ s.open_sockets }

  -- `Serve` has the lock: a closed server closes the connection and leaves the loop
  unfoldable pub accept : ℕ → Server F → Server F
  unfolding is_closed without
  accept c s =
      if is_closed s.closing
      then record s {
        serving = false;
        pending = without c s.pending;
        open_sockets = without c s.open_sockets;
      }
      else record s {
        pending = without c s.pending;
        connections = c ∷ s.connections;
        workers = c ∷ s.workers;
      }

  -- the deferred calls of `handle`: `conn.Close()`, `delete` and `workers.Done`
  unfoldable pub close_socket : ℕ → Server F → Server F
  unfolding without
  close_socket c s = record s { open_sockets = without c s.open_sockets }

  unfoldable pub forget : ℕ → Server F → Server F
  unfolding without
  forget c s = record s { connections = without c s.connections }

  unfoldable pub done : ℕ → Server F → Server F
  unfolding without
  done c s = record s { workers = without c s.workers }

module _ {F : Type 0} ⦃float : Float64 F⦄ (encoder : Encoder F) where
  -- `s.executor.execute(data)` of a handler
  unfoldable pub executes : Bytes → Server F → Server F
  unfolding execute
  executes request s = record s { db = (execute encoder request s.db).0 }

  -- A step of one of the goroutines, or of another process at the path. The deferred calls of a
  -- handler come in this order; a new connection is none that a handler has.
  pub data Step (s : Server F) : Server F → Type 0 where
    serves : Step s (record s { serving = true })
    arrived :
        (c : ℕ)
        → s.serving ≡ true
        → s.listening ≡ true
        → s.pending ≡ []
        → has c s.workers ≡ false
        → Step s (arrive c s)
    accepted : (c : ℕ) → has c s.pending ≡ true → Step s (accept c s)
    accept_failed : s.serving ≡ true → s.pending ≡ [] → Step s (record s { serving = false })
    executed : (c : ℕ) (request : Bytes) → has c s.connections ≡ true → Step s (executes request s)
    close_begins : s.closing ≡ unclosed → Step s (shut_sockets s)
    close_ends : s.closing ≡ shut → Step s (release s)
    socket_closed : (c : ℕ) → has c s.workers ≡ true → Step s (close_socket c s)
    forgotten : (c : ℕ) → has c s.open_sockets ≡ false → Step s (forget c s)
    worker_done : (c : ℕ) → has c s.connections ≡ false → Step s (done c s)
    path_changes : (f : Option PathFile) → Step s (record s { path = f })

  pub data Reach : Server F → Type 0 where
    here : (inode : ℕ) → Reach (new_server inode)
    next : {s t : Server F} → Reach s → Step s t → Reach t
