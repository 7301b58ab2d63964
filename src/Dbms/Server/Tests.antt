-- ===== src/Dbms/Server/Tests.antt =====
-- The database server at concrete inputs: a start with a stale socket, and a run up to `Close`.
use tac_os.Base.{
  ◌≡◌, refl, Bool, true, false, Bytes, [], ◌∷◌, none, some, has, without, without_all,
}
use tac_os.Dbms.Server.{
  Server, finished, shut, arrive, serves, arrived, accepted, close_begins, close_ends, Reach, here,
  next, accept, shut_sockets, release, path_after, is_closed,
}
use tac_os.Dbms.Server.Listen.{
  Answers, found, refused, listening, open_lock, take_lock, remove_stale, bind, close_lock,
  unremovable, refused_with, listen,
}
use tac_os.Dbms.Server.Listen.Careful.{IsCareful, listen-IsCareful}
use tac_os.Dbms.Server.Orderly.{IsOrderly, Reach-IsOrderly}
use tac_os.Dbms.Session.Tests.{byte_encoder, byte_encoder-Encodes}
use tac_os.Dbms.Tests.{text_float}

abbrev stale : Bool → Answers
stale can_remove = record {
  arguments_ok = true;
  lock_opened = true;
  lock_info =
      found (record { is_regular = true; is_socket = false; owned = true; permissions = 384 });
  lock_taken = true;
  path_info =
      found (record { is_regular = false; is_socket = true; owned = true; permissions = 384 });
  dialed = refused;
  removed = can_remove;
  bound = true;
  bound_info =
      found (record { is_regular = false; is_socket = true; owned = true; permissions = 493 });
  mode_changed = true;
}

start_over_old_socket :
    (listen (stale true) ≡ (open_lock ∷ take_lock ∷ remove_stale ∷ bind ∷ [], listening))
    × (listen (stale false) ≡ (open_lock ∷ take_lock ∷ close_lock ∷ [], refused_with unremovable))
unfolding listen
start_over_old_socket = (refl, refl)

listen-IsCareful_example : IsCareful (stale true) (listen (stale true))
listen-IsCareful_example = listen-IsCareful (stale true)

-- the server was closed while a connection was served
abbrev closed_server : Server Bytes
closed_server = record {
  serving = true;
  listening = false;
  closing = finished;
  lock_held = false;
  inode = 5;
  path = none;
  pending = [];
  connections = 3 ∷ [];
  open_sockets = [];
  workers = 3 ∷ [];
  db = [];
}

closed_server-Reach : Reach byte_encoder closed_server
unfolding arrive accept shut_sockets release path_after has without without_all is_closed
closed_server-Reach =
    next
      (next (next (next (next (here 5) serves) (arrived 3 refl refl refl refl)) (accepted 3 refl))
        (close_begins refl))
      (close_ends refl)

-- `Close` ran between the return of `Accept` and the section under the lock: the connection is open
-- and not tracked until `Serve` has the lock, and then it is closed
abbrev late_server : Server Bytes
late_server = record {
  serving = true;
  listening = false;
  closing = shut;
  lock_held = true;
  inode = 5;
  path = some (record { inode = 5; is_socket = true });
  pending = 3 ∷ [];
  connections = [];
  open_sockets = 3 ∷ [];
  workers = [];
  db = [];
}

late_server-Reach : Reach byte_encoder late_server
unfolding arrive shut_sockets has without_all
late_server-Reach =
    next (next (next (here 5) serves) (arrived 3 refl refl refl refl)) (close_begins refl)

late_connection : (accept 3 late_server).open_sockets ≡ []
unfolding accept is_closed without
late_connection = refl

Reach-IsOrderly_example : IsOrderly closed_server
Reach-IsOrderly_example = Reach-IsOrderly byte_encoder byte_encoder-Encodes closed_server-Reach
