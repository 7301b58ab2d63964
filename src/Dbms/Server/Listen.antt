-- ===== src/Dbms/Server/Listen.antt =====
-- server/dbms/internal/server/server.go: `Listen`, with the calls of the operating system that it makes.
-- What each call returns is an argument, and those that change something are listed in their order.
pub mod Careful
use tac_os.Base.{ℕ, ◌==◌, Bool, true, false, not, ◌&&◌, ◌||◌, if◌then◌else◌, List, [], ◌∷◌, ◌++◌}

pub record FileInfo : Type 0 where
  pub is_regular : Bool
  pub is_socket : Bool
  -- `owned`
  pub owned : Bool
  pub permissions : ℕ

pub data Found : Type 0 where
  found : FileInfo → Found
  not_found lookup_failed : Found

pub data Dialed : Type 0 where
  connected refused dial_failed : Dialed

-- What the system answers; true where a call succeeds.
pub record Answers : Type 0 where
  -- `path != "" && timeout > 0`
  pub arguments_ok : Bool
  pub lock_opened : Bool
  pub lock_info : Found
  pub lock_taken : Bool
  pub path_info : Found
  pub dialed : Dialed
  pub removed : Bool
  pub bound : Bool
  pub bound_info : Found
  pub mode_changed : Bool

pub data Effect : Type 0 where
  open_lock take_lock close_lock remove_stale bind close_listener remove_new : Effect

pub data ListenError : Type 0 where
  bad_arguments lock_unavailable lock_unreadable unsafe_lock locked foreign_path active not_stale
        unremovable unreadable_path unbound unreadable_socket unprotected :
      ListenError

pub data Listened : Type 0 where
  listening : Listened
  refused_with : ListenError → Listened

-- one effect before the rest of the function
abbrev pub after : Effect → List Effect × Listened → List Effect × Listened
after e (effects, r) = (e ∷ effects, r)

-- `defer func() { if !success { _ = lock.Close() } }()`
unfoldable pub deferred : List Effect × Listened → List Effect × Listened
deferred (effects, listening) = (effects, listening)
deferred (effects, refused_with e) = (effects ++ close_lock ∷ [], refused_with e)

abbrev pub fail_with : ListenError → List Effect × Listened
fail_with e = ([], refused_with e)

-- the mode of the lock file, 0600
abbrev pub private_mode : ℕ
private_mode = 384

unfoldable pub set_mode : Answers → List Effect × Listened
set_mode a =
    if a.mode_changed
    then ([], listening)
    else (close_listener ∷ remove_new ∷ [], refused_with unprotected)

unfoldable pub on_bound_info : Answers → Found → List Effect × Listened
unfolding set_mode
on_bound_info a (found info) = set_mode a
on_bound_info a not_found = (close_listener ∷ [], refused_with unreadable_socket)
on_bound_info a lookup_failed = (close_listener ∷ [], refused_with unreadable_socket)

-- `net.ListenUnix`, and what follows
unfoldable pub listen_unix : Answers → List Effect × Listened
unfolding on_bound_info
listen_unix a = if a.bound then after bind (on_bound_info a a.bound_info) else fail_with unbound

unfoldable pub on_dialed : Answers → Dialed → List Effect × Listened
unfolding listen_unix
on_dialed a connected = fail_with active
on_dialed a dial_failed = fail_with not_stale
on_dialed a refused =
    if a.removed then after remove_stale (listen_unix a) else fail_with unremovable

-- `os.Lstat(path)`, and what follows
unfoldable pub on_path : Answers → Found → List Effect × Listened
unfolding on_dialed
on_path a not_found = listen_unix a
on_path a lookup_failed = fail_with unreadable_path
on_path a (found info) =
    if not info.is_socket || not info.owned then fail_with foreign_path else on_dialed a a.dialed

unfoldable pub on_lock : Answers → Found → List Effect × Listened
unfolding on_path
on_lock a not_found = fail_with lock_unreadable
on_lock a lookup_failed = fail_with lock_unreadable
on_lock a (found info) =
    if not info.is_regular || not info.owned || not (info.permissions == private_mode)
    then fail_with unsafe_lock
    else if a.lock_taken
    then after take_lock (on_path a a.path_info)
    else fail_with locked

unfoldable pub listen : Answers → List Effect × Listened
unfolding on_lock deferred
listen a =
    if not a.arguments_ok
    then fail_with bad_arguments
    else if not a.lock_opened
    then fail_with lock_unavailable
    else after open_lock (deferred (on_lock a a.lock_info))
