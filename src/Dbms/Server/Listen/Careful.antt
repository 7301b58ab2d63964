-- ===== src/Dbms/Server/Listen/Careful.antt =====
-- server/dbms/internal/server/server.go: what `Listen` changes, and when.
use tac_os.Base.{◌==◌, ◌≡◌, arith, Bool, true, false, not, ◌&&◌, ◌||◌, List, [], ◌∷◌}
use tac_os.Dbms.Server.Listen.{
  Found, found, not_found, lookup_failed, Dialed, connected, refused, dial_failed, Answers, Effect,
  open_lock, take_lock, close_lock, remove_stale, bind, close_listener, remove_new, Listened,
  listening, refused_with, private_mode, deferred, set_mode, on_bound_info, listen_unix, on_dialed,
  on_path, on_lock, listen,
}

abbrev pub effect_eq : Effect → Effect → Bool
effect_eq open_lock open_lock = true
effect_eq take_lock take_lock = true
effect_eq close_lock close_lock = true
effect_eq remove_stale remove_stale = true
effect_eq bind bind = true
effect_eq close_listener close_listener = true
effect_eq remove_new remove_new = true
effect_eq _ _ = false

abbrev pub happens : Effect → List Effect → Bool
happens e [] = false
happens e (x ∷ xs) = effect_eq x e || happens e xs

abbrev pub is_listening : Listened → Bool
is_listening listening = true
is_listening (refused_with e) = false

-- a regular file of the user, with mode 0600
abbrev pub is_private : Found → Bool
is_private (found info) = info.is_regular && info.owned && info.permissions == private_mode
is_private not_found = false
is_private lookup_failed = false

-- a socket of the user
abbrev pub is_own_socket : Found → Bool
is_own_socket (found info) = info.is_socket && info.owned
is_own_socket not_found = false
is_own_socket lookup_failed = false

abbrev pub is_refused : Dialed → Bool
is_refused refused = true
is_refused connected = false
is_refused dial_failed = false

-- What `Listen` may have done when it returns.
pub record IsCareful (a : Answers) (r : List Effect × Listened) : Type 0 where
  -- a stale socket is removed only with the lock, when it is the user's and nobody answers at it
  pub removes :
      happens remove_stale r.0 ≡ true
      → (is_private a.lock_info && a.lock_taken && is_own_socket a.path_info && is_refused a.dialed)
        ≡ true
  pub binds : happens bind r.0 ≡ true → (is_private a.lock_info && a.lock_taken) ≡ true
  -- on an error nothing stays open: the listener, if there is one, and the lock are closed
  pub unbinds : happens close_listener r.0 ≡ (happens bind r.0 && not (is_listening r.1))
  pub unlocks : happens close_lock r.0 ≡ (happens open_lock r.0 && not (is_listening r.1))
  pub listens : is_listening r.1 ≡ true → (happens bind r.0 && happens take_lock r.0) ≡ true

-- Whatever the system answers: `Listen` binds a socket only with the lock on a private file of the
-- user, removes what stood at the path only then, and only a socket of the user at which a connection
-- is refused; a server that is returned is bound and holds the lock; and on every error the listener,
-- if it was bound, and the lock file, if it was opened, are closed.
pub listen-IsCareful : (a : Answers) → IsCareful a (listen a)
unfolding listen deferred on_lock on_path on_dialed listen_unix on_bound_info set_mode
listen-IsCareful a = ground arith
