-- ===== src/WindowManager/Server/Runs.antt =====
-- window-manager/server/server.go: every run of the server.
use tac_os.Base.{
  ℕ, ◌≡◌, ◌≢◌, refl, Bytes, codes, bytes_eq, List, [], ◌∷◌, Option, none, some, Option-cases,
  Bool-cases, subst, sym, inl, inr,
}
use tac_os.WindowManager.Backend.{Fallible, value, error, Environment, OneWindow}
use tac_os.WindowManager.Protocol.{success, Request, Response}
use tac_os.WindowManager.Server.{Server, started, respond}
use tac_os.WindowManager.Server.Commands.{handle_request}
use tac_os.WindowManager.Server.Requests.{handle_request-IsCoherent}
use tac_os.WindowManager.Server.Coherent.{
  Keeps, IsCoherent, respond-IsCoherent, close_window-IsCoherent, showing,
}
use tac_os.WindowManager.Server.Events.{
  send_all, broadcast_event, subscribe, close_on_event, handle_events, polled, poll_window_events,
}

module _ {W H : Type 0} (env : Environment W H) where
  -- One step of the loop of `Run`, or of the goroutine that takes subscriptions. `Run` returns when
  -- a poll fails or `stop` is closed; that ends a run of steps at any point.
  pub data Step (s : Server W H) : Server W H → Type 0 where
    request : (conn : ℕ) (r : Fallible Request) → Step s (handle_request env conn r s).0
    poll : Step s (poll_window_events env s).0
    subscription : (conn : ℕ) → Step s (subscribe env conn s)

  pub data Reach (s : Server W H) : Server W H → Type 0 where
    here : Reach s s
    next : {t u : Server W H} → Reach s t → Step t u → Reach s u

module _ {W H : Type 0} {Idle : W → Type 0} {Showing : H → W → Type 0} (env : Environment W H)
    (laws : OneWindow env Idle Showing) where
  -- Writes to any number of clients leave the windows alone.
  send_all-Keeps :
      (o : Option H) (id : Bytes) (r : Response) (conns : List ℕ) (w : W)
      → Keeps Idle Showing o id w
      → Keeps Idle Showing o id (send_all env r conns w).0
  unfolding send_all
  send_all-Keeps o id r [] w k = k
  send_all-Keeps none id r (conn ∷ conns) w (e, i) =
      send_all-Keeps none id r conns _ (e, laws.write_keeps_idle conn r w i)
  send_all-Keeps (some h) id r (conn ∷ conns) w (e, i) =
      send_all-Keeps (some h) id r conns _ (e, laws.write_keeps_showing conn r h w i)

  subscribe-IsCoherent :
      (conn : ℕ) (s : Server W H)
      → IsCoherent Idle Showing s
      → IsCoherent Idle Showing (subscribe env conn s)
  unfolding subscribe respond
  subscribe-IsCoherent conn s c = respond-IsCoherent env laws conn (success "subscribed") s c

  module _ (s : Server W H) (h : H) (e : s.window ≡ some h) (c : IsCoherent Idle Showing s) where
    handle_events-IsCoherent :
        (events : List Bytes) → IsCoherent Idle Showing (handle_events env h events s).0
    unfolding handle_events close_on_event broadcast_event
    handle_events-IsCoherent [] = c
    handle_events-IsCoherent (event ∷ events) =
        elim (Bool-cases (bytes_eq event (codes "window_close"))) [
          | inl b ↦ rw b (
              send_all-Keeps none [] _ s.event_clients _ (close_window-IsCoherent env laws s h e c))
          | inr b ↦ rw b (handle_events-IsCoherent events)
        ]

  polled-IsCoherent :
      (s : Server W H) (h : H) (r : W × Fallible (List Bytes))
      → s.window ≡ some h
      → s.window_id ≢ []
      → Showing h r.0
      → IsCoherent Idle Showing (polled env h s r).0
  unfolding polled
  polled-IsCoherent s h (w, error m) e named i =
      subst (λ o. Keeps Idle Showing o s.window_id w) (sym e) (named, i)
  polled-IsCoherent s h (w, value events) e named i =
      handle_events-IsCoherent (record s { world = w }) h e
        (subst (λ o. Keeps Idle Showing o s.window_id w) (sym e) (named, i)) events

  poll-IsCoherent :
      (s : Server W H)
      → IsCoherent Idle Showing s
      → IsCoherent Idle Showing (poll_window_events env s).0
  unfolding poll_window_events
  poll-IsCoherent s c = elim (Option-cases s.window) [
    | inl e ↦ rw (e, poll_window_events) c
    | inr (h, e) ↦
        rw (e, poll_window_events)
          (let (named, i) = showing env laws s h e c in
            polled-IsCoherent s h _ e named (laws.poll_keeps h s.world i))
  ]

  Step-IsCoherent :
      {s t : Server W H} → Step env s t → IsCoherent Idle Showing s → IsCoherent Idle Showing t
  Step-IsCoherent {s} (request conn r) c = handle_request-IsCoherent env laws conn s c r
  Step-IsCoherent {s} poll c = poll-IsCoherent s c
  Step-IsCoherent {s} (subscription conn) c = subscribe-IsCoherent conn s c

  -- From its start, whatever requests, events and subscriptions come, the server keeps a window
  -- handle and a nonempty id exactly while the backend has that window open, and neither otherwise.
  -- The backend is any that meets the one-window contract.
  pub Reach-IsCoherent :
      (w : W) {s : Server W H} → Idle w → Reach env (started w) s → IsCoherent Idle Showing s
  Reach-IsCoherent w i here = (refl, i)
  Reach-IsCoherent w i (next r st) = Step-IsCoherent st (Reach-IsCoherent w i r)
