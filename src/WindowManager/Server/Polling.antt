-- ===== src/WindowManager/Server/Polling.antt =====
-- window-manager/server/server.go: what `pollWindowEvents` and `broadcastEvent` do to the subscribers.
use tac_os.Base.{
  ℕ, ◌≡◌, ◌⊎◌, refl, Bool, true, false, Bool-cases, inl, inr, if◌then◌else◌, ◌||◌, Bytes, codes,
  bytes_eq, List, [], ◌∷◌, none, some,
}
use tac_os.WindowManager.Backend.{value, Environment}
use tac_os.WindowManager.Protocol.{Response}
use tac_os.WindowManager.Server.{Server}
use tac_os.WindowManager.Server.Events.{
  send_all, broadcast_event, close_on_event, handle_events, polled, poll_window_events,
}

-- One of the events is `window_close`.
abbrev pub any_close : List Bytes → Bool
any_close [] = false
any_close (event ∷ events) = bytes_eq event (codes "window_close") || any_close events

-- The connections that are alive.
abbrev pub only : (ℕ → Bool) → List ℕ → List ℕ
only alive [] = []
only alive (conn ∷ conns) = let rest = only alive conns in if alive conn then conn ∷ rest else rest

module _ {W H : Type 0} (env : Environment W H) where
  handle_events-any_close :
      (h : H) (events : List Bytes) (s : Server W H)
      → handle_events env h events s
        ≡ (if any_close events then close_on_event env h s else (s, value tt))
  unfolding handle_events
  handle_events-any_close h [] s = refl
  handle_events-any_close h (event ∷ events) s =
      elim (Bool-cases (bytes_eq event (codes "window_close"))) [
        | inl e ↦ rw e refl
        | inr e ↦ rw e (handle_events-any_close h events s)
      ]

  poll_window_events-polled :
      (s : Server W H) (h : H)
      → s.window ≡ some h
      → poll_window_events env s ≡ polled env h s (env.poll_events h s.world)
  unfolding poll_window_events
  poll_window_events-polled s h e = rw e refl

  module _ (alive : ℕ → Bool)
      (fails : (conn : ℕ) (r : Response) (w : W)
        → (env.write_response conn r w).1 ≡ alive conn) where
    send_all-only :
        (r : Response) (conns : List ℕ) (w : W) → (send_all env r conns w).1 ≡ only alive conns
    unfolding send_all
    send_all-only r [] w = refl
    send_all-only r (conn ∷ conns) w =
        rw (fails conn r w, send_all-only r conns (env.write_response conn r w).0) refl

    -- Where the events of the open window are read, a write to a connection succeeds if and only if
    -- it is alive, and the events hold a `window_close`: the window and its id are gone, and the
    -- subscribers that are alive stay, in their order. Without a `window_close` only the world has
    -- changed.
    pub poll_window_events_lem :
        (s : Server W H) (h : H) (w : W) (events : List Bytes)
        → s.window ≡ some h
        → env.poll_events h s.world ≡ (w, value events)
        → ((any_close events ≡ true)
            × ((poll_window_events env s).0.window ≡ none)
            × ((poll_window_events env s).0.window_id ≡ [])
            × ((poll_window_events env s).0.event_clients ≡ only alive s.event_clients))
          ⊎ ((any_close events ≡ false)
              × (poll_window_events env s ≡ (record s { world = w }, value tt)))
    unfolding polled close_on_event broadcast_event
    poll_window_events_lem s h w events e p =
        rw
          (
            poll_window_events-polled s h e,
            p,
            handle_events-any_close h events (record s { world = w }),
          )
          (elim (Bool-cases (any_close events)) [
            | inl b ↦ rw b (inl (refl, refl, refl, send_all-only _ s.event_clients _))
            | inr b ↦ rw b (inr (refl, refl))
          ])
