-- ===== src/WindowManager/Server/Events.antt =====
-- window-manager/server/server.go: subscriptions, `broadcastEvent` and `pollWindowEvents`.
use tac_os.Base.{ℕ, if◌then◌else◌, true, Bytes, codes, bytes_eq, List, [], ◌∷◌, none, some}
use tac_os.WindowManager.Backend.{Fallible, value, error, Environment}
use tac_os.WindowManager.Protocol.{Response, success}
use tac_os.WindowManager.Server.{Server, close_window}

abbrev pub event_response : Bytes → Bytes → Response
event_response event window_id = record {
  ok = true;
  message = [];
  event = event;
  window_id = window_id;
}

module _ {W H : Type 0} (env : Environment W H) where
  -- the loop over the clients; a client whose write fails is dropped. Go's order of iteration is
  -- not fixed: the list stands for the order of this run.
  unfoldable pub send_all : Response → List ℕ → W → W × List ℕ
  send_all r [] w = (w, [])
  send_all r (conn ∷ conns) w =
      let (w', written) = env.write_response conn r w in
      let (w'', kept) = send_all r conns w' in (w'', if written then conn ∷ kept else kept)

  unfoldable pub broadcast_event : Bytes → Bytes → Server W H → Server W H
  unfolding send_all
  broadcast_event event id s =
      let (w, kept) = send_all (event_response event id) s.event_clients s.world in
      record s { world = w; event_clients = kept }

  -- a connection to the event socket
  unfoldable pub subscribe : ℕ → Server W H → Server W H
  subscribe conn s =
      let (w, written) = env.write_response conn (success "subscribed") s.world in
      record s {
        world = w;
        event_clients = if written then conn ∷ s.event_clients else s.event_clients;
      }

  -- `id := s.windowID; … s.broadcastEvent("window_close", id)`
  unfoldable pub close_on_event : H → Server W H → Server W H × Fallible (Unit {0})
  close_on_event h s =
      let (s', r) = close_window env h s in
      (broadcast_event (codes "window_close") s.window_id s', r)

  -- the loop over the events; it ends with the first `window_close`
  unfoldable pub handle_events : H → List Bytes → Server W H → Server W H × Fallible (Unit {0})
  handle_events h [] s = (s, value tt)
  handle_events h (event ∷ events) s =
      let later = handle_events h events s in
      if bytes_eq event (codes "window_close") then close_on_event h s else later

  unfoldable pub polled :
      H → Server W H → W × Fallible (List Bytes) → Server W H × Fallible (Unit {0})
  polled h s (w, error e) = (record s { world = w }, error e)
  polled h s (w, value events) = handle_events h events (record s { world = w })

  unfoldable pub poll_window_events : Server W H → Server W H × Fallible (Unit {0})
  poll_window_events s = elim s.window [
    | none ↦ (s, value tt)
    | some h ↦ polled h s (env.poll_events h s.world)
  ]
