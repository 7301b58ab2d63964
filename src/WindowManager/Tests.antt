-- ===== src/WindowManager/Tests.antt =====
-- Runs of window-manager/server at concrete inputs. The backend here counts the windows open, the
-- world is that count, and connection 2 is broken.
use tac_os.Base.{
  if◌then◌else◌, ◌==◌, ◌+◌, ℕ, ◌≡◌, ◌⊎◌, refl, true, false, not, ◌==◌, pos, codes, [], ◌∷◌, Bytes,
  none, some,
}
use tac_os.WindowManager.Backend.{error, value, Environment, OneWindow}
use tac_os.WindowManager.Headless.{Canvas}
use tac_os.WindowManager.Protocol.{Request}
use tac_os.WindowManager.Server.{Server, started}
use tac_os.WindowManager.Server.Coherent.{IsCoherent}
use tac_os.WindowManager.Server.Commands.{handle_request}
use tac_os.WindowManager.Server.Events.{subscribe, poll_window_events}
use tac_os.WindowManager.Server.Polling.{any_close, only, poll_window_events_lem}
use tac_os.WindowManager.Server.Runs.{here, next, request, poll, subscription, Reach-IsCoherent}

-- A window is its count when it was opened.
abbrev counting : Environment ℕ ℕ
counting = record {
  create = λ cfg w. if w == 0 then (1, value 1) else (w, error (codes "a window is open"));
  show = λ h w. (w, value tt);
  close = λ h w. (0, value tt);
  poll_events = λ h w. (w, value (codes "key" ∷ codes "window_close" ∷ []));
  is_drawing = λ h. false;
  begin_frame = λ h c w. (w, value tt);
  draw_image = λ h path x y width height w. (w, value tt);
  draw_circle = λ h x y radius c w. (w, value tt);
  present = λ h w. (w, value tt);
  write_response = λ conn r w. (w, not (conn == 2));
}

abbrev NoneOpen : ℕ → Type 0
NoneOpen w = w ≡ 0

abbrev OneOpen : ℕ → ℕ → Type 0
OneOpen h w = (h ≡ 1) × (w ≡ 1)

counting-OneWindow : OneWindow counting NoneOpen OneOpen
counting-OneWindow = record {
  create_opens = λ cfg w i. rw i (refl, refl);
  create_refuses = λ cfg h w i. rw (i.1) ((_, refl), (i.0, refl));
  close_closes = λ h w i. refl;
  show_keeps = λ h w i. i;
  poll_keeps = λ h w i. i;
  begin_frame_keeps = λ h c w i. i;
  draw_image_keeps = λ h path x y width height w i. i;
  draw_circle_keeps = λ h x y radius c w i. i;
  present_keeps = λ h w i. i;
  write_keeps_idle = λ conn r w i. i;
  write_keeps_showing = λ conn r h w i. i;
}

abbrev request_of : Bytes → Request
request_of command = record {
  command = command;
  window_id = codes "main";
  title = [];
  width = pos 0;
  height = pos 480;
  image_path = [];
  x = none;
  y = none;
  radius = pos 0;
  color = none;
}

-- CREATE, then a subscription, then a poll
abbrev subscribed : Server ℕ ℕ
subscribed =
    subscribe counting 3
      (handle_request counting 1 (value (request_of (codes " create"))) (started 0)).0

Reach-IsCoherent_example : IsCoherent NoneOpen OneOpen (poll_window_events counting subscribed).0
Reach-IsCoherent_example = Reach-IsCoherent counting counting-OneWindow 0 refl (
    next (next (next here (request 1 (value (request_of (codes " create"))))) (subscription 3))
      poll)

-- a window is open, and the connections 1, 2 and 3 have subscribed
abbrev showing : Server ℕ ℕ
showing = record (started 1) {
  window = some 1;
  window_id = codes "main";
  event_clients = 1 ∷ 2 ∷ 3 ∷ [];
}

poll_window_events_lem_example :
    ((any_close (codes "key" ∷ codes "window_close" ∷ []) ≡ true)
      × ((poll_window_events counting showing).0.window ≡ none)
      × ((poll_window_events counting showing).0.window_id ≡ [])
      × ((poll_window_events counting showing).0.event_clients
          ≡ only (λ conn. not (conn == 2)) (1 ∷ 2 ∷ 3 ∷ [])))
    ⊎ ((any_close (codes "key" ∷ codes "window_close" ∷ []) ≡ false)
        × (poll_window_events counting showing ≡ (showing, value tt)))
poll_window_events_lem_example =
    poll_window_events_lem counting (λ conn. not (conn == 2)) (λ conn r w. refl) showing 1 1
      (codes "key" ∷ codes "window_close" ∷ []) refl refl

-- a canvas that counts what was drawn
abbrev strokes : Canvas ℕ
strokes = record {
  blank = λ width height. 0;
  fill = λ c p. 0;
  image = λ path x y width height p. error (codes "no such file");
  circle = λ x y radius c p. p + 1;
}
