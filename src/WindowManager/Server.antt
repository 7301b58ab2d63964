-- ===== src/WindowManager/Server.antt =====
-- window-manager/server/server.go: the state of the server. Its locks make each handler one step.
-- A connection is a number.
pub mod Commands
pub mod Events
pub mod Coherent
pub mod Requests
pub mod Runs
pub mod Polling
use tac_os.Base.{ℕ, Bool, false, Bytes, [], List, Option, none}
use tac_os.WindowManager.Protocol.{Response}
use tac_os.WindowManager.Backend.{Environment, Fallible}

pub record Server (W H : Type 0) : Type 0 where
  pub window : Option H
  pub window_id : Bytes
  -- `stop` is closed
  pub stopped : Bool
  pub event_clients : List ℕ
  pub world : W

module _ {W H : Type 0} where
  -- the state that `Run` starts its loop in
  abbrev pub started : W → Server W H
  started w = record {
    window = none;
    window_id = [];
    stopped = false;
    event_clients = [];
    world = w;
  }

  -- one response is written to the connection of the request, and is what the handler returns
  unfoldable pub respond : Environment W H → ℕ → Response → Server W H → Server W H × Response
  respond env conn r s = (record s { world = (env.write_response conn r s.world).0 }, r)

  -- `closeErr := s.window.Close(); s.window = nil; s.windowID = ""`
  abbrev pub close_window : Environment W H → H → Server W H → Server W H × Fallible (Unit {0})
  close_window env h s =
      let (w, r) = env.close h s.world in (record s { window = none; window_id = []; world = w }, r)
