-- ===== src/WindowManager/Backend.antt =====
-- window-manager/backend/backend.go: the interfaces that a backend implements, and the connections.
-- `W` is the state of the world behind them, `H` a window value; each operation may change the world.
use tac_os.Base.{ℕ, ◌≡◌, ℤ, Bool, Bytes, List}
use tac_os.WindowManager.Protocol.{Color, Response}

pub record WindowConfig : Type 0 where
  pub id : Bytes
  pub title : Bytes
  pub width : ℤ
  pub height : ℤ

-- A value, or the text of an error.
pub data Fallible {ℓ} (A : Type ℓ) : Type ℓ where
  value : A → Fallible A
  error : Bytes → Fallible A

pub record Environment (W H : Type 0) : Type 0 where
  pub create : WindowConfig → W → W × Fallible H
  pub show : H → W → W × Fallible (Unit {0})
  pub close : H → W → W × Fallible (Unit {0})
  pub poll_events : H → W → W × Fallible (List Bytes)
  -- the window is a `DrawingWindow` too
  pub is_drawing : H → Bool
  pub begin_frame : H → Color → W → W × Fallible (Unit {0})
  pub draw_image : H → Bytes → ℤ → ℤ → ℤ → ℤ → W → W × Fallible (Unit {0})
  pub draw_circle : H → ℤ → ℤ → ℤ → Color → W → W × Fallible (Unit {0})
  pub present : H → W → W × Fallible (Unit {0})
  -- `protocol.WriteResponse`; false if the write failed
  pub write_response : ℕ → Response → W → W × Bool

-- What a call that may open a window leaves behind.
abbrev pub Opens : {W H : Type 0} → (W → Type 0) → (H → W → Type 0) → W × Fallible H → Type 0
Opens Idle Showing (w, value h) = Showing h w
Opens Idle Showing (w, error e) = Idle w

-- The contract of a backend with at most one window: `Idle w`, no window is open; `Showing h w`,
-- the window `h` is. Connections have no part in it.
pub record OneWindow {W H : Type 0} (env : Environment W H) (Idle : W → Type 0)
    (Showing : H → W → Type 0) : Type 0 where
  pub create_opens : (cfg : WindowConfig) (w : W) → Idle w → Opens Idle Showing (env.create cfg w)
  -- a second window is refused, and the first stays
  pub create_refuses :
      (cfg : WindowConfig) (h : H) (w : W)
      → Showing h w
      → ((e : Bytes) × ((env.create cfg w).1 ≡ error e)) × Showing h (env.create cfg w).0
  pub close_closes : (h : H) (w : W) → Showing h w → Idle (env.close h w).0
  pub show_keeps : (h : H) (w : W) → Showing h w → Showing h (env.show h w).0
  pub poll_keeps : (h : H) (w : W) → Showing h w → Showing h (env.poll_events h w).0
  pub begin_frame_keeps :
      (h : H) (c : Color) (w : W) → Showing h w → Showing h (env.begin_frame h c w).0
  pub draw_image_keeps :
      (h : H) (path : Bytes) (x y width height : ℤ) (w : W)
      → Showing h w
      → Showing h (env.draw_image h path x y width height w).0
  pub draw_circle_keeps :
      (h : H) (x y radius : ℤ) (c : Color) (w : W)
      → Showing h w
      → Showing h (env.draw_circle h x y radius c w).0
  pub present_keeps : (h : H) (w : W) → Showing h w → Showing h (env.present h w).0
  pub write_keeps_idle :
      (conn : ℕ) (r : Response) (w : W) → Idle w → Idle (env.write_response conn r w).0
  pub write_keeps_showing :
      (conn : ℕ) (r : Response) (h : H) (w : W)
      → Showing h w
      → Showing h (env.write_response conn r w).0
