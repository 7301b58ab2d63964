-- ===== src/TacticalMap/Served.antt =====
-- app/map and window-manager: the commands of `BuildFrame` at the window server. A command is sent as
-- JSON, whose fields are those of a request; one that is left out has the zero value.
use tac_os.Base.{
  ℕ, ◌≡◌, refl, sym, subst, ap, ℤ, pos, is_positive, if◌then◌else◌, true, false, not, String, Bytes,
  bytes_eq, codes, List, [], ◌∷◌, All, Option, none, some,
}
use tac_os.TacticalMap.Config.{Geo, Config, Target}
use tac_os.TacticalMap.Frame.{
  Command, Marker, built, circles, alpha, rgba, draw_circle, draw_image, begin_frame, present,
  build_frame,
}
use tac_os.TacticalMap.Frame.Total.{validate-inv}
use tac_os.TacticalMap.Frame.Shape.{all_circles, build_frame-IsFrame}
use tac_os.WindowManager.Backend.{Environment, Fallible, value}
use tac_os.WindowManager.Protocol.{Color, Request, Response, refusal}
use tac_os.WindowManager.Server.{Server, respond}
use tac_os.WindowManager.Server.Commands.{
  normalize, trim_left, handle_request, dispatch, drawing, begin_frame_on, draw_image_on,
  draw_image_at, draw_circle_on, draw_circle_at, present_on, call, outcome, no_window,
}

-- what the server decodes from the command that `Client.Send` encodes
abbrev pub to_request : Command → Request
to_request c = record {
  command = c.command;
  window_id = c.window_id;
  title = c.title;
  width = c.width;
  height = c.height;
  image_path = c.image_path;
  x = c.x;
  y = c.y;
  radius = c.radius;
  color = c.color;
}

module _ {W H : Type 0} (env : Environment W H) (conn : ℕ) where
  abbrev pub serve : Command → Server W H → Server W H × Response
  serve c s = handle_request env conn (value (to_request c)) s

  -- the responses to commands that are sent one after the other
  abbrev pub responses : List Command → Server W H → List Response
  responses [] s = []
  responses (c ∷ cs) s = let (t, r) = serve c s in r ∷ responses cs t

-- A drawing window `h` whose calls succeed while `Showing` holds of the world, which they keep: with
-- the image at `path`, sizes and radii that are positive, and any coordinates and colors.
pub record Draws {W H : Type 0} (env : Environment W H) (h : H) (path : Bytes)
    (Showing : W → Type 0) : Type 0 where
  pub is_drawing : env.is_drawing h ≡ true
  pub begins :
      (c : Color) (w : W)
      → Showing w
      → ((env.begin_frame h c w).1 ≡ value tt) × Showing (env.begin_frame h c w).0
  pub draws_image :
      (x y width height : ℤ) (w : W)
      → is_positive width ≡ true
      → is_positive height ≡ true
      → Showing w
      → ((env.draw_image h path x y width height w).1 ≡ value tt)
        × Showing (env.draw_image h path x y width height w).0
  pub draws_circle :
      (x y radius : ℤ) (c : Color) (w : W)
      → is_positive radius ≡ true
      → Showing w
      → ((env.draw_circle h x y radius c w).1 ≡ value tt)
        × Showing (env.draw_circle h x y radius c w).0
  pub presents :
      (w : W) → Showing w → ((env.present h w).1 ≡ value tt) × Showing (env.present h w).0
  pub write_keeps :
      (conn : ℕ) (r : Response) (w : W) → Showing w → Showing (env.write_response conn r w).0

-- The server has the window `h`, which is open.
pub record HasOpen {W H : Type 0} (h : H) (Showing : W → Type 0) (s : Server W H) : Type 0 where
  pub has_window : s.window ≡ some h
  pub showing : Showing s.world

-- The request was answered with OK, and the window is still open.
pub record IsServed {W H : Type 0} (h : H) (Showing : W → Type 0) (r : Server W H × Response)
    : Type 0 where
  pub still_open : HasOpen h Showing r.0
  pub is_ok : r.1.ok ≡ true

module _ {W H : Type 0} (env : Environment W H) (conn : ℕ) (h : H) (path : Bytes)
    (Showing : W → Type 0) (draws : Draws env h path Showing) where
  drawing-run :
      (run : H → Server W H → Server W H × Response) (s : Server W H)
      → s.window ≡ some h
      → IsServed h Showing (run h s)
      → IsServed h Showing (drawing env conn run s)
  unfolding drawing
  drawing-run run s o r =
      subst (λ w. IsServed h Showing (at_window w)) (sym o) (rw draws.is_drawing r)
    where
      at_window : Option H → Server W H × Response
      at_window none = respond env conn no_window s
      at_window (some k) =
          if not (env.is_drawing k)
          then respond env conn (refusal (codes "drawing is not supported")) s
          else run k s

  -- a call that succeeds, and its response
  call-IsServed :
      (message : String) (run : W → W × Fallible (Unit {0})) (s : Server W H)
      → s.window ≡ some h
      → ((run s.world).1 ≡ value tt) × Showing (run s.world).0
      → IsServed h Showing (call env conn message run s)
  unfolding respond
  call-IsServed message run s o e = record {
    still_open = record {
      has_window = o;
      showing = draws.write_keeps conn (outcome message (run s.world).1) (run s.world).0 e.1;
    };
    is_ok = ap (λ r. (outcome message r).ok) e.0;
  }

  serve-begin_frame :
      (s : Server W H) → HasOpen h Showing s → IsServed h Showing (serve env conn begin_frame s)
  unfolding handle_request dispatch normalize trim_left bytes_eq begin_frame_on
  serve-begin_frame s o = drawing-run (begin_frame_on env conn begin_frame.color) s o.has_window (
      call-IsServed "frame started" (env.begin_frame h (rgba 225 232 213 255)) s o.has_window
        (draws.begins (rgba 225 232 213 255) s.world o.showing))

  serve-draw_image :
      {F : Type 0} (cfg : Config F) (s : Server W H)
      → cfg.image ≡ path
      → bytes_eq cfg.image [] ≡ false
      → is_positive cfg.width ≡ true
      → is_positive cfg.height ≡ true
      → HasOpen h Showing s
      → IsServed h Showing (serve env conn (draw_image cfg) s)
  unfolding handle_request dispatch normalize trim_left bytes_eq draw_image_on draw_image_at
  serve-draw_image cfg s same named wide high o =
      drawing-run (draw_image_on env conn (to_request (draw_image cfg))) s o.has_window (
        rw (named, wide, high)
          (call-IsServed "image drawn"
            (env.draw_image h cfg.image (pos 0) (pos 0) cfg.width cfg.height) s o.has_window
            (subst
              (λ p.
                ((env.draw_image h p (pos 0) (pos 0) cfg.width cfg.height s.world).1 ≡ value tt)
                × Showing (env.draw_image h p (pos 0) (pos 0) cfg.width cfg.height s.world).0)
              (sym same)
              (draws.draws_image (pos 0) (pos 0) cfg.width cfg.height s.world wide high
                o.showing))))

  serve-draw_circle :
      (x y : ℤ) (radius : ℕ) (c : Color) (s : Server W H)
      → is_positive (pos radius) ≡ true
      → HasOpen h Showing s
      → IsServed h Showing (serve env conn (draw_circle x y radius c) s)
  unfolding handle_request dispatch normalize trim_left bytes_eq draw_circle_on draw_circle_at
  serve-draw_circle x y radius c s more o =
      drawing-run (draw_circle_on env conn (to_request (draw_circle x y radius c))) s o.has_window (
        rw more (
          call-IsServed "circle drawn" (env.draw_circle h x y (pos radius) c) s o.has_window
            (draws.draws_circle x y (pos radius) c s.world more o.showing)))

  serve-present :
      (s : Server W H) → HasOpen h Showing s → IsServed h Showing (serve env conn present s)
  unfolding handle_request dispatch normalize trim_left bytes_eq present_on
  serve-present s o = drawing-run (present_on env conn) s o.has_window (
      call-IsServed "frame presented" (env.present h) s o.has_window
        (draws.presents s.world o.showing))

  -- Every request of a list is answered with OK.
  abbrev pub AllServed : List Command → Server W H → Type 0
  AllServed cs s = All (λ (r : Response). r.ok ≡ true) (responses env conn cs s)

  -- a command, and those that follow it
  then_served :
      (c : Command) (cs : List Command) (s : Server W H)
      → IsServed h Showing (serve env conn c s)
      → ((t : Server W H) → HasOpen h Showing t → AllServed cs t)
      → AllServed (c ∷ cs) s
  then_served c cs s served later = (served.is_ok, later (serve env conn c s).0 served.still_open)

  circles-AllServed :
      {F : Type 0} ⦃geo : Geo F⦄ (ms : List (Marker F)) (s : Server W H)
      → HasOpen h Showing s
      → AllServed (all_circles ms) s
  unfolding circles
  circles-AllServed [] s o = then_served present [] s (serve-present s o) (λ t p. tt)
  circles-AllServed (m ∷ ms) s o =
      let white = rgba 255 255 255 255 in
      let red = rgba 196 72 48 (alpha m.target.probability) in
      let inner = draw_circle m.x m.y 10 red in
      then_served (draw_circle m.x m.y 13 white) (inner ∷ all_circles ms) s
        (serve-draw_circle m.x m.y 13 white s refl o)
        λ t p.
          then_served inner (all_circles ms) t (serve-draw_circle m.x m.y 10 red t refl p)
            λ u q. circles-AllServed ms u q

  -- Every command of a frame that `BuildFrame` makes is answered with OK by the window server, whose
  -- window is open and draws the image of the configuration, and any disc: no check of a request
  -- refuses it.
  pub build_frame-AllServed :
      {F : Type 0} ⦃geo : Geo F⦄ (cfg : Config F) (ts : List (Target F)) {cs : List Command}
      {ms : List (Marker F)} (s : Server W H)
      → build_frame cfg ts ≡ built (cs, ms)
      → cfg.image ≡ path
      → HasOpen h Showing s
      → AllServed cs s
  build_frame-AllServed cfg ts {cs} {ms} s e same o =
      let f = build_frame-IsFrame cfg ts e in
      let (_, width_ok, height_ok, image_ok, _) = validate-inv cfg f.config_valid in
      rw f.commands (
        then_served begin_frame (draw_image cfg ∷ all_circles ms) s (serve-begin_frame s o) λ t p.
          then_served (draw_image cfg) (all_circles ms) t
            (serve-draw_image cfg t same image_ok (rw width_ok refl) (rw height_ok refl) p)
            λ u q. circles-AllServed ms u q)
