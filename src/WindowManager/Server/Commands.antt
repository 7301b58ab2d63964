-- ===== src/WindowManager/Server/Commands.antt =====
-- window-manager/server/server.go: `handleRequest`, a function for each command.
use tac_os.Base.{
  ℕ, ◌-◌, ◌==◌, leb, if◌then◌else◌, ℤ, is_positive, is_zero, Bool, not, ◌&&◌, ◌||◌, Bytes, codes,
  bytes_eq, [], ◌∷◌, ◌++◌, map, reverse, Option, none, some, pos, String,
}
use tac_os.WindowManager.Backend.{WindowConfig, Fallible, value, error, Environment}
use tac_os.WindowManager.Protocol.{Color, Request, Response, refusal, success}
use tac_os.WindowManager.Server.{Server, respond, close_window}

-- a space of `strings.TrimSpace`, in ASCII
abbrev is_space : ℕ → Bool
is_space c = c == b' ' || leb 9 c && leb c 13

unfoldable pub trim_left : Bytes → Bytes
trim_left [] = []
trim_left (c ∷ cs) = let rest = trim_left cs in if is_space c then rest else c ∷ cs

abbrev to_upper : ℕ → ℕ
to_upper c = if leb b'a' c && leb c b'z' then c - 32 else c

-- `strings.ToUpper(strings.TrimSpace(command))`, in ASCII
unfoldable pub normalize : Bytes → Bytes
unfolding trim_left
normalize command = map to_upper (reverse (trim_left (reverse (trim_left command))))

-- `if s == "" { s = fallback }`
unfoldable pub or_default : Bytes → String → Bytes
or_default [] fallback = codes fallback
or_default (c ∷ cs) fallback = c ∷ cs

-- `if n == 0 { n = fallback }`
unfoldable pub or_size : ℤ → ℕ → ℤ
or_size n fallback = if is_zero n then pos fallback else n

unfoldable pub config_of : Request → WindowConfig
unfolding or_default or_size
config_of req = record {
  id = or_default req.window_id "map";
  title = or_default req.title "Tactical Map";
  width = or_size req.width 960;
  height = or_size req.height 640;
}

abbrev pub no_window : Response
no_window = refusal (codes "no window; send CREATE first")

-- the response to a drawing call, by its error
abbrev pub outcome : String → Fallible (Unit {0}) → Response
outcome message (value _) = success message
outcome message (error e) = refusal e

module _ {W H : Type 0} (env : Environment W H) (conn : ℕ) where
  unfoldable pub created : WindowConfig → Server W H → W × Fallible H → Server W H × Response
  created cfg s (w, error e) = respond env conn (refusal e) (record s { world = w })
  created cfg s (w, value h) =
      respond env conn (record (success "created") { window_id = cfg.id })
        (record s { world = w; window = some h; window_id = cfg.id })

  unfoldable pub handle_create : Request → Server W H → Server W H × Response
  handle_create req s = elim s.window [
    | some _ ↦ respond env conn (refusal (codes "window already exists")) s
    | none ↦ created (config_of req) s (env.create (config_of req) s.world)
  ]

  -- a command that calls the window and answers by the error
  abbrev pub call : String → (W → W × Fallible (Unit {0})) → Server W H → Server W H × Response
  call message run s =
      let (w, r) = run s.world in respond env conn (outcome message r) (record s { world = w })

  unfoldable pub handle_show : Server W H → Server W H × Response
  handle_show s = elim s.window [
    | none ↦ respond env conn no_window s
    | some h ↦ call "shown" (env.show h) s
  ]

  unfoldable pub handle_close : Server W H → Server W H × Response
  handle_close s = elim s.window [
    | none ↦ respond env conn no_window s
    | some h ↦ let (s', r) = close_window env h s in respond env conn (outcome "closed" r) s'
  ]

  -- `stop` is closed once the response is written
  unfoldable pub stop_with : Server W H → Server W H × Response
  stop_with s =
      let (w, written) = env.write_response conn (success "stopping") s.world in
      (record s { world = w; stopped = s.stopped || written }, success "stopping")

  unfoldable pub quit_closed : Server W H → Fallible (Unit {0}) → Server W H × Response
  quit_closed s (error e) = respond env conn (refusal e) s
  quit_closed s (value _) = stop_with s

  unfoldable pub handle_quit : Server W H → Server W H × Response
  handle_quit s = elim s.window [
    | none ↦ stop_with s
    | some h ↦ let (s', r) = close_window env h s in quit_closed s' r
  ]

  -- the guards that the drawing commands share, and what they guard
  unfoldable pub drawing :
      (H → Server W H → Server W H × Response) → Server W H → Server W H × Response
  drawing run s = elim s.window [
    | none ↦ respond env conn no_window s
    | some h ↦
        if not (env.is_drawing h)
        then respond env conn (refusal (codes "drawing is not supported")) s
        else run h s
  ]

  unfoldable pub begin_frame_on : Option Color → H → Server W H → Server W H × Response
  begin_frame_on none h s = respond env conn (refusal (codes "color is required")) s
  begin_frame_on (some c) h s = call "frame started" (env.begin_frame h c) s

  unfoldable pub draw_image_at :
      Request → Option ℤ → Option ℤ → H → Server W H → Server W H × Response
  draw_image_at req (some x) (some y) h s =
      if bytes_eq req.image_path [] || not (is_positive req.width) || not (is_positive req.height)
      then respond env conn (refusal (codes "image_path, x, y, width and height are required")) s
      else call "image drawn" (env.draw_image h req.image_path x y req.width req.height) s
  draw_image_at req x y h s =
      respond env conn (refusal (codes "image_path, x, y, width and height are required")) s

  unfoldable pub draw_image_on : Request → H → Server W H → Server W H × Response
  draw_image_on req h s = draw_image_at req req.x req.y h s

  unfoldable pub draw_circle_at :
      Request → Option ℤ → Option ℤ → Option Color → H → Server W H → Server W H × Response
  draw_circle_at req (some x) (some y) (some c) h s =
      if not (is_positive req.radius)
      then respond env conn (refusal (codes "x, y, positive radius and color are required")) s
      else call "circle drawn" (env.draw_circle h x y req.radius c) s
  draw_circle_at req x y c h s =
      respond env conn (refusal (codes "x, y, positive radius and color are required")) s

  unfoldable pub draw_circle_on : Request → H → Server W H → Server W H × Response
  draw_circle_on req h s = draw_circle_at req req.x req.y req.color h s

  unfoldable pub present_on : H → Server W H → Server W H × Response
  present_on h s = call "frame presented" (env.present h) s

  -- the `switch cmd`
  unfoldable pub dispatch : Bytes → Request → Server W H → Server W H × Response
  dispatch cmd req s =
      if bytes_eq cmd (codes "CREATE")
      then handle_create req s
      else if bytes_eq cmd (codes "SHOW")
      then handle_show s
      else if bytes_eq cmd (codes "CLOSE")
      then handle_close s
      else if bytes_eq cmd (codes "QUIT")
      then handle_quit s
      else if bytes_eq cmd (codes "BEGIN_FRAME")
      then drawing (begin_frame_on req.color) s
      else if bytes_eq cmd (codes "DRAW_IMAGE")
      then drawing (draw_image_on req) s
      else if bytes_eq cmd (codes "DRAW_CIRCLE")
      then drawing (draw_circle_on req) s
      else if bytes_eq cmd (codes "PRESENT")
      then drawing present_on s
      else respond env conn (refusal (codes "unknown command: " ++ cmd)) s

  -- the request as it was read, or the read error
  unfoldable pub handle_request : Fallible Request → Server W H → Server W H × Response
  handle_request (error e) s = respond env conn (refusal e) s
  handle_request (value req) s = dispatch (normalize req.command) req s
