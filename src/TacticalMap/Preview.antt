-- ===== src/TacticalMap/Preview.antt =====
-- app/map/preview.go: `RenderPreview`. The canvas and its drawing, and the files, are Go's library, and
-- parameters.
pub mod Accepts
use tac_os.Base.{
  ℕ, zero, suc, ◌-◌, ◌*◌, ◌≤◌, leb, ℤ, pos, negsuc, int_eq, int_ltb, is_positive, is_zero, ◌+ℤ◌,
  negated, if◌then◌else◌, Bool, true, false, not, ◌||◌, ◌&&◌, Bytes, bytes_eq, codes, List, [], ◌∷◌,
  Option, none, some,
}
use tac_os.TacticalMap.Config.{Geo, Config, ConfigError, validate}
use tac_os.TacticalMap.Frame.{Command}
use tac_os.WindowManager.Protocol.{Color}

-- What opening, decoding and closing a PNG gives.
pub data Png (I : Type 0) : Type 0 where
  decoded : I → ℤ → ℤ → Png I
  unopened undecoded unclosed : Png I

pub record Drawing (C I : Type 0) : Type 0 where
  -- `image.NewRGBA`, of this width and height
  pub blank : ℤ → ℤ → C
  pub fill : Color → C → C
  pub open_png : Bytes → Png I
  pub draw_over : I → C → C
  -- the part within the canvas of a row: from x up to before x', at y
  pub draw_row : (x x' y : ℤ) → Color → C → C

pub data PreviewError : Type 0 where
  invalid_config : ConfigError → PreviewError
  bad_window no_begin bad_begin bad_image open_failed decode_failed close_failed bad_png bad_circle
        bad_center missing_present :
      PreviewError
  unsupported : Bytes → PreviewError

pub data Rendered (A : Type 0) : Type 0 where
  rendered : A → Rendered A
  preview_failed : PreviewError → Rendered A

pub record Preview (C : Type 0) : Type 0 where
  pub started : Bool
  pub presented : Bool
  pub canvas : C

-- `int(math.Sqrt(float64(n)))`, for an n up to k * k
unfoldable pub sqrt : ℕ → ℕ → ℕ
sqrt zero n = 0
sqrt (suc k) n = let less = sqrt k n in if leb (suc k * suc k) n then suc k else less

-- the absolute value of `dy`
abbrev pub absolute : ℤ → ℕ
absolute (pos n) = n
absolute (negsuc n) = suc n

module _ {C I : Type 0} (drawing : Drawing C I) where
  -- one round of the loop over `dy`
  unfoldable pub circle_row : (cx cy : ℤ) (radius : ℕ) → Color → ℤ → C → C
  unfolding sqrt
  circle_row cx cy radius color dy c =
      let dx = sqrt radius (radius * radius - absolute dy * absolute dy) in
      drawing.draw_row (cx +ℤ negated dx) (cx +ℤ pos dx +ℤ pos 1) (cy +ℤ dy) color c

  -- `for dy := …; dy <= radius; dy++`, with the count of the rounds
  unfoldable pub circle_rows : ℕ → ℤ → (cx cy : ℤ) (radius : ℕ) → Color → C → C
  unfolding circle_row
  circle_rows zero dy cx cy radius color c = c
  circle_rows (suc n) dy cx cy radius color c =
      circle_rows n (dy +ℤ pos 1) cx cy radius color (circle_row cx cy radius color dy c)

  unfoldable pub draw_circle : (cx cy : ℤ) (radius : ℕ) → Color → C → C
  unfolding circle_rows
  draw_circle cx cy radius color c =
      circle_rows (suc (radius * 2)) (negated radius) cx cy radius color c

  -- `case "BEGIN_FRAME"`
  unfoldable pub on_begin : Preview C → Option Color → Rendered (Preview C)
  on_begin p none = preview_failed bad_begin
  on_begin p (some color) =
      if p.started
      then preview_failed bad_begin
      else rendered (record p { started = true; canvas = drawing.fill color p.canvas })

  unfoldable pub on_png : {F : Type 0} → Config F → Preview C → Png I → Rendered (Preview C)
  on_png cfg p unopened = preview_failed open_failed
  on_png cfg p undecoded = preview_failed decode_failed
  on_png cfg p unclosed = preview_failed close_failed
  on_png cfg p (decoded background width height) =
      if not (int_eq width cfg.width) || not (int_eq height cfg.height)
      then preview_failed bad_png
      else rendered (record p { canvas = drawing.draw_over background p.canvas })

  -- `case "DRAW_IMAGE"`
  unfoldable pub on_image :
      {F : Type 0} → Config F → Preview C → Command → Option ℤ → Option ℤ → Rendered (Preview C)
  unfolding on_png
  on_image cfg p command none y = preview_failed bad_image
  on_image cfg p command (some x) none = preview_failed bad_image
  on_image cfg p command (some x) (some y) =
      if not (is_zero x)
        || not (is_zero y)
        || not (int_eq command.width cfg.width)
        || not (int_eq command.height cfg.height)
      then preview_failed bad_image
      else on_png cfg p (drawing.open_png command.image_path)

  -- `case "DRAW_CIRCLE"`
  unfoldable pub on_circle :
      {F : Type 0}
      → Config F
      → Preview C
      → ℤ
      → Option ℤ
      → Option ℤ
      → Option Color
      → Rendered (Preview C)
  unfolding draw_circle int_ltb
  on_circle cfg p radius (some x) (some y) (some color) =
      if not (is_positive radius) || int_ltb (pos 128) radius
      then preview_failed bad_circle
      else if int_ltb x (pos 0)
          || not (int_ltb x cfg.width)
          || int_ltb y (pos 0)
          || not (int_ltb y cfg.height)
      then preview_failed bad_center
      else rendered (record p { canvas = draw_circle x y (absolute radius) color p.canvas })
  on_circle cfg p radius none y color = preview_failed bad_circle
  on_circle cfg p radius (some x) none color = preview_failed bad_circle
  on_circle cfg p radius (some x) (some y) none = preview_failed bad_circle

  -- the `switch` on the command
  unfoldable pub on_command : {F : Type 0} → Config F → Preview C → Command → Rendered (Preview C)
  unfolding on_begin on_image on_circle bytes_eq
  on_command cfg p command =
      if bytes_eq command.command (codes "BEGIN_FRAME")
      then on_begin p command.color
      else if bytes_eq command.command (codes "DRAW_IMAGE")
      then on_image cfg p command command.x command.y
      else if bytes_eq command.command (codes "DRAW_CIRCLE")
      then on_circle cfg p command.radius command.x command.y command.color
      else if bytes_eq command.command (codes "PRESENT")
      then rendered (record p { presented = true })
      else preview_failed (unsupported command.command)

  -- one round of the loop
  unfoldable pub preview_step : {F : Type 0} → Config F → Preview C → Command → Rendered (Preview C)
  unfolding on_command
  preview_step cfg p command =
      if not (bytes_eq command.window_id (codes "map")) || p.presented
      then preview_failed bad_window
      else if not (bytes_eq command.command (codes "BEGIN_FRAME")) && not p.started
      then preview_failed no_begin
      else on_command cfg p command

  -- a command failed, or the loop goes on
  unfoldable pub then_previews : (Preview C → Rendered C) → Rendered (Preview C) → Rendered C
  then_previews loop (rendered p) = loop p
  then_previews loop (preview_failed e) = preview_failed e

  -- the loop, and the test behind it
  unfoldable pub previews : {F : Type 0} → Config F → List Command → Preview C → Rendered C
  unfolding preview_step then_previews
  previews cfg [] p = if not p.presented then preview_failed missing_present else rendered p.canvas
  previews cfg (command ∷ commands) p =
      then_previews (previews cfg commands) (preview_step cfg p command)

  unfoldable pub on_valid : {F : Type 0} → Config F → Option ConfigError → List Command → Rendered C
  unfolding previews
  on_valid cfg (some e) commands = preview_failed (invalid_config e)
  on_valid cfg none commands =
      previews cfg commands
        (record { started = false; presented = false; canvas = drawing.blank cfg.width cfg.height })

  unfoldable pub render_preview : {F : Type 0} ⦃geo : Geo F⦄ → Config F → List Command → Rendered C
  unfolding on_valid validate
  render_preview cfg commands = on_valid cfg (validate cfg) commands
