-- ===== src/TacticalMap/Frame.antt =====
-- app/map/frame.go: `BuildFrame`, the drawing commands for a list of targets.
pub mod Shape
pub mod Total
use tac_os.Base.{
  ℕ, ℤ, pos, if◌then◌else◌, Bool, false, ◌||◌, Bytes, codes, bytes_eq, String, List, [], ◌∷◌, ◌++◌,
  Option, none, some,
}
use tac_os.TacticalMap.Config.{Geo, Config, ConfigError, Target, validate, bad_probability}
use tac_os.TacticalMap.Projection.{
  Projected, at, outside_map, project_failed, ProjectError, project,
}
use tac_os.WindowManager.Protocol.{Color}

pub record Command : Type 0 where
  pub command : Bytes
  pub window_id : Bytes
  pub title : Bytes
  pub width : ℤ
  pub height : ℤ
  pub image_path : Bytes
  pub x : Option ℤ
  pub y : Option ℤ
  pub radius : ℤ
  pub color : Option Color

pub record Marker (F : Type 0) : Type 0 where
  pub target : Target F
  pub x : ℤ
  pub y : ℤ

pub data FrameError : Type 0 where
  bad_config : ConfigError → FrameError
  bad_target_id : Bytes → FrameError
  bad_target_probability : Bytes → FrameError
  unprojected : Bytes → ProjectError → FrameError

pub data Built (A : Type 0) : Type 0 where
  built : A → Built A
  build_failed : FrameError → Built A

-- a command for the window of the map, with the zero value in its other fields
abbrev pub map_command : String → Command
map_command name = record {
  command = codes name;
  window_id = codes "map";
  title = [];
  width = pos 0;
  height = pos 0;
  image_path = [];
  x = none;
  y = none;
  radius = pos 0;
  color = none;
}

abbrev pub rgba : ℕ → ℕ → ℕ → ℕ → Color
rgba r g b a = record { r = r; g = g; b = b; a = a }

abbrev pub begin_frame : Command
begin_frame = record (map_command "BEGIN_FRAME") { color = some (rgba 225 232 213 255) }

abbrev pub draw_image : {F : Type 0} → Config F → Command
draw_image cfg = record (map_command "DRAW_IMAGE") {
  image_path = cfg.image;
  x = some (pos 0);
  y = some (pos 0);
  width = cfg.width;
  height = cfg.height;
}

abbrev pub draw_circle : ℤ → ℤ → ℕ → Color → Command
draw_circle x y radius color = record (map_command "DRAW_CIRCLE") {
  x = some x;
  y = some y;
  radius = pos radius;
  color = some color;
}

abbrev pub present : Command
present = map_command "PRESENT"

-- `seen[id]`
unfoldable pub was_seen : Bytes → List Bytes → Bool
was_seen id [] = false
was_seen id (x ∷ xs) = bytes_eq x id || was_seen id xs

module _ {F : Type 0} ⦃geo : Geo F⦄ where
  -- `uint8(math.Round(255 * (0.25 + 0.75*target.Probability)))`
  unfoldable pub alpha : F → ℕ
  alpha p = geo.to_uint8 (
      geo.round
        (geo.mul (geo.of_int (pos 255)) (geo.add geo.quarter (geo.mul geo.three_quarters p))))

  -- the two circles of a marker
  unfoldable pub circles : Marker F → List Command
  unfolding alpha
  circles m =
      draw_circle m.x m.y 13 (rgba 255 255 255 255)
      ∷ draw_circle m.x m.y 10 (rgba 196 72 48 (alpha m.target.probability))
      ∷ []

  -- a marker before those of the rest of the loop
  unfoldable pub add_marker :
      Marker F → Built (List Command × List (Marker F)) → Built (List Command × List (Marker F))
  unfolding circles
  add_marker m (build_failed e) = build_failed e
  add_marker m (built (commands, markers)) = built (circles m ++ commands, m ∷ markers)

  unfoldable pub on_projected :
      Target F
      → Projected
      → Built (List Command × List (Marker F))
      → Built (List Command × List (Marker F))
  unfolding add_marker
  on_projected t (project_failed e) rest = build_failed (unprojected t.target_id e)
  on_projected t outside_map rest = rest
  on_projected t (at x y) rest = add_marker (record { target = t; x = x; y = y }) rest

  -- the loop over the targets, and the last command
  unfoldable pub add_targets :
      Config F → List Bytes → List (Target F) → Built (List Command × List (Marker F))
  unfolding on_projected was_seen project
  add_targets cfg seen [] = built (present ∷ [], [])
  add_targets cfg seen (t ∷ targets) =
      let rest = add_targets cfg (t.target_id ∷ seen) targets in
      if bytes_eq t.target_id [] || was_seen t.target_id seen
      then build_failed (bad_target_id t.target_id)
      else if bad_probability t.probability
      then build_failed (bad_target_probability t.target_id)
      else on_projected t (project cfg.bounds cfg.width cfg.height t.latitude t.longitude) rest

  -- the two commands before those of the loop
  unfoldable pub with_background :
      Config F → Built (List Command × List (Marker F)) → Built (List Command × List (Marker F))
  with_background cfg (build_failed e) = build_failed e
  with_background cfg (built (commands, markers)) =
      built (begin_frame ∷ draw_image cfg ∷ commands, markers)

  unfoldable pub on_config :
      Config F → Option ConfigError → List (Target F) → Built (List Command × List (Marker F))
  unfolding with_background add_targets
  on_config cfg (some e) targets = build_failed (bad_config e)
  on_config cfg none targets = with_background cfg (add_targets cfg [] targets)

  unfoldable pub build_frame : Config F → List (Target F) → Built (List Command × List (Marker F))
  unfolding on_config validate
  build_frame cfg targets = on_config cfg (validate cfg) targets
