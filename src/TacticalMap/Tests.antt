-- ===== src/TacticalMap/Tests.antt =====
-- The map application at concrete inputs. Here a float64 is a natural number.
use tac_os.Base.{
  Bool, get_elem?, zero, suc, false, ℕ, ◌+◌, ◌-◌, ◌*◌, ◌%◌, ◌==◌, ltb, leb, ◌≡◌, refl, ◌↔◌, arith,
  ℤ, pos, negsuc, int_ltb, is_positive, if◌then◌else◌, true, false, Bytes, bytes_eq, codes, List,
  [], ◌∷◌, map, none, some,
}
use tac_os.TacticalMap.Config.{Geo, Config, Target, validate}
use tac_os.TacticalMap.Frame.{Marker, built, build_frame, circles}
use tac_os.TacticalMap.Frame.Shape.{frame_commands}
use tac_os.TacticalMap.Frame.Total.{IsShowable}
use tac_os.TacticalMap.Messages.{
  other_value, closed_at_end, Entries, ending, entry, an_object, Decoder, target_fields,
  check_entries, receive_lines,
}
use tac_os.TacticalMap.Messages.Received.{IsOrdered, received-IsSteady}
use tac_os.TacticalMap.Messages.Records.{IsExact, check_entries_iff}
use tac_os.TacticalMap.Preview.{Drawing, decoded, render_preview}
use tac_os.TacticalMap.Preview.Accepts.{IsRendered, render_preview-build_frame}
use tac_os.TacticalMap.Projection.{at, project}
use tac_os.TacticalMap.Projection.Inside.{IsInside, Rounding, project-IsInside}
use tac_os.TacticalMap.Served.{HasOpen}
use tac_os.TacticalMap.Drawn.{headless-Draws}
use tac_os.WindowManager.Headless.{Canvas, Headless, open_window, headless}
use tac_os.WindowManager.Headless.Contract.{IsShowing}
use tac_os.WindowManager.Protocol.{Response}
use tac_os.TacticalMap.Client.Server.{send_to, send_all-build_frame}
use tac_os.TacticalMap.Loading.{Files, loaded, load_config}
use tac_os.TacticalMap.Loading.Loaded.{IsLoaded, load_config-IsLoaded}
use tac_os.TacticalMap.Session.{Client, accepted, timed_out, send_all, target_update, run_map}
use tac_os.TacticalMap.Session.Building.{IsSteady}
use tac_os.WindowManager.Backend.{value}
use tac_os.WindowManager.Server.{Server}

abbrev whole_int : ℤ → ℕ
whole_int (pos n) = n
whole_int (negsuc n) = 0

instance abbrev whole_geo : Geo ℕ
whole_geo = record {
  is_finite = λ x. true;
  less = ltb;
  less_eq = leb;
  of_int = whole_int;
  add = ◌+◌;
  sub = ◌-◌;
  mul = λ t x. if t == 0 then 0 else if t == 1 then x else t * x;
  div = λ n d. if leb d n then 1 else 0;
  round = λ x. x;
  to_int = pos;
  to_uint8 = λ x. x % 256;
  quarter = 0;
  three_quarters = 1;
}

whole_mul :
    (t : ℕ) (size : ℤ)
    → leb t 1 ≡ true
    → is_positive size ≡ true
    → (leb 0 (whole_geo.mul t (whole_int size)) ≡ true)
      × (leb (whole_geo.mul t (whole_int size)) (whole_int size) ≡ true)
whole_mul t (pos n) h p = ground arith
whole_mul t (negsuc n) h p = cc

whole_Rounding : Rounding ℕ
unfolding int_ltb
whole_Rounding = record {
  le_of_not_lt = λ a b f g h. ground arith;
  lt_of_not_le = λ a b f g h. ground arith;
  le_of_lt = λ a b f g h. ground arith;
  sub_pos = λ a b f g h. ground arith;
  sub_nonneg = λ a b f g h. ground arith;
  sub_finite = λ a b m d f g h low high. refl;
  sub_mono = λ a b low f g k h. ground arith;
  sub_anti = λ a b high f g k h. ground arith;
  div_unit = λ n d f g low high wide. ground arith;
  mul_scale = λ t size low high small p. whole_mul t size high p;
  round_nonneg = λ x size low high small. ground arith;
}

abbrev small_map : Config ℕ
small_map = record {
  version = pos 1;
  image = codes "/map.png";
  width = pos 960;
  height = pos 640;
  bounds = record { lat_min = 10; lat_max = 20; lon_min = 30; lon_max = 40 };
}

small_map_valid : validate small_map ≡ none
unfolding validate bytes_eq
small_map_valid = refl

abbrev target_at : ℕ → ℕ → Target ℕ
target_at latitude longitude = record {
  target_id = codes "t1";
  latitude = latitude;
  longitude = longitude;
  probability = 1;
  last_seen_at = pos 5;
}

-- on the east and south edges, which use the last pixels
edge_pixel : project small_map.bounds (pos 960) (pos 640) 10 40 ≡ at (pos 959) (pos 639)
unfolding project int_ltb
edge_pixel = refl

project-IsInside_example : IsInside (pos 959) (pos 960) × IsInside (pos 639) (pos 640)
project-IsInside_example =
    project-IsInside whole_Rounding small_map.bounds (pos 960) (pos 640) 10 40 edge_pixel

abbrev edge_marker : Marker ℕ
edge_marker = record { target = target_at 10 40; x = pos 959; y = pos 639 }

abbrev edge_targets : List (Target ℕ)
edge_targets = target_at 10 40 ∷ []

edge_frame :
    build_frame small_map edge_targets
    ≡ built (frame_commands small_map (edge_marker ∷ []), edge_marker ∷ [])
unfolding build_frame bytes_eq int_ltb circles
edge_frame = refl

abbrev drawing : Drawing ℕ ℕ
drawing = record {
  blank = λ w h. 0;
  fill = λ c n. n + 1;
  open_png = λ path. decoded 3 (pos 960) (pos 640);
  draw_over = λ image n. n + image;
  draw_row = λ x x' y c n. n + 1;
}

render_preview-build_frame_example :
    IsRendered (render_preview drawing small_map (frame_commands small_map (edge_marker ∷ [])))
render_preview-build_frame_example =
    render_preview-build_frame drawing small_map edge_targets {image = 3} whole_Rounding edge_frame
      refl

-- a canvas that counts what was drawn
abbrev strokes : Canvas ℕ
strokes = record {
  blank = λ width height. 0;
  fill = λ c p. 0;
  image = λ path x y width height p. value (p + 1);
  circle = λ x y radius c p. p + 1;
}

abbrev sent : ℕ → Response → Bool
sent conn r = true

-- the server after CREATE, with the headless backend
abbrev one_window : Headless ℕ
one_window = record {
  windows = record { visible = true; closed = false; back = 0; front = 0 } ∷ [];
  current = some 0;
}

abbrev map_server : Server (Headless ℕ) ℕ
map_server = record {
  window = some 0;
  window_id = codes "map";
  stopped = false;
  event_clients = [];
  world = one_window;
}

map_server-HasOpen : HasOpen 0 (IsShowing 0) map_server
unfolding open_window
map_server-HasOpen = record {
  has_window = refl;
  showing = record {
    is_current = refl;
    window = _;
    there = refl;
    not_closed = refl;
    others_closed = λ j e. only j e;
  };
}
  where
    only : (j : ℕ) → j == 0 ≡ false → open_window (get_elem? one_window.windows j) ≡ false
    only zero e = cc
    only (suc j) e = refl

map_named : bytes_eq small_map.image [] ≡ false
unfolding bytes_eq
map_named = refl

edge-IsShowable : IsShowable (target_at 10 40)
unfolding bytes_eq
edge-IsShowable = record {
  named = refl;
  probable = refl;
  latitude_finite = refl;
  longitude_finite = refl;
  latitude_inside = refl;
  longitude_inside = refl;
}

-- the five fields, in another order
abbrev target_entries : Entries
target_entries = entry (codes "probability") other_value (
    entry (codes "latitude") other_value (
      entry (codes "longitude") other_value (
        entry (codes "targetId") other_value
          (entry (codes "lastSeenAt") other_value (ending closed_at_end)))))

check_entries_target : check_entries target_fields target_entries ≡ none
unfolding check_entries bytes_eq
check_entries_target = refl

check_entries_iff_example :
    (check_entries target_fields target_entries ≡ none) ↔ IsExact target_fields target_entries
check_entries_iff_example = check_entries_iff target_fields target_entries

abbrev one_target : Decoder ℕ
one_target = record {
  utf8_valid = λ b. true;
  read_record = λ b. an_object target_entries;
  to_target = λ b. some (target_at 10 40);
  to_observation = λ b. none;
}

abbrev two_lines : List Bytes
two_lines = codes "ERR" ∷ codes "MSG targets.updated {}" ∷ []

receive_one : receive_lines one_target two_lines ≡ edge_targets
unfolding receive_lines bytes_eq
receive_one = refl

abbrev window_client : Client ℕ
window_client = record {
  subscribe = λ w. (w, true);
  send = λ c w. (w + 1, accepted);
  is_cancelled = λ w. false;
  await_event = λ w. (w, timed_out);
}

whole-IsOrdered : IsOrdered ℕ
whole-IsOrdered a b h = ground arith

received-IsSteady_example :
    IsSteady (
      run_map window_client small_map (map target_update (receive_lines one_target two_lines)) [] 0)
received-IsSteady_example =
    received-IsSteady whole-IsOrdered one_target window_client small_map two_lines 0 small_map_valid

abbrev at_map_server : Client (Server (Headless ℕ) ℕ)
at_map_server = record {
  subscribe = λ s. (s, true);
  send = send_to (headless strokes sent) 4;
  is_cancelled = λ s. false;
  await_event = λ s. (s, timed_out);
}

send_all-build_frame_example :
    (send_all at_map_server (frame_commands small_map (edge_marker ∷ [])) map_server).1 ≡ accepted
send_all-build_frame_example =
    send_all-build_frame (headless strokes sent) 4 at_map_server refl 0 (IsShowing 0) small_map
      edge_targets map_server
      (headless-Draws strokes sent 0 small_map.image map_named
        (λ x y width height p. (p + 1, refl)))
      edge_frame map_server-HasOpen

abbrev map_files : Files ℕ
map_files = record {
  opened = true;
  size = some 300;
  decoded = some small_map;
  at_end = true;
  absolute = λ path. some path;
  image_opened = λ path. true;
  image_size = λ path. some (pos 960, pos 640);
}

load_config_map : load_config map_files ≡ loaded small_map
unfolding load_config bytes_eq
load_config_map = refl

load_config-IsLoaded_example : IsLoaded map_files small_map
load_config-IsLoaded_example = load_config-IsLoaded map_files load_config_map
