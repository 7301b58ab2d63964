-- ===== src/TacticalMap/Projection.antt =====
-- app/map/projection.go: `Project`.
pub mod Inside
use tac_os.Base.{ℕ, zero, suc, ℤ, pos, negsuc, int_ltb, is_positive, if◌then◌else◌, Bool, not, ◌||◌}
use tac_os.TacticalMap.Config.{Geo, Bounds, bounds_bad, outside}

pub data ProjectError : Type 0 where
  invalid_bounds bad_size bad_coordinates : ProjectError

-- A point, no point, or an error.
pub data Projected : Type 0 where
  at : ℤ → ℤ → Projected
  outside_map : Projected
  project_failed : ProjectError → Projected

unfoldable pub minus_one : ℤ → ℤ
minus_one (pos zero) = negsuc 0
minus_one (pos (suc n)) = pos n
minus_one (negsuc n) = negsuc (suc n)

-- `if x >= size { x = size - 1 }`
unfoldable pub clamp : ℤ → ℤ → ℤ
unfolding int_ltb minus_one
clamp x size = if int_ltb x size then x else minus_one size

module _ {F : Type 0} ⦃geo : Geo F⦄ where
  -- `int(math.Round((a - low) / (high - low) * float64(size)))`
  unfoldable pub pixel : F → F → ℤ → ℤ
  pixel offset range size =
      geo.to_int (geo.round (geo.mul (geo.div offset range) (geo.of_int size)))

  unfoldable pub project : Bounds F → ℤ → ℤ → F → F → Projected
  unfolding bounds_bad clamp pixel
  project b width height latitude longitude =
      if bounds_bad b
      then project_failed invalid_bounds
      else if not (is_positive width)
          || not (is_positive height)
          || int_ltb (pos 8192) width
          || int_ltb (pos 8192) height
      then project_failed bad_size
      else if not (geo.is_finite latitude)
          || not (geo.is_finite longitude)
          || outside latitude (negsuc 89) (pos 90)
          || outside longitude (negsuc 179) (pos 180)
      then project_failed bad_coordinates
      else if geo.less latitude b.lat_min
          || geo.less b.lat_max latitude
          || geo.less longitude b.lon_min
          || geo.less b.lon_max longitude
      then outside_map
      else at
          (clamp (pixel (geo.sub longitude b.lon_min) (geo.sub b.lon_max b.lon_min) width) width)
          (clamp (pixel (geo.sub b.lat_max latitude) (geo.sub b.lat_max b.lat_min) height) height)
