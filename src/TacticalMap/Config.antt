-- ===== src/TacticalMap/Config.antt =====
-- app/map: config.go, model.go and the ranges of messages.go. A float64 is a parameter.
use tac_os.Base.{
  ℕ, ℤ, pos, negsuc, int_eq, if◌then◌else◌, Bool, not, ◌&&◌, ◌||◌, Bytes, bytes_eq, [], Option,
  none, some,
}

pub record Geo (F : Type 0) : Type 0 where
  -- neither NaN nor an infinity
  pub is_finite : F → Bool
  -- Go's `<` and `<=`
  pub less : F → F → Bool
  pub less_eq : F → F → Bool
  pub of_int : ℤ → F
  pub add : F → F → F
  pub sub : F → F → F
  pub mul : F → F → F
  pub div : F → F → F
  -- `math.Round`
  pub round : F → F
  -- `int(x)` and `uint8(x)`
  pub to_int : F → ℤ
  pub to_uint8 : F → ℕ
  -- 0.25 and 0.75
  pub quarter : F
  pub three_quarters : F

pub record Bounds (F : Type 0) : Type 0 where
  pub lat_min : F
  pub lat_max : F
  pub lon_min : F
  pub lon_max : F

pub record Config (F : Type 0) : Type 0 where
  pub version : ℤ
  pub image : Bytes
  pub width : ℤ
  pub height : ℤ
  pub bounds : Bounds F

pub record Target (F : Type 0) : Type 0 where
  pub target_id : Bytes
  pub latitude : F
  pub longitude : F
  pub probability : F
  -- an int64
  pub last_seen_at : ℤ

pub data ConfigError : Type 0 where
  unsupported_version bad_dimensions no_image bad_bounds : ConfigError

module _ {F : Type 0} ⦃geo : Geo F⦄ where
  -- `x < low || x > high`
  abbrev pub outside : F → ℤ → ℤ → Bool
  outside x low high = geo.less x (geo.of_int low) || geo.less (geo.of_int high) x

  -- `Bounds.validate`
  unfoldable pub bounds_bad : Bounds F → Bool
  bounds_bad b =
      not (geo.is_finite b.lat_min)
      || not (geo.is_finite b.lat_max)
      || not (geo.is_finite b.lon_min)
      || not (geo.is_finite b.lon_max)
      || geo.less b.lat_min (geo.of_int (negsuc 89))
      || geo.less (geo.of_int (pos 90)) b.lat_max
      || geo.less b.lon_min (geo.of_int (negsuc 179))
      || geo.less (geo.of_int (pos 180)) b.lon_max
      || geo.less_eq b.lat_max b.lat_min
      || geo.less_eq b.lon_max b.lon_min

  -- `Config.Validate`
  unfoldable pub validate : Config F → Option ConfigError
  unfolding bounds_bad
  validate c =
      if not (int_eq c.version (pos 1))
      then some unsupported_version
      else if not (int_eq c.width (pos 960)) || not (int_eq c.height (pos 640))
      then some bad_dimensions
      else if bytes_eq c.image []
      then some no_image
      else if bounds_bad c.bounds
      then some bad_bounds
      else none

  -- `validCoordinates`
  unfoldable pub valid_coordinates : F → F → Bool
  valid_coordinates latitude longitude =
      geo.is_finite latitude
      && geo.less_eq (geo.of_int (negsuc 89)) latitude
      && geo.less_eq latitude (geo.of_int (pos 90))
      && geo.is_finite longitude
      && geo.less_eq (geo.of_int (negsuc 179)) longitude
      && geo.less_eq longitude (geo.of_int (pos 180))

  -- `!finite(p) || p < 0 || p > 1`
  abbrev pub bad_probability : F → Bool
  bad_probability p = not (geo.is_finite p) || outside p (pos 0) (pos 1)
