-- ===== src/TacticalMap/Projection/Inside.antt =====
-- app/map/projection.go: where the pixels of `Project` are.
use tac_os.Base.{
  ℕ, ◌<◌, zero, suc, ◌≡◌, refl, subst, arith, ℤ, pos, negsuc, int_ltb, is_positive, if◌then◌else◌,
  Bool, true, false, not, ◌||◌,
}
use tac_os.TacticalMap.Config.{Geo, Bounds, bounds_bad, outside}
use tac_os.TacticalMap.Projection.{
  Projected, at, outside_map, project_failed, ProjectError, invalid_bounds, bad_size,
  bad_coordinates, minus_one, clamp, pixel, project,
}

-- A point of an image with so many columns, or rows.
pub record IsInside (x size : ℤ) : Type 0 where
  pub not_before : int_ltb x (pos 0) ≡ false
  pub before_end : int_ltb x size ≡ true

-- What IEEE 754 promises of finite numbers, with rounding, also where a result underflows or
-- overflows; an integer up to 8192 is exact. No law has a NaN or an infinity as an operand.
pub record Rounding (F : Type 0) ⦃geo : Geo F⦄ : Type 0 where
  pub le_of_not_lt :
      (a b : F)
      → geo.is_finite a ≡ true
      → geo.is_finite b ≡ true
      → geo.less b a ≡ false
      → geo.less_eq a b ≡ true
  pub le_of_lt :
      (a b : F)
      → geo.is_finite a ≡ true
      → geo.is_finite b ≡ true
      → geo.less a b ≡ true
      → geo.less_eq a b ≡ true
  pub lt_of_not_le :
      (a b : F)
      → geo.is_finite a ≡ true
      → geo.is_finite b ≡ true
      → geo.less_eq b a ≡ false
      → geo.less a b ≡ true
  -- a difference has the sign that the order says, and is monotone
  pub sub_pos :
      (a b : F)
      → geo.is_finite a ≡ true
      → geo.is_finite b ≡ true
      → geo.less b a ≡ true
      → geo.less (geo.of_int (pos 0)) (geo.sub a b) ≡ true
  pub sub_nonneg :
      (a b : F)
      → geo.is_finite a ≡ true
      → geo.is_finite b ≡ true
      → geo.less_eq b a ≡ true
      → geo.less_eq (geo.of_int (pos 0)) (geo.sub a b) ≡ true
  -- a difference of degrees, with a up to m + 1 and b from -m - 1, does not overflow
  pub sub_finite :
      (a b : F) (m : ℕ)
      → m < 180
      → geo.is_finite a ≡ true
      → geo.is_finite b ≡ true
      → geo.less_eq b a ≡ true
      → geo.less b (geo.of_int (negsuc m)) ≡ false
      → geo.less (geo.of_int (pos (suc m))) a ≡ false
      → geo.is_finite (geo.sub a b) ≡ true
  pub sub_mono :
      (a b low : F)
      → geo.is_finite a ≡ true
      → geo.is_finite b ≡ true
      → geo.is_finite low ≡ true
      → geo.less_eq a b ≡ true
      → geo.less_eq (geo.sub a low) (geo.sub b low) ≡ true
  pub sub_anti :
      (a b high : F)
      → geo.is_finite a ≡ true
      → geo.is_finite b ≡ true
      → geo.is_finite high ≡ true
      → geo.less_eq a b ≡ true
      → geo.less_eq (geo.sub high b) (geo.sub high a) ≡ true
  pub div_unit :
      (n d : F)
      → geo.is_finite n ≡ true
      → geo.is_finite d ≡ true
      → geo.less_eq (geo.of_int (pos 0)) n ≡ true
      → geo.less_eq n d ≡ true
      → geo.less (geo.of_int (pos 0)) d ≡ true
      → (geo.less_eq (geo.of_int (pos 0)) (geo.div n d) ≡ true)
        × (geo.less_eq (geo.div n d) (geo.of_int (pos 1)) ≡ true)
  pub mul_scale :
      (t : F) (size : ℤ)
      → geo.less_eq (geo.of_int (pos 0)) t ≡ true
      → geo.less_eq t (geo.of_int (pos 1)) ≡ true
      → int_ltb (pos 8192) size ≡ false
      → is_positive size ≡ true
      → (geo.less_eq (geo.of_int (pos 0)) (geo.mul t (geo.of_int size)) ≡ true)
        × (geo.less_eq (geo.mul t (geo.of_int size)) (geo.of_int size) ≡ true)
  pub round_nonneg :
      (x : F) (size : ℤ)
      → geo.less_eq (geo.of_int (pos 0)) x ≡ true
      → geo.less_eq x (geo.of_int size) ≡ true
      → int_ltb (pos 8192) size ≡ false
      → int_ltb (geo.to_int (geo.round x)) (pos 0) ≡ false

clamp-IsInside :
    (x size : ℤ)
    → is_positive size ≡ true
    → int_ltb x (pos 0) ≡ false
    → IsInside (clamp x size) size
unfolding clamp minus_one int_ltb
clamp-IsInside (pos n) (pos zero) h k = cc
clamp-IsInside (pos n) (pos (suc m)) h k = ground arith
clamp-IsInside (negsuc n) (pos m) h k = cc
clamp-IsInside x (negsuc m) h k = cc

-- A test that gives an error or no point has failed where there is a point.
passed :
    (b : Bool) (e : ProjectError) (r : Projected) {x y : ℤ}
    → (if b then project_failed e else r) ≡ at x y
    → (b ≡ false) × (r ≡ at x y)
passed true e r h = absurd (never h)
  where
    never : {x y : ℤ} → project_failed e ≡ at x y → ⊥
    never k = cc
passed false e r h = (refl, h)

inside_test :
    (b : Bool) (r : Projected) {x y : ℤ}
    → (if b then outside_map else r) ≡ at x y
    → (b ≡ false) × (r ≡ at x y)
inside_test true r h = absurd (never h)
  where
    never : {x y : ℤ} → outside_map ≡ at x y → ⊥
    never k = cc
inside_test false r h = (refl, h)

at_x : {a b x y : ℤ} → at a b ≡ at x y → a ≡ x
at_x e = cc

at_y : {a b x y : ℤ} → at a b ≡ at x y → b ≡ y
at_y e = cc

module _ {F : Type 0} ⦃geo : Geo F⦄ (rounding : Rounding F) where
  pixel_nonneg :
      (offset range : F) (size : ℤ)
      → geo.is_finite offset ≡ true
      → geo.is_finite range ≡ true
      → geo.less_eq (geo.of_int (pos 0)) offset ≡ true
      → geo.less_eq offset range ≡ true
      → geo.less (geo.of_int (pos 0)) range ≡ true
      → int_ltb (pos 8192) size ≡ false
      → is_positive size ≡ true
      → int_ltb (pixel offset range size) (pos 0) ≡ false
  unfolding pixel
  pixel_nonneg offset range size fo fr low high wide small some_pixel =
      let (t_low, t_high) = rounding.div_unit offset range fo fr low high wide in
      let (x_low, x_high) =
        rounding.mul_scale (geo.div offset range) size t_low t_high small some_pixel in
      rounding.round_nonneg (geo.mul (geo.div offset range) (geo.of_int size)) size x_low x_high
        small

  -- the facts that the tests of `Project` leave about one axis
  axis_IsInside :
      (m : ℕ) (low high a : F) (size : ℤ)
      → m < 180
      → geo.less low (geo.of_int (negsuc m)) ≡ false
      → geo.less (geo.of_int (pos (suc m))) high ≡ false
      → geo.less a (geo.of_int (negsuc m)) ≡ false
      → geo.less (geo.of_int (pos (suc m))) a ≡ false
      → geo.is_finite low ≡ true
      → geo.is_finite high ≡ true
      → geo.is_finite a ≡ true
      → geo.less_eq high low ≡ false
      → geo.less a low ≡ false
      → geo.less high a ≡ false
      → int_ltb (pos 8192) size ≡ false
      → is_positive size ≡ true
      → IsInside (clamp (pixel (geo.sub a low) (geo.sub high low) size) size) size
        × IsInside (clamp (pixel (geo.sub high a) (geo.sub high low) size) size) size
  axis_IsInside m low high a size degrees l_min h_max a_min a_max fl fh fa wide above below small
        some_pixel =
      let narrow = rounding.lt_of_not_le low high fl fh wide in
      let range_pos = rounding.sub_pos high low fh fl narrow in
      let low_a = rounding.le_of_not_lt low a fl fa above in
      let a_high = rounding.le_of_not_lt a high fa fh below in
      let low_high = rounding.le_of_lt low high fl fh narrow in
      let range_finite = rounding.sub_finite high low m degrees fh fl low_high l_min h_max in
      (
        clamp-IsInside _ size some_pixel (
            pixel_nonneg (geo.sub a low) (geo.sub high low) size
              (rounding.sub_finite a low m degrees fa fl low_a l_min a_max) range_finite
              (rounding.sub_nonneg a low fa fl low_a) (rounding.sub_mono a high low fa fh fl a_high)
              range_pos small some_pixel),
        clamp-IsInside _ size some_pixel (
            pixel_nonneg (geo.sub high a) (geo.sub high low) size
              (rounding.sub_finite high a m degrees fh fa a_high a_min h_max) range_finite
              (rounding.sub_nonneg high a fh fa a_high)
              (rounding.sub_anti low a high fl fa fh low_a) range_pos small some_pixel),
      )

  -- both axes, from the tests of `Project`
  axes_IsInside :
      (b : Bounds F) (width height : ℤ) (latitude longitude : F)
      → bounds_bad b ≡ false
      → (not (is_positive width)
          || not (is_positive height)
          || int_ltb (pos 8192) width
          || int_ltb (pos 8192) height)
        ≡ false
      → (not (geo.is_finite latitude)
          || not (geo.is_finite longitude)
          || outside latitude (negsuc 89) (pos 90)
          || outside longitude (negsuc 179) (pos 180))
        ≡ false
      → (geo.less latitude b.lat_min
          || geo.less b.lat_max latitude
          || geo.less longitude b.lon_min
          || geo.less b.lon_max longitude)
        ≡ false
      → IsInside
          (clamp (pixel (geo.sub longitude b.lon_min) (geo.sub b.lon_max b.lon_min) width) width)
          width
        × IsInside
            (clamp (pixel (geo.sub b.lat_max latitude) (geo.sub b.lat_max b.lat_min) height) height)
            height
  unfolding bounds_bad
  axes_IsInside b width height latitude longitude bounds_ok size_ok finite_ok inside_ok = (
    (axis_IsInside 179 b.lon_min b.lon_max longitude width (omega arith) (ground arith)
        (ground arith) (ground arith) (ground arith) (ground arith) (ground arith) (ground arith)
        (ground arith) (ground arith) (ground arith) (ground arith) (ground arith)).0,
    (axis_IsInside 89 b.lat_min b.lat_max latitude height (omega arith) (ground arith)
        (ground arith) (ground arith) (ground arith) (ground arith) (ground arith) (ground arith)
        (ground arith) (ground arith) (ground arith) (ground arith) (ground arith)).1,
  )

  -- A point that `Project` returns is a pixel of the image: it is at least 0 and less than the width
  -- and the height, also for a target on the east or south edge, if floating point follows IEEE 754.
  pub project-IsInside :
      (b : Bounds F) (width height : ℤ) (latitude longitude : F) {x y : ℤ}
      → project b width height latitude longitude ≡ at x y
      → IsInside x width × IsInside y height
  unfolding project
  project-IsInside b width height latitude longitude h =
      let (bounds_ok, h1) = passed (bounds_bad b) invalid_bounds _ h in
      let (size_ok, h2) = passed _ bad_size _ h1 in
      let (finite_ok, h3) = passed _ bad_coordinates _ h2 in
      let (inside_ok, h4) = inside_test _ _ h3 in
      let (x_in, y_in) =
        axes_IsInside b width height latitude longitude bounds_ok size_ok finite_ok inside_ok in
      (subst (λ c. IsInside c width) (at_x h4) x_in, subst (λ c. IsInside c height) (at_y h4) y_in)
