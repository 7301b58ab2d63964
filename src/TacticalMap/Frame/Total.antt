-- ===== src/TacticalMap/Frame/Total.antt =====
-- app/map/frame.go: the targets for which `BuildFrame` makes a frame.
use tac_os.Base.{
  ◌≡◌, refl, arith, ℤ, pos, negsuc, int_eq, int_eq→≡, int_ltb, if◌then◌else◌, Bool, true, false,
  not, ◌||◌, none_if, Bytes, bytes_eq, List, [], ◌∷◌, ◌++◌, All, none,
}
use tac_os.TacticalMap.Config.{
  Geo, Config, Target, bounds_bad, validate, outside, bad_probability, bad_bounds, no_image,
  bad_dimensions, unsupported_version,
}
use tac_os.TacticalMap.Frame.{
  Command, Marker, Built, built, was_seen, add_marker, on_projected, add_targets, with_background,
  on_config, build_frame, circles, begin_frame, draw_image,
}
use tac_os.TacticalMap.Projection.{Projected, at, outside_map, project}

data NotFailed : Projected → Type 0 where
  has_point : {x y : ℤ} → NotFailed (at x y)
  has_none : NotFailed outside_map

either-NotFailed : (b : Bool) (x y : ℤ) → NotFailed (if b then outside_map else at x y)
either-NotFailed true x y = has_none
either-NotFailed false x y = has_point

module _ {F : Type 0} where
  -- No id stands twice, or among those that were seen.
  abbrev pub AreDistinct : List Bytes → List (Target F) → Type 0
  AreDistinct seen [] = Unit
  AreDistinct seen (t ∷ ts) =
      (was_seen t.target_id seen ≡ false) × AreDistinct (t.target_id ∷ seen) ts

module _ {F : Type 0} ⦃geo : Geo F⦄ where
  -- A target that `BuildFrame` can show, or leave out because it is outside the map.
  pub record IsShowable (t : Target F) : Type 0 where
    pub named : bytes_eq t.target_id [] ≡ false
    pub probable : bad_probability t.probability ≡ false
    pub latitude_finite : geo.is_finite t.latitude ≡ true
    pub longitude_finite : geo.is_finite t.longitude ≡ true
    pub latitude_inside : outside t.latitude (negsuc 89) (pos 90) ≡ false
    pub longitude_inside : outside t.longitude (negsuc 179) (pos 180) ≡ false

  abbrev pub IsBuilt : Built (List Command × List (Marker F)) → Type 0
  IsBuilt r = (p : List Command × List (Marker F)) × (r ≡ built p)

  project-NotFailed :
      (cfg : Config F) (t : Target F)
      → bounds_bad cfg.bounds ≡ false
      → cfg.width ≡ pos 960
      → cfg.height ≡ pos 640
      → IsShowable t
      → NotFailed (project cfg.bounds cfg.width cfg.height t.latitude t.longitude)
  unfolding project int_ltb
  project-NotFailed cfg t b w h s =
      rw (b, w, h, s.latitude_finite, s.longitude_finite, s.latitude_inside, s.longitude_inside)
        (either-NotFailed _ _ _)

  add_marker-IsBuilt :
      (m : Marker F) {r : Built (List Command × List (Marker F))}
      → IsBuilt r
      → IsBuilt (add_marker m r)
  unfolding add_marker
  add_marker-IsBuilt m ((cs, ms), e) = ((circles m ++ cs, m ∷ ms), rw e refl)

  on_projected-IsBuilt :
      (t : Target F) {p : Projected} {r : Built (List Command × List (Marker F))}
      → NotFailed p
      → IsBuilt r
      → IsBuilt (on_projected t p r)
  unfolding on_projected
  on_projected-IsBuilt t has_none i = i
  on_projected-IsBuilt t has_point i = add_marker-IsBuilt _ i

  add_targets-IsBuilt :
      (cfg : Config F) (seen : List Bytes) (ts : List (Target F))
      → bounds_bad cfg.bounds ≡ false
      → cfg.width ≡ pos 960
      → cfg.height ≡ pos 640
      → All IsShowable ts
      → AreDistinct seen ts
      → IsBuilt (add_targets cfg seen ts)
  unfolding add_targets
  add_targets-IsBuilt cfg seen [] b w h a d = (_, refl)
  add_targets-IsBuilt cfg seen (t ∷ ts) b w h (s, a) (new, d) =
      rw (s.named, new, s.probable)
        (on_projected-IsBuilt t (project-NotFailed cfg t b w h s)
          (add_targets-IsBuilt cfg (t.target_id ∷ seen) ts b w h a d))

  with_background-IsBuilt :
      (cfg : Config F) {r : Built (List Command × List (Marker F))}
      → IsBuilt r
      → IsBuilt (with_background cfg r)
  unfolding with_background
  with_background-IsBuilt cfg ((cs, ms), e) = ((begin_frame ∷ draw_image cfg ∷ cs, ms), rw e refl)

  -- What `Validate` accepts.
  pub validate-inv :
      (cfg : Config F)
      → validate cfg ≡ none
      → (cfg.version ≡ pos 1)
        × (cfg.width ≡ pos 960)
        × (cfg.height ≡ pos 640)
        × (bytes_eq cfg.image [] ≡ false)
        × (bounds_bad cfg.bounds ≡ false)
  unfolding validate
  validate-inv cfg v =
      let (version_ok, v1) = none_if (not (int_eq cfg.version (pos 1))) unsupported_version _ v in
      let (size_ok, v2) =
        none_if (not (int_eq cfg.width (pos 960)) || not (int_eq cfg.height (pos 640)))
          bad_dimensions _ v1 in
      let (image_ok, v3) = none_if (bytes_eq cfg.image []) no_image _ v2 in
      let (bounds_ok, v4) = none_if (bounds_bad cfg.bounds) bad_bounds none v3 in
      (
        int_eq→≡ cfg.version (pos 1) (ground arith),
        int_eq→≡ cfg.width (pos 960) (ground arith),
        int_eq→≡ cfg.height (pos 640) (ground arith),
        image_ok,
        bounds_ok,
      )

  -- Of a valid configuration and targets with different nonempty ids, probabilities from 0 to 1 and
  -- finite coordinates in degrees, `BuildFrame` makes a frame, wherever the targets are.
  pub build_frame-IsBuilt :
      (cfg : Config F) (ts : List (Target F))
      → validate cfg ≡ none
      → All IsShowable ts
      → AreDistinct [] ts
      → IsBuilt (build_frame cfg ts)
  unfolding build_frame on_config
  build_frame-IsBuilt cfg ts v a d =
      let (_, width_ok, height_ok, _, bounds_ok) = validate-inv cfg v in
      rw v (
        with_background-IsBuilt cfg
          (add_targets-IsBuilt cfg [] ts bounds_ok width_ok height_ok a d))
