-- ===== src/TacticalMap/Frame/Shape.antt =====
-- app/map/frame.go: the frames that `BuildFrame` makes.
use tac_os.Base.{
  ◌≡◌, refl, subst, ap, if_both, ◌||◌, Bytes, bytes_eq, List, [], ◌∷◌, ◌++◌, map, All, Option, none,
  some,
}
use tac_os.TacticalMap.Config.{Geo, Config, ConfigError, Target, validate, bad_probability}
use tac_os.TacticalMap.Frame.{
  Command, Marker, FrameError, Built, built, build_failed, begin_frame, draw_image, present,
  was_seen, circles, add_marker, on_projected, add_targets, with_background, on_config, build_frame,
  bad_config,
}
use tac_os.TacticalMap.Projection.{Projected, at, outside_map, project_failed, project}

abbrev pub if_at : {A : Type 0} → Projected → A → A → A
if_at (at x y) a b = a
if_at outside_map a b = b
if_at (project_failed e) a b = b

built_inj :
    {A B : Type 0} {a c : A} {b d : B}
    → ◌≡◌ {A = Built (A × B)} (built (a, b)) (built (c, d))
    → (a ≡ c) × (b ≡ d)
built_inj e = (cc, cc)

module _ {F : Type 0} ⦃geo : Geo F⦄ where
  abbrev pub project_target : Config F → Target F → Projected
  project_target cfg t = project cfg.bounds cfg.width cfg.height t.latitude t.longitude

  -- The targets that have a point.
  abbrev pub visible : Config F → List (Target F) → List (Target F)
  visible cfg [] = []
  visible cfg (t ∷ ts) = if_at (project_target cfg t) (t ∷ visible cfg ts) (visible cfg ts)

  abbrev pub all_circles : List (Marker F) → List Command
  all_circles [] = present ∷ []
  all_circles (m ∷ ms) = circles m ++ all_circles ms

  -- The background, two circles for each marker, and the end.
  abbrev pub frame_commands : Config F → List (Marker F) → List Command
  frame_commands cfg ms = begin_frame ∷ draw_image cfg ∷ all_circles ms

  abbrev pub IsProjected : Config F → Marker F → Type 0
  IsProjected cfg m = project_target cfg m.target ≡ at m.x m.y

  -- The result of the loop over the targets.
  data Shaped (cfg : Config F) (ts : List (Target F))
      : Built (List Command × List (Marker F)) → Type 0 where
    shaped :
        {r : Built (List Command × List (Marker F))} (ms : List (Marker F))
        → r ≡ built (all_circles ms, ms)
        → map (λ m. m.target) ms ≡ visible cfg ts
        → All (IsProjected cfg) ms
        → Shaped cfg ts r
    no_frame : (e : FrameError) → Shaped cfg ts (build_failed e)

  on_projected-Shaped :
      (cfg : Config F) (t : Target F) (ts : List (Target F)) (p : Projected)
      (r : Built (List Command × List (Marker F)))
      → project_target cfg t ≡ p
      → Shaped cfg ts r
      → Shaped cfg (t ∷ ts) (on_projected t p r)
  unfolding on_projected add_marker
  on_projected-Shaped cfg t ts (project_failed e) r is s = no_frame _
  on_projected-Shaped cfg t ts outside_map r is (shaped ms e targets all) =
      shaped ms e (rw is targets) all
  on_projected-Shaped cfg t ts outside_map r is (no_frame e) = no_frame e
  on_projected-Shaped cfg t ts (at x y) r is (shaped ms e targets all) =
      let m : Marker F = record { target = t; x = x; y = y } in
      shaped (m ∷ ms) (rw e refl) (rw is (ap (λ us. t ∷ us) targets)) (is, all)
  on_projected-Shaped cfg t ts (at x y) r is (no_frame e) = no_frame e

  add_targets-Shaped :
      (cfg : Config F) (seen : List Bytes) (ts : List (Target F))
      → Shaped cfg ts (add_targets cfg seen ts)
  unfolding add_targets
  add_targets-Shaped cfg seen [] = shaped [] refl refl tt
  add_targets-Shaped cfg seen (t ∷ ts) =
      if_both (Shaped cfg (t ∷ ts)) (bytes_eq t.target_id [] || was_seen t.target_id seen) _ _
        (λ e. no_frame _)
        (λ e.
          if_both (Shaped cfg (t ∷ ts)) (bad_probability t.probability) _ _ (λ f. no_frame _)
            (λ f.
              on_projected-Shaped cfg t ts (project_target cfg t) _ refl
                (add_targets-Shaped cfg (t.target_id ∷ seen) ts)))

  -- A frame of a valid configuration.
  pub record IsFrame (cfg : Config F) (ts : List (Target F)) (cs : List Command)
      (ms : List (Marker F)) : Type 0 where
    pub config_valid : validate cfg ≡ none
    pub commands : cs ≡ frame_commands cfg ms
    pub targets : map (λ m. m.target) ms ≡ visible cfg ts
    pub projected : All (IsProjected cfg) ms

  with_background-IsFrame :
      (cfg : Config F) (ts : List (Target F)) {r : Built (List Command × List (Marker F))}
      {cs : List Command} {ms : List (Marker F)}
      → validate cfg ≡ none
      → Shaped cfg ts r
      → with_background cfg r ≡ built (cs, ms)
      → IsFrame cfg ts cs ms
  unfolding with_background
  with_background-IsFrame cfg ts {cs} {ms} v (shaped ns e targets all) h =
      let same = rw e at h in
      subst (λ us. IsFrame cfg ts us ms) ((built_inj same).0)
        (subst (λ us. IsFrame cfg ts (frame_commands cfg ns) us) ((built_inj same).1)
          (record { config_valid = v; commands = refl; targets = targets; projected = all }))
  with_background-IsFrame cfg ts v (no_frame e) h = cc

  pub build_frame-IsFrame :
      (cfg : Config F) (ts : List (Target F)) {cs : List Command} {ms : List (Marker F)}
      → build_frame cfg ts ≡ built (cs, ms)
      → IsFrame cfg ts cs ms
  unfolding build_frame
  build_frame-IsFrame cfg ts {cs} {ms} h = go (validate cfg) refl h
    where
      go :
          (o : Option ConfigError)
          → validate cfg ≡ o
          → on_config cfg o ts ≡ built (cs, ms)
          → IsFrame cfg ts cs ms
      go none v k =
          with_background-IsFrame cfg ts v (add_targets-Shaped cfg [] ts) (unfold on_config in k)
      go (some e) v k = absurd (never (unfold on_config in k))
        where
          never :
              {cs : List Command} {ms : List (Marker F)}
              → ◌≡◌ {A = Built (List Command × List (Marker F))}
                  (build_failed (bad_config e))
                  (built (cs, ms))
              → ⊥
          never l = cc
