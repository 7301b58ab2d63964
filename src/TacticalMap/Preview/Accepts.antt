-- ===== src/TacticalMap/Preview/Accepts.antt =====
-- app/map: the frames of `BuildFrame` in `RenderPreview`.
use tac_os.Base.{
  ℕ, ◌≡◌, refl, ℤ, pos, int_eq_refl, int_ltb, is_positive, true, false, bytes_eq, List, [], ◌∷◌,
  All, some,
}
use tac_os.TacticalMap.Config.{Geo, Config, Target}
use tac_os.TacticalMap.Frame.{
  Command, Marker, built, circles, alpha, draw_circle, draw_image, build_frame, rgba,
}
use tac_os.TacticalMap.Frame.Shape.{IsProjected, all_circles, frame_commands, build_frame-IsFrame}
use tac_os.TacticalMap.Preview.{
  Drawing, Png, decoded, Preview, Rendered, rendered, on_begin, on_image, on_png, on_circle,
  on_command, preview_step, then_previews, previews, on_valid, render_preview,
}
use tac_os.TacticalMap.Projection.Inside.{IsInside, Rounding, project-IsInside}
use tac_os.WindowManager.Protocol.{Color}

-- The drawing is done.
abbrev pub IsRendered : {C : Type 0} → Rendered C → Type 0
IsRendered {C} r = (c : C) × (r ≡ rendered c)

module _ {F C I : Type 0} (drawing : Drawing C I) (cfg : Config F) where
  -- between BEGIN_FRAME and PRESENT
  abbrev running : C → Preview C
  running c = record { started = true; presented = false; canvas = c }

  on_circle-IsInside :
      (x y : ℤ) (radius : ℕ) (color : Color) (c : C)
      → is_positive (pos radius) ≡ true
      → int_ltb (pos 128) (pos radius) ≡ false
      → IsInside x cfg.width
      → IsInside y cfg.height
      → on_circle drawing cfg (running c) (pos radius) (some x) (some y) (some color)
        ≡ rendered (running (tac_os.TacticalMap.Preview.draw_circle drawing x y radius color c))
  unfolding on_circle
  on_circle-IsInside x y radius color c more less ix iy =
      rw (more, less, ix.not_before, ix.before_end, iy.not_before, iy.before_end) refl

  circle_step :
      (x y : ℤ) (radius : ℕ) (color : Color) (c : C) (rest : List Command)
      → is_positive (pos radius) ≡ true
      → int_ltb (pos 128) (pos radius) ≡ false
      → IsInside x cfg.width
      → IsInside y cfg.height
      → ((d : C) → IsRendered (previews drawing cfg rest (running d)))
      → IsRendered (previews drawing cfg (draw_circle x y radius color ∷ rest) (running c))
  unfolding previews preview_step on_command then_previews bytes_eq
  circle_step x y radius color c rest more less ix iy h =
      rw (on_circle-IsInside x y radius color c more less ix iy) (h _)

module _ {F C I : Type 0} ⦃geo : Geo F⦄ (drawing : Drawing C I) (cfg : Config F) where
  abbrev IsOnMap : Marker F → Type 0
  IsOnMap m = IsInside m.x cfg.width × IsInside m.y cfg.height

  circles_IsRendered :
      (ms : List (Marker F)) (c : C)
      → All IsOnMap ms
      → IsRendered (previews drawing cfg (all_circles ms) (running drawing cfg c))
  unfolding previews preview_step on_command then_previews bytes_eq circles
  circles_IsRendered [] c a = (c, refl)
  circles_IsRendered (m ∷ ms) c ((ix, iy), a) =
      let small : Command = draw_circle m.x m.y 10 (rgba 196 72 48 (alpha m.target.probability)) in
      circle_step drawing cfg m.x m.y 13 (rgba 255 255 255 255) c (small ∷ all_circles ms) refl
        (unfold int_ltb in refl) ix iy
        λ d.
          circle_step drawing cfg m.x m.y 10 (rgba 196 72 48 (alpha m.target.probability)) d
            (all_circles ms) refl (unfold int_ltb in refl) ix iy λ e. circles_IsRendered ms e a

  on_image-decoded :
      (p : Preview C) (image : I)
      → drawing.open_png cfg.image ≡ decoded image cfg.width cfg.height
      → on_image drawing cfg p (draw_image cfg) (some (pos 0)) (some (pos 0))
        ≡ rendered (record p { canvas = drawing.draw_over image p.canvas })
  unfolding on_image on_png
  on_image-decoded p image e =
      rw
        (
          int_eq_refl cfg.width,
          int_eq_refl cfg.height,
          e,
          int_eq_refl cfg.width,
          int_eq_refl cfg.height,
        )
        refl

  frame_IsRendered :
      (ms : List (Marker F)) (c : C) (image : I)
      → drawing.open_png cfg.image ≡ decoded image cfg.width cfg.height
      → All IsOnMap ms
      → IsRendered (
          previews drawing cfg
            (frame_commands cfg ms)
            (record { started = false; presented = false; canvas = c }))
  unfolding previews preview_step on_command then_previews bytes_eq on_begin
  frame_IsRendered ms c image e a =
      rw (on_image-decoded (running drawing cfg (drawing.fill (rgba 225 232 213 255) c)) image e)
        (circles_IsRendered ms (drawing.draw_over image (drawing.fill (rgba 225 232 213 255) c)) a)

  on_map : (ms : List (Marker F)) → Rounding F → All (IsProjected cfg) ms → All IsOnMap ms
  on_map [] rounding a = tt
  on_map (m ∷ ms) rounding (p, a) = (
    project-IsInside rounding cfg.bounds cfg.width cfg.height m.target.latitude m.target.longitude
        p,
    on_map ms rounding a,
  )

  -- The local preview renders every frame that `BuildFrame` makes: no command is refused, if the PNG of
  -- the configuration is read and has the size that the configuration gives.
  pub render_preview-build_frame :
      (ts : List (Target F)) {cs : List Command} {ms : List (Marker F)} {image : I}
      → Rounding F
      → build_frame cfg ts ≡ built (cs, ms)
      → drawing.open_png cfg.image ≡ decoded image cfg.width cfg.height
      → IsRendered (render_preview drawing cfg cs)
  unfolding render_preview on_valid
  render_preview-build_frame ts {ms} {image} rounding h e =
      let f = build_frame-IsFrame cfg ts h in
      rw (f.config_valid, f.commands)
        (frame_IsRendered ms (drawing.blank cfg.width cfg.height) image e
          (on_map ms rounding f.projected))
