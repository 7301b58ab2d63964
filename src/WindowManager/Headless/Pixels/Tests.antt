-- ===== src/WindowManager/Headless/Pixels/Tests.antt =====
-- window-manager/backend/headless/headless.go: the drawing on small images.
use tac_os.Base.{
  ◌≡◌, refl, arith, pos, negsuc, false, if◌then◌else◌, Bytes, ltb, ◌&&◌, if_both, subst, int_ltb,
  ◌+ℤ◌, int64, times,
}
use tac_os.WindowManager.Backend.{Fallible, value}
use tac_os.WindowManager.Protocol.{Color}
use tac_os.WindowManager.Headless.{Window}
use tac_os.WindowManager.Headless.Blend.{
  transparent, color_shade, stored, rgba_shade, channel, over,
}
use tac_os.WindowManager.Headless.Blend.Exact.{
  IsColor, IsShade, painted, over_exact, over_lem, color_shade-IsShade, stored-IsPremultiplied,
}
use tac_os.WindowManager.Headless.Pixels.{
  Image, Picture, new_rgba, at, put, fill, blend, circle, in_circle, first, last, circle_step,
  draw_picture,
}
use tac_os.WindowManager.Headless.Pixels.Distance.{is_near}
use tac_os.WindowManager.Headless.Pixels.Drawn.{IsCanvas, transparent-IsPremultiplied}
use tac_os.WindowManager.Headless.Pixels.Circle.{at-circle}
use tac_os.WindowManager.Headless.Pixels.Scaled.{covers, source, IsPicture}
use tac_os.WindowManager.Headless.Pixels.Sampled.{at-draw_picture}
use tac_os.WindowManager.Headless.Pixels.Shown.{
  IsShown, Decodes, here, next, begin_frame, disc, present, Drawn-IsShown,
}

abbrev red : Color
red = record { r = 255; g = 0; b = 0; a = 255 }

abbrev dim : Color
dim = record { r = 0; g = 0; b = 200; a = 128 }

red-IsColor : IsColor red
red-IsColor = record {
  r_le = omega arith;
  g_le = omega arith;
  b_le = omega arith;
  a_le = omega arith;
}

dim-IsColor : IsColor dim
dim-IsColor = record {
  r_le = omega arith;
  g_le = omega arith;
  b_le = omega arith;
  a_le = omega arith;
}

abbrev small : Image
small = new_rgba (pos 4) (pos 3)

small-IsCanvas : IsCanvas 4 3 small
small-IsCanvas = record {
  width_is = refl;
  height_is = refl;
  all_premultiplied = λ x y. transparent-IsPremultiplied;
}

-- a blue at half strength over red, and the exact bytes
half_blue :
    over (color_shade dim) (stored (color_shade red))
    ≡ record { red = 127; green = 0; blue = 100; alpha = 255 }
unfolding over channel rgba_shade stored color_shade
half_blue = refl

over_lem_example :
    over (color_shade dim) (stored (color_shade red))
    ≡ over_exact (color_shade dim) (stored (color_shade red))
unfolding color_shade
over_lem_example =
    over_lem (color_shade dim) (stored (color_shade red)) (color_shade-IsShade dim dim-IsColor)
      (stored-IsPremultiplied (color_shade red) (color_shade-IsShade red red-IsColor)) refl

-- a disc about a point left of the image
circle_near :
    at 0 1 (circle (negsuc 0) (pos 1) (pos 2) red small)
    ≡ record { red = 255; green = 0; blue = 0; alpha = 255 }
unfolding at circle first last circle_step in_circle blend put over channel rgba_shade stored
    color_shade times int_ltb ◌+ℤ◌ int64
circle_near = refl

circle_far : at 2 1 (circle (negsuc 0) (pos 1) (pos 2) red small) ≡ transparent
unfolding at circle first last circle_step in_circle blend put over channel rgba_shade stored
    color_shade times int_ltb ◌+ℤ◌ int64
circle_far = refl

-- the square of a radius of 2 ^ 32 wraps around to 0, so that the disc has one pixel
huge_radius : in_circle (pos 0) (pos 0) (pos 4294967296) 1 0 ≡ false
unfolding in_circle int_ltb ◌+ℤ◌ int64
huge_radius = refl

at-circle_example : at 0 1 (circle (negsuc 0) (pos 1) (pos 2) red small) ≡ (
    if (ltb 0 4 && ltb 1 3) && is_near (negsuc 0) (pos 1) 2 0 1
    then painted (color_shade red) (at 0 1 small)
    else at 0 1 small)
at-circle_example =
    at-circle (negsuc 0) (pos 1) 2 red small small-IsCanvas red-IsColor (omega arith) (omega arith)
      (omega arith) (omega arith) (omega arith) 0 1

-- two columns and one row, red and dim
abbrev two : Picture
two = record {
  columns = 2;
  rows = 1;
  shade_at = λ a b. if int_ltb a (pos 1) then color_shade red else color_shade dim;
}

two-IsPicture : IsPicture two
two-IsPicture a b =
    if_both IsShade (int_ltb a (pos 1)) _ _ (λ e. color_shade-IsShade red red-IsColor)
      (λ e. color_shade-IsShade dim dim-IsColor)

at-draw_picture_example : at 1 1 (draw_picture (negsuc 0) (pos 0) (pos 4) (pos 2) two small) ≡ (
    if (ltb 1 4 && ltb 1 3) && (covers (negsuc 0) 4 1 && covers (pos 0) 2 1)
    then painted
        (two.shade_at (pos (source (negsuc 0) 4 2 1)) (pos (source (pos 0) 2 1 1)))
        (at 1 1 small)
    else at 1 1 small)
at-draw_picture_example =
    at-draw_picture (negsuc 0) (pos 0) 4 2 two small two-IsPicture small-IsCanvas (omega arith)
      (omega arith) (omega arith) (omega arith) (omega arith) (omega arith) 1 1

abbrev one_file : Bytes → Fallible Picture
one_file path = value two

one_file-Decodes : Decodes one_file
one_file-Decodes path p e = subst IsPicture (value_path e) two-IsPicture
  where
    value_path : {p q : Picture} → value p ≡ value q → p ≡ q
    value_path e = cc

abbrev fresh : Window Image
fresh = record { visible = false; closed = false; back = small; front = small }

abbrev framed : Window Image
framed = record fresh { back = circle (pos 1) (pos 1) (pos 1) dim (fill red small) }

Drawn-IsShown_example : IsShown 4 3 (record framed { front = framed.back })
Drawn-IsShown_example = Drawn-IsShown one_file (pos 4) (pos 3) one_file-Decodes (
    next
      (next (next here (begin_frame red red-IsColor))
        (disc (pos 1) (pos 1) (pos 1) dim dim-IsColor refl))
      present)
