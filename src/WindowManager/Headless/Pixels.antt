-- ===== src/WindowManager/Headless/Pixels.antt =====
-- window-manager/backend/headless/headless.go: `fill`, `blend` and the drawing of `DrawImage` and
-- `DrawCircle`. The file's content, decoded, is the argument `decode`. An `int` has 64 bits and
-- wraps around; for a sum or product of several numbers it is enough to wrap the result.
pub mod Drawn
pub mod Circle
pub mod Distance
pub mod Scaled
pub mod Sampled
pub mod Shown
mod Tests
use tac_os.Base.{
  ℕ, zero, suc, ◌+◌, ◌-◌, ◌*◌, ◌/◌, ◌==◌, ltb, ◌&&◌, ◌||◌, not, Bool, true, false, if◌then◌else◌, ℤ,
  pos, negsuc, negated, is_positive, int_ltb, ◌+ℤ◌, ◌-ℤ◌, sub_ℕ, int64, from_zero, int_min, int_max,
  times, Bytes,
}
use tac_os.WindowManager.Backend.{Fallible, value, error}
use tac_os.WindowManager.Protocol.{Color}
use tac_os.WindowManager.Headless.{Canvas}
use tac_os.WindowManager.Headless.Blend.{
  Rgba, Shade, transparent, color_shade, stored, rgba_shade, over,
}

-- image.RGBA, whose bounds start at (0, 0)
pub record Image : Type 0 where
  pub width : ℕ
  pub height : ℕ
  pub pix : ℕ → ℕ → Rgba

abbrev pub inside : Image → ℕ → ℕ → Bool
inside i x y = ltb x i.width && ltb y i.height

-- `At` and `SetRGBA`
unfoldable pub at : ℕ → ℕ → Image → Rgba
at x y i = if inside i x y then i.pix x y else transparent

unfoldable pub put : ℕ → ℕ → Rgba → Image → Image
put x y p i =
    if inside i x y
    then record i { pix = λ k l. if (x == k) && (y == l) then p else i.pix k l }
    else i

-- the loops over y and x: n columns from lo and m rows from low
abbrev pub area : (ℕ → ℕ → Image → Image) → ℕ → ℕ → ℕ → ℕ → Image → Image
area step lo n low m = times (λ y. times (λ x. step x y) lo n) low m

-- `image.NewRGBA(image.Rect(0, 0, width, height))`, of positive numbers
abbrev pub new_rgba : ℤ → ℤ → Image
new_rgba width height = record {
  width = from_zero width;
  height = from_zero height;
  pix = λ x y. transparent;
}

unfoldable pub fill : Color → Image → Image
fill c i = area (λ x y. put x y (stored (color_shade c))) 0 i.width 0 i.height i

unfoldable pub blend : ℕ → ℕ → Shade → Image → Image
blend x y s i = if s.sa == 0 then i else put x y (over s (at x y i)) i

abbrev square : ℤ → ℕ
square (pos n) = n * n
square (negsuc n) = suc n * suc n

-- `dx*dx+dy*dy <= r2`
unfoldable pub in_circle : ℤ → ℤ → ℤ → ℕ → ℕ → Bool
in_circle x y radius px py =
    let dx = int64 (pos px -ℤ x) in
    let dy = int64 (pos py -ℤ y) in
    not (int_ltb (int64 (pos (square radius))) (int64 (pos (square dx + square dy))))

-- the number of the k with lo <= k <= last
abbrev pub count_to : ℕ → ℤ → ℕ
count_to lo (pos last) = suc last - lo
count_to lo (negsuc last) = 0

-- `max(c-radius, 0)` and `min(c+radius, size-1)`
unfoldable pub first : ℤ → ℤ → ℕ
first c radius = from_zero (int64 (c -ℤ radius))

unfoldable pub last : ℤ → ℤ → ℕ → ℤ
last c radius size = int_min (int64 (c +ℤ radius)) (sub_ℕ size 1)

unfoldable pub circle_step : ℤ → ℤ → ℤ → Shade → ℕ → ℕ → Image → Image
circle_step x y radius s px py i = if in_circle x y radius px py then blend px py s i else i

unfoldable pub circle : ℤ → ℤ → ℤ → Color → Image → Image
circle x y radius c i =
    area (circle_step x y radius (color_shade c)) (first x radius)
      (count_to (first x radius) (last x radius i.width)) (first y radius)
      (count_to (first y radius) (last y radius i.height)) i

-- a decoded image; `shade_at` counts from the corner of its bounds
pub record Picture : Type 0 where
  pub columns : ℕ
  pub rows : ℕ
  pub shade_at : ℤ → ℤ → Shade

-- `a * b` and `a / b` on integers, where b is not 0
abbrev pub scale : ℤ → ℕ → ℤ
scale (pos a) b = pos (a * b)
scale (negsuc a) b = negated (suc a * b)

abbrev pub quot : ℤ → ℤ → ℤ
quot (pos a) (pos b) = pos (a / b)
quot (pos a) (negsuc b) = negated (a / suc b)
quot (negsuc a) (pos b) = negated (suc a / b)
quot (negsuc a) (negsuc b) = pos (suc a / suc b)

-- `(px - x) * src.Bounds().Dx() / width`
unfoldable pub sampled : ℕ → ℤ → ℕ → ℤ → ℤ
sampled px x columns width = quot (int64 (scale (int64 (pos px -ℤ x)) columns)) width

-- `image.Rect(x, y, x+width, y+height).Intersect(w.back.Bounds())`, one dimension: where it starts,
-- and how long it is; 0 means that it is empty
unfoldable pub start : ℤ → ℤ → ℕ
start x width = from_zero (int_min x (int64 (x +ℤ width)))

abbrev pub count_below : ℕ → ℤ → ℕ
count_below lo (pos end) = end - lo
count_below lo (negsuc end) = 0

unfoldable pub extent : ℤ → ℤ → ℕ → ℕ
extent x width size =
    count_below (start x width) (int_min (int_max x (int64 (x +ℤ width))) (pos size))

unfoldable pub picture_step : Picture → ℤ → ℤ → ℤ → ℤ → ℕ → ℕ → Image → Image
picture_step p x y width height px py =
    blend px py (p.shade_at (sampled px x p.columns width) (sampled py y p.rows height))

-- `DrawImage` after the decoding
unfoldable pub draw_picture : ℤ → ℤ → ℤ → ℤ → Picture → Image → Image
draw_picture x y width height p i =
    let n = extent x width i.width in
    let m = extent y height i.height in
    if (n == 0) || (m == 0)
    then i
    else area (picture_step p x y width height) (start x width) n (start y height) m i

-- `DrawImage` after its tests; opening or decoding the file may fail
unfoldable pub decoded : ℤ → ℤ → ℤ → ℤ → Image → Fallible Picture → Fallible Image
decoded x y width height i (error e) = error e
decoded x y width height i (value p) = value (draw_picture x y width height p i)

abbrev pub pixels : (Bytes → Fallible Picture) → Canvas Image
pixels decode = record {
  blank = new_rgba;
  fill = fill;
  image = λ path x y width height i. decoded x y width height i (decode path);
  circle = circle;
}
