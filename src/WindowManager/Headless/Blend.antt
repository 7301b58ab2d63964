-- ===== src/WindowManager/Headless/Blend.antt =====
-- window-manager/backend/headless/headless.go: `rgba` and the arithmetic of `blend`. The colours are
-- those of image/color: `Rgba` is a stored pixel, `Shade` what a colour's `RGBA()` returns.
pub mod Exact
use tac_os.Base.{ℕ, ◌+◌, ◌-◌, ◌*◌, ◌/◌, ◌%◌, ◌^◌, ◌==◌, if◌then◌else◌}
use tac_os.WindowManager.Protocol.{Color}

-- color.RGBA, premultiplied
pub record Rgba : Type 0 where
  pub red : ℕ
  pub green : ℕ
  pub blue : ℕ
  pub alpha : ℕ

-- 16 bits in each channel
pub record Shade : Type 0 where
  pub sr : ℕ
  pub sg : ℕ
  pub sb : ℕ
  pub sa : ℕ

abbrev pub transparent : Rgba
transparent = record { red = 0; green = 0; blue = 0; alpha = 0 }

-- uint8 and uint32
abbrev pub wrap8 : ℕ → ℕ
wrap8 n = n % 2 ^ 8

abbrev pub wrap32 : ℕ → ℕ
wrap32 n = n % 2 ^ 32

-- `a - b` in uint32, of b < 2 ^ 32
abbrev pub wrap32_sub : ℕ → ℕ → ℕ
wrap32_sub a b = wrap32 (a + (2 ^ 32 - b))

-- `RGBA` of a stored pixel: `v |= v << 8`
abbrev pub widened : ℕ → ℕ
widened v = v * 257

unfoldable pub rgba_shade : Rgba → Shade
rgba_shade p = record {
  sr = widened p.red;
  sg = widened p.green;
  sb = widened p.blue;
  sa = widened p.alpha;
}

-- `RGBA` of color.NRGBA: `v |= v << 8; v *= a; v /= 0xff`
abbrev pub scaled : ℕ → ℕ → ℕ
scaled v a = widened v * a / 255

unfoldable pub color_shade : Color → Shade
color_shade c = record {
  sr = scaled c.r c.a;
  sg = scaled c.g c.a;
  sb = scaled c.b c.a;
  sa = widened c.a;
}

-- what `Set` stores for a colour: the high byte of each channel
unfoldable pub stored : Shade → Rgba
stored s = record {
  red = wrap8 (s.sr / 256);
  green = wrap8 (s.sg / 256);
  blue = wrap8 (s.sb / 256);
  alpha = wrap8 (s.sa / 256);
}

-- `s + d * (maxAlpha - sa) / maxAlpha`
unfoldable pub channel : ℕ → ℕ → ℕ → ℕ
channel sa s d = wrap32 (s + wrap32 (d * wrap32_sub 65535 sa) / 65535)

-- what `blend` stores for the shade over the pixel
unfoldable pub over : Shade → Rgba → Rgba
over s p =
    let d = rgba_shade p in
    let out_a = channel s.sa s.sa d.sa in
    if out_a == 0
    then transparent
    else stored (record {
      sr = channel s.sa s.sr d.sr;
      sg = channel s.sa s.sg d.sg;
      sb = channel s.sa s.sb d.sb;
      sa = out_a;
    })
