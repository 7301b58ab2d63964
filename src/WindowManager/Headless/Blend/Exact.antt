-- ===== src/WindowManager/Headless/Blend/Exact.antt =====
-- window-manager/backend/headless/headless.go: `blend` in uint32 and uint8, against exact numbers.
use tac_os.Base.{ℕ, ◌≡◌, arith, ◌+◌, ◌-◌, ◌*◌, ◌/◌, ◌≤◌, ◌<◌, ◌==◌, false, if◌then◌else◌, if_both}
use native.Mathlib.Nat.{mul-le-mul_right}
use tac_os.WindowManager.Protocol.{Color}
use tac_os.WindowManager.Headless.Blend.{
  Rgba, Shade, widened, scaled, wrap8, wrap32, wrap32_sub, rgba_shade, color_shade, stored, channel,
  over,
}

pub record IsPremultiplied (p : Rgba) : Type 0 where
  pub red_le : p.red ≤ p.alpha
  pub green_le : p.green ≤ p.alpha
  pub blue_le : p.blue ≤ p.alpha
  pub alpha_le : p.alpha ≤ 255

pub record IsShade (s : Shade) : Type 0 where
  pub sr_le : s.sr ≤ s.sa
  pub sg_le : s.sg ≤ s.sa
  pub sb_le : s.sb ≤ s.sa
  pub sa_le : s.sa ≤ 65535

-- the channels of a color.NRGBA, which are not premultiplied
pub record IsColor (c : Color) : Type 0 where
  pub r_le : c.r ≤ 255
  pub g_le : c.g ≤ 255
  pub b_le : c.b ≤ 255
  pub a_le : c.a ≤ 255

-- source over destination, in numbers without a bound
abbrev pub mixed : ℕ → ℕ → ℕ → ℕ
mixed sa s d = s + d * (65535 - sa) / 65535

abbrev high : ℕ → ℕ → ℕ → ℕ
high sa s v = mixed sa s (widened v) / 256

-- The pixel that blending should give.
unfoldable pub over_exact : Shade → Rgba → Rgba
over_exact s p = record {
  red = high s.sa s.sr p.red;
  green = high s.sa s.sg p.green;
  blue = high s.sa s.sb p.blue;
  alpha = high s.sa s.sa p.alpha;
}

scale_bound : (d t : ℕ) → d ≤ 65535 → d * t / 65535 ≤ t
scale_bound d t h = let k = mul-le-mul_right t h in omega arith

wrap32_exact : (n : ℕ) → n < 4294967296 → wrap32 n ≡ n
wrap32_exact n h = omega arith

sub_exact : (sa : ℕ) → sa ≤ 65535 → wrap32_sub 65535 sa ≡ 65535 - sa
sub_exact sa h = omega arith

channel_exact : (sa s d : ℕ) → sa ≤ 65535 → s ≤ sa → d ≤ 65535 → channel sa s d ≡ mixed sa s d
unfolding channel
channel_exact sa s d a h k =
    let m = mul-le-mul_right (65535 - sa) k in
    let b = scale_bound d (65535 - sa) k in
    rw (sub_exact sa a, wrap32_exact (d * (65535 - sa)) (omega arith))
      (wrap32_exact (mixed sa s d) (omega arith))

mixed_mono : (sa s d e : ℕ) → s ≤ sa → d ≤ e → mixed sa s d ≤ mixed sa sa e
mixed_mono sa s d e h k = let m = mul-le-mul_right (65535 - sa) k in omega arith

mixed_bound : (sa d : ℕ) → sa ≤ 65535 → d ≤ 65535 → mixed sa sa d ≤ 65535
mixed_bound sa d a k = let b = scale_bound d (65535 - sa) k in omega arith

wrap8_exact : (n : ℕ) → n ≤ 65535 → wrap8 (n / 256) ≡ n / 256
wrap8_exact n h = omega arith

-- One channel of what is stored, where the source is not transparent.
stored_channel :
    (sa s d e : ℕ)
    → sa ≤ 65535
    → s ≤ sa
    → d ≤ e
    → e ≤ 255
    → wrap8 (channel sa s (widened d) / 256) ≡ high sa s d
stored_channel sa s d e a h k l =
    let m = mixed_mono sa s (widened d) (widened e) h (omega arith) in
    let b = mixed_bound sa (widened e) a (omega arith) in
    rw (channel_exact sa s (widened d) a h (omega arith))
      (wrap8_exact (mixed sa s (widened d)) (omega arith))

-- The alpha of what is drawn is that of the source at least, so not 0.
out_alpha :
    (sa d : ℕ) → sa ≤ 65535 → d ≤ 255 → sa == 0 ≡ false → channel sa sa (widened d) == 0 ≡ false
out_alpha sa d a k n =
    rw (channel_exact sa sa (widened d) a (omega arith) (omega arith)) (ground arith)

abbrev rgba : ℕ → ℕ → ℕ → ℕ → Rgba
rgba r g b a = record { red = r; green = g; blue = b; alpha = a }

rgba_path :
    {r r' g g' b b' a a' : ℕ} → r ≡ r' → g ≡ g' → b ≡ b' → a ≡ a' → rgba r g b a ≡ rgba r' g' b' a'
rgba_path p q r s = cc

-- Over a premultiplied pixel, a premultiplied source that is not transparent gives the exact
-- high bytes: no step of the arithmetic in uint32 and uint8 loses anything.
pub over_lem :
    (s : Shade) (p : Rgba)
    → IsShade s
    → IsPremultiplied p
    → s.sa == 0 ≡ false
    → over s p ≡ over_exact s p
unfolding over stored rgba_shade over_exact
over_lem s p v i z = rw (out_alpha s.sa p.alpha v.sa_le i.alpha_le z) (
    rgba_path (stored_channel s.sa s.sr p.red p.alpha v.sa_le v.sr_le i.red_le i.alpha_le)
      (stored_channel s.sa s.sg p.green p.alpha v.sa_le v.sg_le i.green_le i.alpha_le)
      (stored_channel s.sa s.sb p.blue p.alpha v.sa_le v.sb_le i.blue_le i.alpha_le)
      (stored_channel s.sa s.sa p.alpha p.alpha v.sa_le (omega arith) (omega arith) i.alpha_le))

high_mono : (sa s d e : ℕ) → s ≤ sa → d ≤ e → high sa s d ≤ high sa sa e
high_mono sa s d e h k =
    let m = mixed_mono sa s (widened d) (widened e) h (omega arith) in omega arith

pub over_exact-IsPremultiplied :
    (s : Shade) (p : Rgba) → IsShade s → IsPremultiplied p → IsPremultiplied (over_exact s p)
unfolding over_exact
over_exact-IsPremultiplied s p v i = record {
  red_le = high_mono s.sa s.sr p.red p.alpha v.sr_le i.red_le;
  green_le = high_mono s.sa s.sg p.green p.alpha v.sg_le i.green_le;
  blue_le = high_mono s.sa s.sb p.blue p.alpha v.sb_le i.blue_le;
  alpha_le =
      let b = mixed_bound s.sa (widened p.alpha) v.sa_le (let a = i.alpha_le in omega arith) in
      omega arith;
}

-- The pixel after a blend.
abbrev pub painted : Shade → Rgba → Rgba
painted s p = if s.sa == 0 then p else over_exact s p

pub painted-IsPremultiplied :
    (s : Shade) (p : Rgba) → IsShade s → IsPremultiplied p → IsPremultiplied (painted s p)
painted-IsPremultiplied s p v i =
    if_both IsPremultiplied (s.sa == 0) _ _ (λ z. i) (λ z. over_exact-IsPremultiplied s p v i)

scaled_le : (v a : ℕ) → v ≤ 255 → scaled v a ≤ widened a
scaled_le v a h =
    let m = mul-le-mul_right a (let k : widened v ≤ 65535 = omega arith in k) in omega arith

pub color_shade-IsShade : (c : Color) → IsColor c → IsShade (color_shade c)
unfolding color_shade
color_shade-IsShade c i = record {
  sr_le = scaled_le c.r c.a i.r_le;
  sg_le = scaled_le c.g c.a i.g_le;
  sb_le = scaled_le c.b c.a i.b_le;
  sa_le = let a = i.a_le in omega arith;
}

wrap8_mono : (v a : ℕ) → v ≤ a → a ≤ 65535 → wrap8 (v / 256) ≤ wrap8 (a / 256)
wrap8_mono v a h k = omega arith

pub stored-IsPremultiplied : (s : Shade) → IsShade s → IsPremultiplied (stored s)
unfolding stored
stored-IsPremultiplied s v = record {
  red_le = wrap8_mono s.sr s.sa v.sr_le v.sa_le;
  green_le = wrap8_mono s.sg s.sa v.sg_le v.sa_le;
  blue_le = wrap8_mono s.sb s.sa v.sb_le v.sa_le;
  alpha_le = omega arith;
}
