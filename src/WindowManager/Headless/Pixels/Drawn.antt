-- ===== src/WindowManager/Headless/Pixels/Drawn.antt =====
-- window-manager/backend/headless/headless.go: what `put`, `blend` and the loops over an area make of
-- one pixel.
use tac_os.Base.{
  ℕ, ◌≡◌, refl, sym, subst, arith, ◌==◌, ltb, ◌&&◌, true, false, if◌then◌else◌, if_both, Bool-cases,
  inl, inr, times, times_keeps, times_same, times_lem, within,
}
use tac_os.WindowManager.Headless.Blend.{Rgba, Shade, transparent, over}
use tac_os.WindowManager.Headless.Blend.Exact.{
  IsPremultiplied, IsShade, painted, over_lem, over_exact-IsPremultiplied,
}
use tac_os.WindowManager.Headless.Pixels.{Image, inside, at, put, area, blend}

-- An image of that size with premultiplied pixels.
pub record IsCanvas (width height : ℕ) (i : Image) : Type 0 where
  pub width_is : i.width ≡ width
  pub height_is : i.height ≡ height
  pub all_premultiplied : (x y : ℕ) → IsPremultiplied (i.pix x y)

pub transparent-IsPremultiplied : IsPremultiplied transparent
transparent-IsPremultiplied = record {
  red_le = omega arith;
  green_le = omega arith;
  blue_le = omega arith;
  alpha_le = omega arith;
}

pub at-IsPremultiplied :
    {w h : ℕ} (x y : ℕ) (i : Image) → IsCanvas w h i → IsPremultiplied (at x y i)
unfolding at
at-IsPremultiplied x y i c =
    if_both IsPremultiplied (inside i x y) _ _ (λ e. c.all_premultiplied x y)
      (λ e. transparent-IsPremultiplied)

pub put-IsCanvas :
    {w h : ℕ} (x y : ℕ) (p : Rgba) (i : Image)
    → IsPremultiplied p
    → IsCanvas w h i
    → IsCanvas w h (put x y p i)
unfolding put
put-IsCanvas x y p i g c =
    if_both (IsCanvas _ _) (inside i x y) _ _
      (λ e. record {
        width_is = c.width_is;
        height_is = c.height_is;
        all_premultiplied = λ k l.
            if_both IsPremultiplied ((x == k) && (y == l)) _ _ (λ t. g)
              (λ t. c.all_premultiplied k l);
      })
      (λ e. c)

-- what is written at a pixel is there, if it is inside
at-put :
    (x y : ℕ) (p : Rgba) (i : Image) → at x y (put x y p i) ≡ (if inside i x y then p else at x y i)
unfolding at put
at-put x y p i = elim (Bool-cases (inside i x y)) [
  | inl e ↦ let t : ((x == x) && (y == y)) ≡ true = ground arith in rw (e, t, e) refl
  | inr e ↦ rw (e, e) refl
]

pub at-put_other :
    (x y k l : ℕ) (p : Rgba) (i : Image)
    → ((x == k) && (y == l)) ≡ false
    → at k l (put x y p i) ≡ at k l i
unfolding at put
at-put_other x y k l p i h = elim (Bool-cases (inside i x y)) [
  | inl e ↦ rw (e, h) refl
  | inr e ↦ rw e refl
]

pub at-blend_other :
    (x y k l : ℕ) (s : Shade) (i : Image)
    → ((x == k) && (y == l)) ≡ false
    → at k l (blend x y s i) ≡ at k l i
unfolding blend
at-blend_other x y k l s i e =
    if_both (λ j. at k l j ≡ at k l i) (s.sa == 0) _ _ (λ z. refl)
      (λ z. at-put_other x y k l (over s (at x y i)) i e)

-- what is seen at (k, l) after a blend there
abbrev pub blended : ℕ → ℕ → ℕ → ℕ → Shade → Rgba → Rgba
blended w h k l s p = if ltb k w && ltb l h then painted s p else p

module _ {w h : ℕ} where
  pub blend-IsCanvas :
      (x y : ℕ) (s : Shade) (i : Image) → IsShade s → IsCanvas w h i → IsCanvas w h (blend x y s i)
  unfolding blend
  blend-IsCanvas x y s i v c = elim (Bool-cases (s.sa == 0)) [
    | inl z ↦ rw z c
    | inr z ↦ rw z (
        put-IsCanvas x y (over s (at x y i)) i
          (let p = at-IsPremultiplied x y i c in
            subst IsPremultiplied (sym (over_lem s (at x y i) v p z))
              (over_exact-IsPremultiplied s (at x y i) v p))
          c)
  ]

  pub at-blend :
      (k l : ℕ) (s : Shade) (i : Image)
      → IsShade s
      → IsCanvas w h i
      → at k l (blend k l s i) ≡ blended w h k l s (at k l i)
  unfolding blend
  at-blend k l s i v c = elim (Bool-cases (s.sa == 0)) [
    | inl z ↦ rw z (if_both (λ p. at k l i ≡ p) (ltb k w && ltb l h) _ _ (λ e. refl) (λ e. refl))
    | inr z ↦
        rw
          (
            z,
            at-put k l (over s (at k l i)) i,
            over_lem s (at k l i) v (at-IsPremultiplied k l i c) z,
            c.width_is,
            c.height_is,
          )
          refl
  ]

  -- The loops over an area whose step at (k, l) changes that pixel, and no other step does.
  module _ (step : ℕ → ℕ → Image → Image)
      (keeps : (x y : ℕ) (i : Image) → IsCanvas w h i → IsCanvas w h (step x y i)) where
    pub area-IsCanvas :
        (lo n low m : ℕ) (i : Image) → IsCanvas w h i → IsCanvas w h (area step lo n low m i)
    unfolding times
    area-IsCanvas lo n low m =
        times_keeps (IsCanvas w h) _
          (λ y. times_keeps (IsCanvas w h) (λ x. step x y) (λ x. keeps x y) lo n) low m

    pub at-area :
        (k l : ℕ) (change : Rgba → Rgba)
        → ((i : Image) → IsCanvas w h i → at k l (step k l i) ≡ change (at k l i))
        → ((x y : ℕ) (i : Image)
            → IsCanvas w h i
            → ((x == k) && (y == l)) ≡ false
            → at k l (step x y i) ≡ at k l i)
        → (lo n low m : ℕ) (i : Image) → IsCanvas w h i
        → at k l (area step lo n low m i) ≡ (
            if within low m l
            then (if within lo n k then change (at k l i) else at k l i)
            else at k l i)
    unfolding times
    at-area k l change hit miss lo n low m i c =
        times_lem (IsCanvas w h) (at k l) (λ y. times (λ x. step x y) lo n)
          (λ y. times_keeps (IsCanvas w h) (λ x. step x y) (λ x. keeps x y) lo n) l
          (λ p. if within lo n k then change p else p)
          (times_lem (IsCanvas w h) (at k l) (λ x. step x l) (λ x. keeps x l) k change hit
            (λ x j d e. miss x l j d (ground arith)) lo n)
          (λ y j d e.
            times_same (IsCanvas w h) (at k l) (λ x. step x y) (λ x. keeps x y)
              (λ x j d. miss x y j d (ground arith)) lo n j d)
          low m i c
