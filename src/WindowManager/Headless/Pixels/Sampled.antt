-- ===== src/WindowManager/Headless/Pixels/Sampled.antt =====
-- window-manager/backend/headless/headless.go: the pixels that `DrawImage` changes.
use tac_os.Base.{
  ℕ, ◌≡◌, refl, sym, ◌∙◌, arith, ◌^◌, ◌≤◌, ◌<◌, ltb, ◌==◌, ◌&&◌, ◌||◌, Bool, true, false,
  if◌then◌else◌, if_both, Bool-cases, inl, inr, ℤ, pos, magnitude, within,
}
use tac_os.WindowManager.Headless.Blend.{Rgba}
use tac_os.WindowManager.Headless.Blend.Exact.{painted}
use tac_os.WindowManager.Headless.Pixels.{
  Image, Picture, at, area, sampled, start, extent, picture_step, draw_picture,
}
use tac_os.WindowManager.Headless.Pixels.Scaled.{IsPicture, covers, source, sampled_exact, span_lem}
use tac_os.WindowManager.Headless.Pixels.Drawn.{
  IsCanvas, blended, at-blend, at-blend_other, blend-IsCanvas, at-area,
}

-- what the two loops make of a pixel, by the tests that they come to it
unchanged : (a b : Bool) (p : Rgba) → (if a then (if b then p else p) else p) ≡ p
unchanged false b p = refl
unchanged true false p = refl
unchanged true true p = refl

both :
    (a b : Bool) (p q r : Rgba)
    → (a ≡ true → b ≡ true → q ≡ r)
    → (if a then (if b then q else p) else p) ≡ (if b && a then r else p)
both false false p q r f = refl
both false true p q r f = refl
both true false p q r f = refl
both true true p q r f = f refl refl

module _ (x y : ℤ) (a b : ℕ) (p : Picture) {w h : ℕ} (i : Image) (good : IsPicture p)
    (v : IsCanvas w h i) where
  area_lem :
      (k l lo n low m : ℕ)
      → at k l (area (picture_step p x y (pos a) (pos b)) lo n low m i) ≡ (
          if within low m l
          then (if within lo n k
              then blended w h k l
                  (p.shade_at (sampled k x p.columns (pos a)) (sampled l y p.rows (pos b)))
                  (at k l i)
              else at k l i)
          else at k l i)
  unfolding picture_step
  area_lem k l lo n low m =
      at-area (picture_step p x y (pos a) (pos b)) (λ j o d. blend-IsCanvas j o _ d (good _ _)) k l
        (blended w h k l (p.shade_at (sampled k x p.columns (pos a)) (sampled l y p.rows (pos b))))
        (λ d. at-blend k l _ d (good _ _)) (λ j o d c. at-blend_other j o k l _ d) lo n low m i v

  -- without columns or without rows, no loop comes to the pixel
  empty :
      (n m lo low k l : ℕ) (q r : Rgba)
      → ((n == 0) || (m == 0)) ≡ true
      → (if within low m l then (if within lo n k then q else r) else r) ≡ r
  empty n m lo low k l q r e = elim (Bool-cases (m == 0)) [
    | inl z ↦ let f : within low m l ≡ false = ground arith in rw f refl
    | inr z ↦
        let f : within lo n k ≡ false = ground arith in
        rw f (if_both (λ t. t ≡ r) (within low m l) _ _ (λ u. refl) (λ u. refl))
  ]

  at-draw_picture_loops :
      (k l : ℕ)
      → at k l (draw_picture x y (pos a) (pos b) p i) ≡ (
          if within (start y (pos b)) (extent y (pos b) i.height) l
          then (if within (start x (pos a)) (extent x (pos a) i.width) k
              then blended w h k l
                  (p.shade_at (sampled k x p.columns (pos a)) (sampled l y p.rows (pos b)))
                  (at k l i)
              else at k l i)
          else at k l i)
  unfolding draw_picture
  at-draw_picture_loops k l =
      let n = extent x (pos a) i.width in
      let m = extent y (pos b) i.height in
      elim (Bool-cases ((n == 0) || (m == 0))) [
        | inl e ↦ rw e (sym (empty n m (start x (pos a)) (start y (pos b)) k l _ _ e))
        | inr e ↦ rw e (area_lem k l (start x (pos a)) n (start y (pos b)) m)
      ]

-- A pixel of the window after `DrawImage` with a width and a height, for numbers up to 2 ^ 30 and an
-- image up to 2 ^ 32: it is painted over exactly once, from the pixel of the image that its offset
-- scales to, if the rectangle covers it, and as before if not. Nothing outside of the window changes.
pub at-draw_picture :
    (x y : ℤ) (a b : ℕ) (p : Picture) {w h : ℕ} (i : Image)
    → IsPicture p
    → IsCanvas w h i
    → magnitude x ≤ 2 ^ 30
    → magnitude y ≤ 2 ^ 30
    → a ≤ 2 ^ 30
    → b ≤ 2 ^ 30
    → p.columns ≤ 2 ^ 32
    → p.rows ≤ 2 ^ 32
    → (k l : ℕ)
    → at k l (draw_picture x y (pos a) (pos b) p i) ≡ (
        if (ltb k w && ltb l h) && (covers x a k && covers y b l)
        then painted
            (p.shade_at (pos (source x a p.columns k)) (pos (source y b p.rows l)))
            (at k l i)
        else at k l i)
at-draw_picture x y a b p {w} {h} i good v hx hy ha hb hc hr k l =
    at-draw_picture_loops x y a b p i good v k l ∙ elim (Bool-cases (ltb k w && ltb l h)) [
      | inr e ↦ rw e (unchanged _ _ (at k l i))
      | inl e ↦
          let wide = v.width_is in
          let high = v.height_is in
          let hk : k < i.width = ground arith in
          let hl : l < i.height = ground arith in
          rw (e, span_lem x a i.width k hx ha hk, span_lem y b i.height l hy hb hl)
            (both (covers y b l) (covers x a k) (at k l i) _ _ (λ f g.
              rw (sampled_exact k a p.columns x ha hc g, sampled_exact l b p.rows y hb hr f) refl))
    ]
