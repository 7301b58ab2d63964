-- ===== src/WindowManager/Headless/Pixels/Circle.antt =====
-- window-manager/backend/headless/headless.go: the pixels that `DrawCircle` changes.
use tac_os.Base.{
  ℕ, ◌≡◌, refl, ◌∙◌, arith, ◌^◌, ◌≤◌, ◌<◌, ltb, ◌==◌, ◌&&◌, Bool, true, false, if◌then◌else◌,
  if_both, Bool-cases, inl, inr, ℤ, pos, magnitude, within,
}
use tac_os.WindowManager.Protocol.{Color}
use tac_os.WindowManager.Headless.Blend.{Shade, Rgba, color_shade}
use tac_os.WindowManager.Headless.Blend.Exact.{IsColor, IsShade, painted, color_shade-IsShade}
use tac_os.WindowManager.Headless.Pixels.{
  Image, at, in_circle, count_to, first, last, circle_step, circle,
}
use tac_os.WindowManager.Headless.Pixels.Drawn.{
  IsCanvas, blended, at-blend, at-blend_other, blend-IsCanvas, at-area,
}
use tac_os.WindowManager.Headless.Pixels.Distance.{is_near, in_circle_exact, reached}

module _ {w h : ℕ} (x y : ℤ) (r : ℕ) (s : Shade) (v : IsShade s) where
  circle_step-IsCanvas :
      (k l : ℕ) (i : Image) → IsCanvas w h i → IsCanvas w h (circle_step x y (pos r) s k l i)
  unfolding circle_step
  circle_step-IsCanvas k l i c =
      if_both (IsCanvas w h) (in_circle x y (pos r) k l) _ _ (λ e. blend-IsCanvas k l s i v c)
        (λ e. c)

  at-circle_step :
      (k l : ℕ) (i : Image)
      → IsCanvas w h i
      → at k l (circle_step x y (pos r) s k l i)
        ≡ (if in_circle x y (pos r) k l then blended w h k l s (at k l i) else at k l i)
  unfolding circle_step
  at-circle_step k l i c = elim (Bool-cases (in_circle x y (pos r) k l)) [
    | inl e ↦ rw e (at-blend k l s i v c)
    | inr e ↦ rw e refl
  ]

  at-circle_step_other :
      (j n k l : ℕ) (i : Image)
      → IsCanvas w h i
      → ((j == k) && (n == l)) ≡ false
      → at k l (circle_step x y (pos r) s j n i) ≡ at k l i
  unfolding circle_step
  at-circle_step_other j n k l i c e =
      if_both (λ a. at k l a ≡ at k l i) (in_circle x y (pos r) j n) _ _
        (λ f. at-blend_other j n k l s i e) (λ f. refl)

-- three nested tests of a change that is none, and of one where the last test implies the others
unchanged :
    (a b d : Bool) (p : Rgba) → (if a then (if b then (if d then p else p) else p) else p) ≡ p
unchanged false b d p = refl
unchanged true false d p = refl
unchanged true true false p = refl
unchanged true true true p = refl

changed :
    (a b d : Bool) (p q : Rgba)
    → (d ≡ true → (a ≡ true) × (b ≡ true))
    → (if a then (if b then (if d then q else p) else p) else p) ≡ (if d then q else p)
changed a b true p q f = let (e, g) = f refl in rw (e, g) refl
changed a b false p q f = unchanged a b false p

-- A pixel of the window after `DrawCircle` with a color and a radius, at coordinates up to 2 ^ 30
-- in either direction and in a window up to 2 ^ 30 wide and high: it is painted over exactly once if
-- it is in the closed disc, and as before if it is not. Nothing outside of the window changes.
pub at-circle :
    {w h : ℕ} (x y : ℤ) (r : ℕ) (c : Color) (i : Image)
    → IsCanvas w h i
    → IsColor c
    → magnitude x ≤ 2 ^ 30
    → magnitude y ≤ 2 ^ 30
    → r ≤ 2 ^ 30
    → w ≤ 2 ^ 30
    → h ≤ 2 ^ 30
    → (k l : ℕ)
    → at k l (circle x y (pos r) c i) ≡ (
        if (ltb k w && ltb l h) && is_near x y r k l
        then painted (color_shade c) (at k l i)
        else at k l i)
unfolding circle
at-circle {w} {h} x y r c i v g hx hy hr hw hh k l =
    let s = color_shade c in
    let z = color_shade-IsShade c g in
    let a = within (first y (pos r)) (count_to (first y (pos r)) (last y (pos r) i.height)) l in
    let b = within (first x (pos r)) (count_to (first x (pos r)) (last x (pos r) i.width)) k in
    at-area (circle_step x y (pos r) s) (circle_step-IsCanvas x y r s z) k l
      (λ p. if in_circle x y (pos r) k l then blended w h k l s p else p)
      (at-circle_step x y r s z k l) (λ j n d u f. at-circle_step_other x y r s z j n k l d u f)
      (first x (pos r)) (count_to (first x (pos r)) (last x (pos r) i.width)) (first y (pos r))
      (count_to (first y (pos r)) (last y (pos r) i.height)) i v
    ∙ elim (Bool-cases (ltb k w && ltb l h)) [
      | inr e ↦ rw e (unchanged a b (in_circle x y (pos r) k l) (at k l i))
      | inl e ↦
          let hk : k < w = ground arith in
          let hl : l < h = ground arith in
          rw (e, in_circle_exact x y r k l hx hy hr (omega arith) (omega arith))
            (changed a b (is_near x y r k l) (at k l i) (painted s (at k l i))
              (rw (v.width_is, v.height_is) (reached x y r w h k l hx hy hr hk hl)))
    ]
