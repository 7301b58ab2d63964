-- ===== src/WindowManager/Headless/Pixels/Shown.antt =====
-- window-manager/backend/headless/headless.go: the two images of a window, after any drawing.
use tac_os.Base.{
  ℕ, ◌≡◌, refl, subst, ◌==◌, ◌||◌, not, Bool, true, false, if◌then◌else◌, if_both, ℤ, Bytes,
  is_positive, bytes_eq, [], from_zero,
}
use tac_os.WindowManager.Backend.{Fallible, value, error}
use tac_os.WindowManager.Protocol.{Color}
use tac_os.WindowManager.Headless.{Window, with_back, draw_image, draw_circle}
use tac_os.WindowManager.Headless.Blend.{color_shade, stored}
use tac_os.WindowManager.Headless.Blend.Exact.{IsColor, color_shade-IsShade, stored-IsPremultiplied}
use tac_os.WindowManager.Headless.Pixels.{
  Image, Picture, new_rgba, put, fill, circle, circle_step, in_circle, picture_step, draw_picture,
  decoded, pixels, start, extent,
}
use tac_os.WindowManager.Headless.Pixels.Drawn.{
  IsCanvas, blend-IsCanvas, put-IsCanvas, area-IsCanvas, transparent-IsPremultiplied,
}
use tac_os.WindowManager.Headless.Pixels.Scaled.{IsPicture}

fill-IsCanvas :
    {w h : ℕ} (c : Color) (i : Image) → IsColor c → IsCanvas w h i → IsCanvas w h (fill c i)
unfolding fill
fill-IsCanvas c i g =
    area-IsCanvas (λ x y. put x y (stored (color_shade c)))
      (λ x y j.
        put-IsCanvas x y (stored (color_shade c)) j
          (stored-IsPremultiplied (color_shade c) (color_shade-IsShade c g)))
      _ _ _ _ i

circle-IsCanvas :
    {w h : ℕ} (x y radius : ℤ) (c : Color) (i : Image)
    → IsColor c
    → IsCanvas w h i
    → IsCanvas w h (circle x y radius c i)
unfolding circle circle_step
circle-IsCanvas x y radius c i g =
    area-IsCanvas (circle_step x y radius (color_shade c))
      (λ k l j v.
        if_both (IsCanvas _ _) (in_circle x y radius k l) _ _
          (λ e. blend-IsCanvas k l (color_shade c) j (color_shade-IsShade c g) v) (λ e. v))
      _ _ _ _ i

draw_picture-IsCanvas :
    {w h : ℕ} (x y width height : ℤ) (p : Picture) (i : Image)
    → IsPicture p
    → IsCanvas w h i
    → IsCanvas w h (draw_picture x y width height p i)
unfolding draw_picture picture_step
draw_picture-IsCanvas x y width height p i g v =
    let n = extent x width i.width in
    let m = extent y height i.height in
    if_both (IsCanvas _ _) ((n == 0) || (m == 0)) i _ (λ e. v)
      (λ e.
        area-IsCanvas (picture_step p x y width height)
          (λ k l j d. blend-IsCanvas k l _ j (g _ _) d) (start x width) n (start y height) m i v)

-- every file that opens holds an image with premultiplied colors
abbrev pub Decodes : (Bytes → Fallible Picture) → Type 0
Decodes decode = (path : Bytes) (p : Picture) → decode path ≡ value p → IsPicture p

pub record IsShown (w h : ℕ) (d : Window Image) : Type 0 where
  pub back_is : IsCanvas w h d.back
  pub front_is : IsCanvas w h d.front

value_path : {A : Type 0} {a b : A} → value a ≡ value b → a ≡ b
value_path q = cc

new_rgba-IsCanvas :
    (width height : ℤ) → IsCanvas (from_zero width) (from_zero height) (new_rgba width height)
new_rgba-IsCanvas width height = record {
  width_is = refl;
  height_is = refl;
  all_premultiplied = λ x y. transparent-IsPremultiplied;
}

module _ (decode : Bytes → Fallible Picture) where
  -- A method that draws, and returns no error.
  pub data Draws : Window Image → Window Image → Type 0 where
    begin_frame :
        {d : Window Image} (c : Color) → IsColor c → Draws d (record d { back = fill c d.back })
    image :
        {d e : Window Image} (path : Bytes) (x y width height : ℤ)
        → draw_image (pixels decode) path x y width height d ≡ value e
        → Draws d e
    disc :
        {d e : Window Image} (x y radius : ℤ) (c : Color)
        → IsColor c
        → draw_circle (pixels decode) x y radius c d ≡ value e
        → Draws d e
    present : {d : Window Image} → Draws d (record d { front = d.back })

  pub data Drawn : Window Image → Window Image → Type 0 where
    here : {d : Window Image} → Drawn d d
    next : {d e f : Window Image} → Drawn d e → Draws e f → Drawn d f

  with_back-IsShown :
      {w h : ℕ} (d e : Window Image) (r : Fallible Image)
      → IsShown w h d
      → ((i : Image) → r ≡ value i → IsCanvas w h i)
      → with_back d r ≡ value e
      → IsShown w h e
  with_back-IsShown d e (error t) v k q = cc
  with_back-IsShown d e (value i) v k q =
      subst (IsShown _ _) (value_path q) (record { back_is = k i refl; front_is = v.front_is })

  decoded-IsCanvas :
      {w h : ℕ} (x y width height : ℤ) (i j : Image) (r : Fallible Picture)
      → ((p : Picture) → r ≡ value p → IsPicture p)
      → IsCanvas w h i
      → decoded x y width height i r ≡ value j
      → IsCanvas w h j
  unfolding decoded
  decoded-IsCanvas x y width height i j (error t) g v q = cc
  decoded-IsCanvas x y width height i j (value p) g v q =
      subst (IsCanvas _ _) (value_path q) (draw_picture-IsCanvas x y width height p i (g p refl) v)

  -- A method with a test that gives an error has passed it where it returns a window.
  drawn_if :
      {w h : ℕ} (b : Bool) (t : Bytes) (r : Fallible (Window Image)) (e : Window Image)
      → (r ≡ value e → IsShown w h e)
      → (if b then error t else r) ≡ value e
      → IsShown w h e
  drawn_if true t r e k q = cc
  drawn_if false t r e k q = k q

  Draws-IsShown :
      {w h : ℕ} {d e : Window Image} → Decodes decode → IsShown w h d → Draws d e → IsShown w h e
  Draws-IsShown g v (begin_frame c color) = record {
    back_is = fill-IsCanvas c _ color v.back_is;
    front_is = v.front_is;
  }
  Draws-IsShown g v (image path x y width height q) =
      drawn_if (bytes_eq path [] || not (is_positive width) || not (is_positive height)) _ _ _
        (with_back-IsShown _ _ _ v
          (λ i. decoded-IsCanvas x y width height _ i (decode path) (g path) v.back_is))
        q
  Draws-IsShown g v (disc x y radius c color q) =
      drawn_if (not (is_positive radius)) _ _ _
        (with_back-IsShown _ _ (value (circle x y radius c _)) v (λ i f.
          subst (IsCanvas _ _) (value_path f) (circle-IsCanvas x y radius c _ color v.back_is)))
        q
  Draws-IsShown g v present = record { back_is = v.back_is; front_is = v.back_is }

  -- After any drawing in a new window, with any arguments and with files that hold images with
  -- premultiplied colors, both images of the window have its size and only premultiplied pixels.
  pub Drawn-IsShown :
      (width height : ℤ) {d : Window Image}
      → Decodes decode
      → Drawn
          (record {
            visible = false;
            closed = false;
            back = new_rgba width height;
            front = new_rgba width height;
          })
          d
      → IsShown (from_zero width) (from_zero height) d
  Drawn-IsShown width height g drawn = all g drawn (record {
    back_is = new_rgba-IsCanvas width height;
    front_is = new_rgba-IsCanvas width height;
  })
    where
      all :
          {w h : ℕ} {d e : Window Image}
          → Decodes decode
          → Drawn d e
          → IsShown w h d
          → IsShown w h e
      all g here v = v
      all g (next before step) v = Draws-IsShown g (all g before v) step
