-- ===== src/WindowManager/Headless.antt =====
-- window-manager/backend/headless: `Backend` and its windows. A window value is an index into the
-- windows made so far. `Canvas` is what its methods do to the pixels of an image, which is modelled in
-- Pixels with the decoding of files as a parameter.
pub mod Contract
pub mod Blend
pub mod Pixels
use tac_os.Base.{
  ℕ, ℤ, pos, is_positive, if◌then◌else◌, Bool, true, false, not, ◌||◌, Bytes, codes, bytes_eq, List,
  [], ◌∷◌, ◌++◌, length, get_elem?, set, Option, none, some,
}
use tac_os.WindowManager.Backend.{WindowConfig, Fallible, value, error, Environment}
use tac_os.WindowManager.Protocol.{Color, Response}

pub record Canvas (P : Type 0) : Type 0 where
  pub blank : ℤ → ℤ → P
  pub fill : Color → P → P
  pub image : Bytes → ℤ → ℤ → ℤ → ℤ → P → Fallible P
  pub circle : ℤ → ℤ → ℤ → Color → P → P

pub record Window (P : Type 0) : Type 0 where
  pub visible : Bool
  pub closed : Bool
  pub back : P
  pub front : P

pub record Headless (P : Type 0) : Type 0 where
  pub windows : List (Window P)
  -- `b.w`
  pub current : Option ℕ

abbrev pub window_closed : Bytes
window_closed = codes "window is closed"

-- `if n <= 0 { n = fallback }`
abbrev pub positive_or : ℤ → ℕ → ℤ
positive_or n fallback = if is_positive n then n else pos fallback

module _ {P : Type 0} where
  unfoldable pub open_window : Option (Window P) → Bool
  open_window none = false
  open_window (some w) = not w.closed

  -- `b.w != nil && !b.w.closed`
  unfoldable pub is_open : Option ℕ → List (Window P) → Bool
  unfolding open_window
  is_open none windows = false
  is_open (some h) windows = open_window (get_elem? windows h)

  unfoldable pub written : ℕ → Headless P → Fallible (Window P) → Headless P × Fallible (Unit {0})
  written h b (error e) = (b, error e)
  written h b (value v) = (record b { windows = set b.windows h v }, value tt)

  -- a method that writes to the window `h`, an error if it is closed
  unfoldable pub apply :
      ℕ
      → (Window P → Fallible (Window P))
      → Headless P
      → Option (Window P)
      → Headless P × Fallible (Unit {0})
  apply h f b none = (b, error window_closed)
  apply h f b (some w) = if w.closed then (b, error window_closed) else written h b (f w)

  abbrev pub method :
      ℕ → (Window P → Fallible (Window P)) → Headless P → Headless P × Fallible (Unit {0})
  method h f b = apply h f b (get_elem? b.windows h)

  -- `Close` of any window; it never fails
  unfoldable pub close_at : ℕ → Headless P → Option (Window P) → Headless P × Fallible (Unit {0})
  close_at h b none = (b, value tt)
  close_at h b (some w) = (
    record b { windows = set b.windows h (record w { closed = true; visible = false }) },
    value tt,
  )

  abbrev pub with_back : Window P → Fallible P → Fallible (Window P)
  with_back w (error e) = error e
  with_back w (value p) = value (record w { back = p })

module _ {P : Type 0} (canvas : Canvas P) where
  unfoldable pub create : WindowConfig → Headless P → Headless P × Fallible ℕ
  unfolding is_open
  create cfg b =
      let p = canvas.blank (positive_or cfg.width 960) (positive_or cfg.height 640) in
      let w : Window P = record { visible = false; closed = false; back = p; front = p } in
      if is_open b.current b.windows then (b, error (codes "a window already exists")) else (
        record { windows = b.windows ++ w ∷ []; current = some (length b.windows) },
        value (length b.windows),
      )

  abbrev pub draw_image : Bytes → ℤ → ℤ → ℤ → ℤ → Window P → Fallible (Window P)
  draw_image path x y width height w =
      if bytes_eq path [] || not (is_positive width) || not (is_positive height)
      then error (codes "invalid image parameters")
      else with_back w (canvas.image path x y width height w.back)

  abbrev pub draw_circle : ℤ → ℤ → ℤ → Color → Window P → Fallible (Window P)
  draw_circle x y radius c w =
      if not (is_positive radius)
      then error (codes "radius must be positive")
      else value (record w { back = canvas.circle x y radius c w.back })

  -- the backend, with connections where a write succeeds if `sent` says so
  abbrev pub headless : (ℕ → Response → Bool) → Environment (Headless P) ℕ
  headless sent = record {
    create = create;
    show = λ h. method h (λ w. value (record w { visible = true }));
    close = λ h b. close_at h b (get_elem? b.windows h);
    poll_events = λ h b. (b, value []);
    is_drawing = λ h. true;
    begin_frame = λ h c. method h (λ w. value (record w { back = canvas.fill c w.back }));
    draw_image = λ h path x y width height. method h (draw_image path x y width height);
    draw_circle = λ h x y radius c. method h (draw_circle x y radius c);
    present = λ h. method h (λ w. value (record w { front = w.back }));
    write_response = λ conn r b. (b, sent conn r);
  }
