-- ===== src/TacticalMap/Drawn.antt =====
-- app/map at window-manager/backend/headless: the headless backend draws what the map sends.
use tac_os.Base.{ℕ, ◌≡◌, refl, ℤ, Bool, false, Bytes, bytes_eq, []}
use tac_os.TacticalMap.Served.{Draws}
use tac_os.WindowManager.Backend.{Fallible, value}
use tac_os.WindowManager.Headless.{
  Canvas, Window, Headless, written, apply, method, with_back, draw_image, draw_circle, headless,
}
use tac_os.WindowManager.Headless.Contract.{IsShowing, headless-OneWindow}
use tac_os.WindowManager.Protocol.{Response}

module _ {P : Type 0} where
  -- A method of the open window that gives a window succeeds.
  method-value :
      (h : ℕ) (f : Window P → Fallible (Window P)) (v : Window P) (b : Headless P)
      (s : IsShowing h b)
      → f s.window ≡ value v
      → (method h f b).1 ≡ value tt
  unfolding apply written
  method-value h f v b s e = rw (s.there, e, s.not_closed) refl

  with_back-value :
      (w : Window P) (r : Fallible P) {p : P}
      → r ≡ value p
      → with_back w r ≡ value (record w { back = p })
  with_back-value w r e = rw e refl

-- the file at the path opens and decodes
abbrev pub Opens : {P : Type 0} → Canvas P → Bytes → Type 0
Opens {P} canvas path =
    (x y width height : ℤ) (p : P) → (q : P) × (canvas.image path x y width height p ≡ value q)

module _ {P : Type 0} (canvas : Canvas P) (sent : ℕ → Response → Bool) (h : ℕ) (path : Bytes) where
  -- The open window of the headless backend draws each valid command, with a file that decodes.
  pub headless-Draws :
      bytes_eq path [] ≡ false
      → Opens canvas path
      → Draws (headless canvas sent) h path (IsShowing h)
  headless-Draws named opens =
      let laws = headless-OneWindow canvas sent in
      record {
        is_drawing = refl;
        begins = λ c b s. (
          method-value h (λ w. value (record w { back = canvas.fill c w.back }))
              (record s.window { back = canvas.fill c s.window.back }) b s refl,
          laws.begin_frame_keeps h c b s,
        );
        draws_image = λ x y width height b wide high s.
            let (q, e) = opens x y width height s.window.back in
            (
              method-value h (draw_image canvas path x y width height)
                  (record s.window { back = q }) b s
                  (rw (named, wide, high) (with_back-value s.window _ e)),
              laws.draw_image_keeps h path x y width height b s,
            );
        draws_circle = λ x y radius c b more s. (
          method-value h (draw_circle canvas x y radius c)
              (record s.window { back = canvas.circle x y radius c s.window.back }) b s
              (rw more refl),
          laws.draw_circle_keeps h x y radius c b s,
        );
        presents = λ b s. (
          method-value h (λ w. value (record w { front = w.back }))
              (record s.window { front = s.window.back }) b s refl,
          laws.present_keeps h b s,
        );
        write_keeps = λ conn r b s. s;
      }
