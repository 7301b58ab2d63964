-- ===== src/WindowManager/Headless/Contract.antt =====
-- window-manager/backend/headless: the backend and the contract of one window.
use tac_os.Base.{
  ◌==◌, ==→≡, sym, subst, ap, arith, Option, ℕ, zero, suc, ◌≡◌, refl, ◌∙◌, ℤ, is_positive,
  if◌then◌else◌, Bool, true, false, not, ◌||◌, Bool-cases, inl, inr, Bytes, bytes_eq, List, [], ◌∷◌,
  ◌++◌, length, get_elem?, set, none, some,
}
use tac_os.WindowManager.Backend.{WindowConfig, Fallible, value, error, OneWindow, Opens}
use tac_os.WindowManager.Headless.{
  Canvas, Window, Headless, open_window, is_open, written, apply, with_back, method, close_at,
  create, draw_image, draw_circle, headless,
}
use tac_os.WindowManager.Protocol.{Color, Response}

get_elem?-set_same :
    {A : Type 0} (xs : List A) (h : ℕ) (u v : A)
    → get_elem? xs h ≡ some u
    → get_elem? (set xs h v) h ≡ some v
get_elem?-set_same [] h u v e = cc
get_elem?-set_same (x ∷ xs) zero u v e = refl
get_elem?-set_same (x ∷ xs) (suc h) u v e = get_elem?-set_same xs h u v e

get_elem?-last : {A : Type 0} (xs : List A) (v : A) → get_elem? (xs ++ v ∷ []) (length xs) ≡ some v
get_elem?-last [] v = refl
get_elem?-last (x ∷ xs) v = get_elem?-last xs v

get_elem?-set_other :
    {A : Type 0} (xs : List A) (h j : ℕ) (v : A)
    → j == h ≡ false
    → get_elem? (set xs h v) j ≡ get_elem? xs j
get_elem?-set_other [] h j v e = refl
get_elem?-set_other (x ∷ xs) zero zero v e = cc
get_elem?-set_other (x ∷ xs) zero (suc j) v e = refl
get_elem?-set_other (x ∷ xs) (suc h) zero v e = refl
get_elem?-set_other (x ∷ xs) (suc h) (suc j) v e = get_elem?-set_other xs h j v (ground arith)

get_elem?-before_last :
    {A : Type 0} (xs : List A) (j : ℕ) (v : A)
    → j == length xs ≡ false
    → get_elem? (xs ++ v ∷ []) j ≡ get_elem? xs j
get_elem?-before_last [] zero v e = cc
get_elem?-before_last [] (suc j) v e = refl
get_elem?-before_last (x ∷ xs) zero v e = refl
get_elem?-before_last (x ∷ xs) (suc j) v e = get_elem?-before_last xs j v (ground arith)

module _ {P : Type 0} where
  -- Every window that was ever made is closed.
  abbrev pub IsIdle : Headless P → Type 0
  IsIdle b = (j : ℕ) → open_window (get_elem? b.windows j) ≡ false

  -- The window exists and is not closed, it is the one that the backend keeps, and every other window
  -- that was ever made is closed.
  pub record IsShowing (h : ℕ) (b : Headless P) : Type 0 where
    pub is_current : b.current ≡ some h
    pub window : Window P
    pub there : get_elem? b.windows h ≡ some window
    pub not_closed : window.closed ≡ false
    pub others_closed : (j : ℕ) → j == h ≡ false → open_window (get_elem? b.windows j) ≡ false

  -- The function does not close windows.
  abbrev KeepsOpen : (Window P → Fallible (Window P)) → Type 0
  KeepsOpen f = (w v : Window P) → f w ≡ value v → v.closed ≡ w.closed

  written-IsShowing :
      (h : ℕ) (b : Headless P) (r : Fallible (Window P))
      → IsShowing h b
      → ((v : Window P) → r ≡ value v → v.closed ≡ false)
      → IsShowing h (written h b r).0
  unfolding written
  written-IsShowing h b (error e) s k = s
  written-IsShowing h b (value v) s k = record {
    is_current = s.is_current;
    window = v;
    there = get_elem?-set_same b.windows h s.window v s.there;
    not_closed = k v refl;
    others_closed =
        λ j e. ap open_window (get_elem?-set_other b.windows h j v e) ∙ s.others_closed j e;
  }

  if-IsShowing :
      (h : ℕ) (c : Bool) (x y : Headless P × Fallible (Unit {0}))
      → c ≡ false
      → IsShowing h y.0
      → IsShowing h (if c then x else y).0
  if-IsShowing h true x y e s = cc
  if-IsShowing h false x y e s = s

  method-IsShowing :
      (h : ℕ) (f : Window P → Fallible (Window P)) (b : Headless P)
      → KeepsOpen f
      → IsShowing h b
      → IsShowing h (method h f b).0
  unfolding apply
  method-IsShowing h f b k s = rw s.there (
      if-IsShowing h s.window.closed _ _ s.not_closed
        (written-IsShowing h b (f s.window) s (λ v e. k s.window v e ∙ s.not_closed)))

  close_at-IsIdle :
      (h : ℕ) (b : Headless P) → IsShowing h b → IsIdle (close_at h b (get_elem? b.windows h)).0
  unfolding close_at
  close_at-IsIdle h b s =
      let w = record s.window { closed = true; visible = false } in
      rw s.there (λ j. elim (Bool-cases (j == h)) [
        | inl e ↦
            subst (λ i. open_window (get_elem? (set b.windows h w) i) ≡ false) (sym (==→≡ j h e))
              (ap open_window (get_elem?-set_same b.windows h s.window w s.there)
                ∙ (unfold open_window in refl))
        | inr e ↦ ap open_window (get_elem?-set_other b.windows h j w e) ∙ s.others_closed j e
      ])

  idle_is_open :
      (current : Option ℕ) (windows : List (Window P))
      → ((j : ℕ) → open_window (get_elem? windows j) ≡ false)
      → is_open current windows ≡ false
  unfolding is_open
  idle_is_open none windows i = refl
  idle_is_open (some h) windows i = i h

module _ {P : Type 0} (canvas : Canvas P) where
  create-Opens :
      (cfg : WindowConfig) (b : Headless P)
      → IsIdle b
      → Opens IsIdle IsShowing (create canvas cfg b)
  unfolding create
  create-Opens cfg b i = rw (idle_is_open b.current b.windows i) (record {
    is_current = refl;
    window = _;
    there = get_elem?-last b.windows _;
    not_closed = refl;
    others_closed = λ j e. ap open_window (get_elem?-before_last b.windows j _ e) ∙ i j;
  })

  showing_is_open : (h : ℕ) (b : Headless P) → IsShowing h b → is_open b.current b.windows ≡ true
  unfolding is_open open_window
  showing_is_open h b s = rw (s.is_current, s.there, s.not_closed) refl

  create-refuses :
      (cfg : WindowConfig) (h : ℕ) (b : Headless P)
      → IsShowing h b
      → ((e : Bytes) × ((create canvas cfg b).1 ≡ error e)) × IsShowing h (create canvas cfg b).0
  unfolding create
  create-refuses cfg h b s = rw (showing_is_open h b s) ((_, refl), s)

  draw_circle-KeepsOpen : (x y radius : ℤ) (c : Color) → KeepsOpen (draw_circle canvas x y radius c)
  draw_circle-KeepsOpen x y radius c w v = elim (Bool-cases (is_positive radius)) [
    | inl e ↦ rw e (λ h. cc)
    | inr e ↦ rw e (λ h. cc)
  ]

  with_back-KeepsOpen :
      (w v : Window P) (r : Fallible P) → with_back w r ≡ value v → v.closed ≡ w.closed
  with_back-KeepsOpen w v (error e) h = cc
  with_back-KeepsOpen w v (value p) h = cc

  draw_image-KeepsOpen :
      (path : Bytes) (x y width height : ℤ) → KeepsOpen (draw_image canvas path x y width height)
  draw_image-KeepsOpen path x y width height w v =
      elim (Bool-cases (bytes_eq path [] || not (is_positive width) || not (is_positive height))) [
        | inl e ↦ rw e (λ h. cc)
        | inr e ↦ rw e (with_back-KeepsOpen w v _)
      ]

  pub headless-OneWindow :
      (sent : ℕ → Response → Bool) → OneWindow (headless canvas sent) IsIdle IsShowing
  headless-OneWindow sent = record {
    create_opens = create-Opens;
    create_refuses = create-refuses;
    close_closes = λ h b. close_at-IsIdle h b;
    show_keeps = λ h b. method-IsShowing h _ b (λ w v e. cc);
    poll_keeps = λ h b s. s;
    begin_frame_keeps = λ h c b. method-IsShowing h _ b (λ w v e. cc);
    draw_image_keeps = λ h path x y width height b.
        method-IsShowing h _ b (draw_image-KeepsOpen path x y width height);
    draw_circle_keeps =
        λ h x y radius c b. method-IsShowing h _ b (draw_circle-KeepsOpen x y radius c);
    present_keeps = λ h b. method-IsShowing h _ b (λ w v e. cc);
    write_keeps_idle = λ conn r b i. i;
    write_keeps_showing = λ conn r h b s. s;
  }
