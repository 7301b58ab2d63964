-- ===== src/WindowManager/Server/Coherent.antt =====
-- window-manager/server/server.go: the invariant of the server, and the commands on windows.
use tac_os.Base.{
  ℕ, ◌≡◌, ◌≢◌, refl, Bytes, [], ◌∷◌, Option, none, some, Option-cases, subst, sym, some_inj, inl,
  inr, String,
}
use tac_os.WindowManager.Backend.{Fallible, value, error, Environment, OneWindow, Opens}
use tac_os.WindowManager.Protocol.{Request, Response}
use tac_os.WindowManager.Server.{Server, respond, close_window}
use tac_os.WindowManager.Server.Commands.{
  or_default, config_of, created, call, handle_create, handle_show, handle_close,
}

config_id : (req : Request) → (config_of req).id ≢ []
unfolding config_of
config_id req = go req.window_id
  where
    go : (id : Bytes) → or_default id "map" ≢ []
    go [] e = cc
    go (c ∷ cs) e = cc

module _ {W H : Type 0} (Idle : W → Type 0) (Showing : H → W → Type 0) where
  -- What the server keeps, against what the backend has open.
  abbrev pub Keeps : Option H → Bytes → W → Type 0
  Keeps none id w = (id ≡ []) × Idle w
  Keeps (some h) id w = (id ≢ []) × Showing h w

  abbrev pub IsCoherent : Server W H → Type 0
  IsCoherent s = Keeps s.window s.window_id s.world

module _ {W H : Type 0} {Idle : W → Type 0} {Showing : H → W → Type 0} (env : Environment W H)
    (laws : OneWindow env Idle Showing) where
  pub respond-IsCoherent :
      (conn : ℕ) (r : Response) (s : Server W H)
      → IsCoherent Idle Showing s
      → IsCoherent Idle Showing (respond env conn r s).0
  unfolding respond
  respond-IsCoherent conn r s c = go s.window c
    where
      go :
          (o : Option H)
          → Keeps Idle Showing o s.window_id s.world
          → Keeps Idle Showing o s.window_id (env.write_response conn r s.world).0
      go none (e, i) = (e, laws.write_keeps_idle conn r s.world i)
      go (some h) (e, i) = (e, laws.write_keeps_showing conn r h s.world i)

  -- An operation on the open window, with its answer.
  pub call-IsCoherent :
      (conn : ℕ) (message : String) (run : W → W × Fallible (Unit {0})) (s : Server W H) (h : H)
      → s.window ≡ some h
      → IsCoherent Idle Showing s
      → (Showing h s.world → Showing h (run s.world).0)
      → IsCoherent Idle Showing (call env conn message run s).0
  call-IsCoherent conn message run s h e c k = respond-IsCoherent conn _ _ (go s.window e c)
    where
      go :
          (o : Option H)
          → o ≡ some h
          → Keeps Idle Showing o s.window_id s.world
          → Keeps Idle Showing o s.window_id (run s.world).0
      go none e c = cc
      go (some g) e (named, i) = (
        named,
        subst (λ x. Showing x (run s.world).0) (sym (some_inj e))
            (k (subst (λ x. Showing x s.world) (some_inj e) i)),
      )

  pub showing :
      (s : Server W H) (h : H)
      → s.window ≡ some h
      → IsCoherent Idle Showing s
      → (s.window_id ≢ []) × Showing h s.world
  showing s h e c = subst (λ o. Keeps Idle Showing o s.window_id s.world) e c

  -- After the window was closed nothing is kept and nothing is open.
  pub close_window-IsCoherent :
      (s : Server W H) (h : H)
      → s.window ≡ some h
      → IsCoherent Idle Showing s
      → IsCoherent Idle Showing (close_window env h s).0
  close_window-IsCoherent s h e c = (refl, laws.close_closes h s.world (showing s h e c).1)

  module _ (conn : ℕ) (s : Server W H) (c : IsCoherent Idle Showing s) where
    created-IsCoherent :
        (req : Request) (r : W × Fallible H)
        → s.window ≡ none
        → Opens Idle Showing r
        → IsCoherent Idle Showing (created env conn (config_of req) s r).0
    unfolding created
    created-IsCoherent req (w, value h) e o = respond-IsCoherent conn _ _ (config_id req, o)
    created-IsCoherent req (w, error m) e o =
        respond-IsCoherent conn _ (record s { world = w })
          (subst (λ x. Keeps Idle Showing x s.window_id w) (sym e)
            ((subst (λ x. Keeps Idle Showing x s.window_id s.world) e c).0, o))

    pub handle_create-IsCoherent :
        (req : Request) → IsCoherent Idle Showing (handle_create env conn req s).0
    unfolding handle_create
    handle_create-IsCoherent req = elim (Option-cases s.window) [
      | inl e ↦
          rw (e, handle_create)
            (created-IsCoherent req _ e (
              laws.create_opens (config_of req) s.world
                (subst (λ o. Keeps Idle Showing o s.window_id s.world) e c).1))
      | inr (h, e) ↦ rw (e, handle_create) (respond-IsCoherent conn _ s c)
    ]

    pub handle_show-IsCoherent : IsCoherent Idle Showing (handle_show env conn s).0
    unfolding handle_show
    handle_show-IsCoherent = elim (Option-cases s.window) [
      | inl e ↦ rw (e, handle_show) (respond-IsCoherent conn _ s c)
      | inr (h, e) ↦
          rw (e, handle_show)
            (call-IsCoherent conn "shown" (env.show h) s h e c (laws.show_keeps h s.world))
    ]

    pub handle_close-IsCoherent : IsCoherent Idle Showing (handle_close env conn s).0
    unfolding handle_close
    handle_close-IsCoherent = elim (Option-cases s.window) [
      | inl e ↦ rw (e, handle_close) (respond-IsCoherent conn _ s c)
      | inr (h, e) ↦
          rw (e, handle_close)
            (respond-IsCoherent conn _ (close_window env h s).0 (close_window-IsCoherent s h e c))
    ]
