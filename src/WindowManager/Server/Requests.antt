-- ===== src/WindowManager/Server/Requests.antt =====
-- window-manager/server/server.go: the requests and the invariant.
use tac_os.Base.{
  ℤ, is_positive, not, ◌||◌, ℕ, ◌≡◌, Bool, true, false, Bytes, codes, bytes_eq, [], Option, none,
  some, Option-cases, Bool-cases, inl, inr, if◌then◌else◌,
}
use tac_os.WindowManager.Backend.{Fallible, value, error, Environment, OneWindow}
use tac_os.WindowManager.Protocol.{Color, success, Request, Response}
use tac_os.WindowManager.Server.{Server, respond}
use tac_os.WindowManager.Server.Commands.{
  normalize, stop_with, quit_closed, handle_quit, drawing, begin_frame_on, draw_image_at,
  draw_image_on, draw_circle_at, draw_circle_on, present_on, dispatch, handle_request,
}
use tac_os.WindowManager.Server.Coherent.{
  IsCoherent, respond-IsCoherent, call-IsCoherent, close_window-IsCoherent,
  handle_create-IsCoherent, handle_show-IsCoherent, handle_close-IsCoherent,
}

module _ {W H : Type 0} {Idle : W → Type 0} {Showing : H → W → Type 0} (env : Environment W H)
    (laws : OneWindow env Idle Showing) where
  module _ (conn : ℕ) where
    stop_with-IsCoherent :
        (s : Server W H)
        → IsCoherent Idle Showing s
        → IsCoherent Idle Showing (stop_with env conn s).0
    unfolding stop_with respond
    stop_with-IsCoherent s c = respond-IsCoherent env laws conn (success "stopping") s c

    quit_closed-IsCoherent :
        (s : Server W H) (r : Fallible (Unit {0}))
        → IsCoherent Idle Showing s
        → IsCoherent Idle Showing (quit_closed env conn s r).0
    unfolding quit_closed
    quit_closed-IsCoherent s (error e) c = respond-IsCoherent env laws conn _ s c
    quit_closed-IsCoherent s (value _) c = stop_with-IsCoherent s c

  module _ (conn : ℕ) (s : Server W H) (c : IsCoherent Idle Showing s) where
    handle_quit-IsCoherent : IsCoherent Idle Showing (handle_quit env conn s).0
    unfolding handle_quit
    handle_quit-IsCoherent = elim (Option-cases s.window) [
      | inl e ↦ rw (e, handle_quit) (stop_with-IsCoherent conn s c)
      | inr (h, e) ↦
          rw (e, handle_quit)
            (quit_closed-IsCoherent conn _ _ (close_window-IsCoherent env laws s h e c))
    ]

    drawing-IsCoherent :
        (run : H → Server W H → Server W H × Response)
        → ((h : H) → s.window ≡ some h → IsCoherent Idle Showing (run h s).0)
        → IsCoherent Idle Showing (drawing env conn run s).0
    unfolding drawing
    drawing-IsCoherent run k = elim (Option-cases s.window) [
      | inl e ↦ rw (e, drawing) (respond-IsCoherent env laws conn _ s c)
      | inr (h, e) ↦
          rw (e, drawing)
            (elim (Bool-cases (not (env.is_drawing h))) [
              | inl b ↦ rw b (respond-IsCoherent env laws conn _ s c)
              | inr b ↦ rw b (k h e)
            ])
    ]

    module _ (h : H) (e : s.window ≡ some h) where
      begin_frame_on-IsCoherent :
          (color : Option Color) → IsCoherent Idle Showing (begin_frame_on env conn color h s).0
      unfolding begin_frame_on
      begin_frame_on-IsCoherent none = respond-IsCoherent env laws conn _ s c
      begin_frame_on-IsCoherent (some k) =
          call-IsCoherent env laws conn "frame started" (env.begin_frame h k) s h e c
            (laws.begin_frame_keeps h k s.world)

      draw_image_at-IsCoherent :
          (req : Request) (x y : Option ℤ)
          → IsCoherent Idle Showing (draw_image_at env conn req x y h s).0
      unfolding draw_image_at
      draw_image_at-IsCoherent req (some x) (some y) =
          elim (Bool-cases (
            bytes_eq req.image_path []
            || not (is_positive req.width)
            || not (is_positive req.height))) [
              | inl b ↦ rw b (respond-IsCoherent env laws conn _ s c)
              | inr b ↦ rw b (
                  call-IsCoherent env laws conn "image drawn"
                    (env.draw_image h req.image_path x y req.width req.height) s h e c
                    (laws.draw_image_keeps h req.image_path x y req.width req.height s.world))
            ]
      draw_image_at-IsCoherent req x y = respond-IsCoherent env laws conn _ s c

      draw_circle_at-IsCoherent :
          (req : Request) (x y : Option ℤ) (color : Option Color)
          → IsCoherent Idle Showing (draw_circle_at env conn req x y color h s).0
      unfolding draw_circle_at
      draw_circle_at-IsCoherent req (some x) (some y) (some k) =
          elim (Bool-cases (not (is_positive req.radius))) [
            | inl b ↦ rw b (respond-IsCoherent env laws conn _ s c)
            | inr b ↦ rw b (
                call-IsCoherent env laws conn "circle drawn" (env.draw_circle h x y req.radius k) s
                  h e c (laws.draw_circle_keeps h x y req.radius k s.world))
          ]
      draw_circle_at-IsCoherent req x y color = respond-IsCoherent env laws conn _ s c

    branch :
        (b : Bool) (p q : Server W H × Response)
        → IsCoherent Idle Showing p.0
        → IsCoherent Idle Showing q.0
        → IsCoherent Idle Showing (if b then p else q).0
    branch true p q hp hq = hp
    branch false p q hp hq = hq

    dispatch-IsCoherent :
        (cmd : Bytes) (req : Request) → IsCoherent Idle Showing (dispatch env conn cmd req s).0
    unfolding dispatch draw_image_on draw_circle_on present_on
    dispatch-IsCoherent cmd req =
        branch (bytes_eq cmd (codes "CREATE")) _ _ (handle_create-IsCoherent env laws conn s c req)
          (branch (bytes_eq cmd (codes "SHOW")) _ _ (handle_show-IsCoherent env laws conn s c) (
            branch (bytes_eq cmd (codes "CLOSE")) _ _ (handle_close-IsCoherent env laws conn s c) (
              branch (bytes_eq cmd (codes "QUIT")) _ _ handle_quit-IsCoherent (
                branch (bytes_eq cmd (codes "BEGIN_FRAME")) _ _
                  (drawing-IsCoherent (begin_frame_on env conn req.color)
                    (λ h e. begin_frame_on-IsCoherent h e req.color))
                  (branch (bytes_eq cmd (codes "DRAW_IMAGE")) _ _
                    (drawing-IsCoherent (draw_image_on env conn req)
                      (λ h e. draw_image_at-IsCoherent h e req req.x req.y))
                    (branch (bytes_eq cmd (codes "DRAW_CIRCLE")) _ _
                      (drawing-IsCoherent (draw_circle_on env conn req)
                        (λ h e. draw_circle_at-IsCoherent h e req req.x req.y req.color))
                      (branch (bytes_eq cmd (codes "PRESENT")) _ _
                        (drawing-IsCoherent (present_on env conn) (λ h e.
                          call-IsCoherent env laws conn "frame presented" (env.present h) s h e c
                            (laws.present_keeps h s.world)))
                        (respond-IsCoherent env laws conn _ s c))))))))

    pub handle_request-IsCoherent :
        (r : Fallible Request) → IsCoherent Idle Showing (handle_request env conn r s).0
    unfolding handle_request
    handle_request-IsCoherent (error m) = respond-IsCoherent env laws conn _ s c
    handle_request-IsCoherent (value req) = dispatch-IsCoherent (normalize req.command) req
