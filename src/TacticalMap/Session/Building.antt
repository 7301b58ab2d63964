-- ===== src/TacticalMap/Session/Building.antt =====
-- app/map/session.go: the targets of a session, and its frames.
use tac_os.Base.{
  ◌≡◌, refl, if◌then◌else◌, if_both, Bool, true, false, ◌&&◌, bytes_eq, codes, Bytes, List, [], ◌∷◌,
  All, none,
}
use tac_os.TacticalMap.Config.{Geo, Config, Target, validate}
use tac_os.TacticalMap.Frame.{Command, Marker, Built, build_frame}
use tac_os.TacticalMap.Frame.Total.{IsShowable, IsBuilt, build_frame-IsBuilt}
use tac_os.TacticalMap.Session.{
  Sending, accepted, rejected, send_failed, Late, window_closed, other_event, cancelled, timed_out,
  Client, Event, context_done, window_event, stream_error, target_update, no_change, SessionError,
  frame_error, subscribe_error, stream_failed, send_error, Finish, finished, failed_with, waiting,
  Session, Round, go_on, returns, upsert, send_all, on_late, on_rejected, on_redrawn, on_rebuilt,
  cleanup, on_event, after_round, event_loop, on_shown, on_drawn, in_window, on_created,
  on_subscribed, on_first_frame, run_map,
}
use tac_os.TacticalMap.Session.Targets.{IsUnique, upsert-IsUnique, All-upsert, unique-AreDistinct}

abbrev pub is_frame_error : Finish → Bool
is_frame_error (failed_with (frame_error e)) = true
is_frame_error (failed_with subscribe_error) = false
is_frame_error (failed_with stream_failed) = false
is_frame_error (failed_with (send_error s)) = false
is_frame_error finished = false
is_frame_error waiting = false

module _ {F : Type 0} ⦃geo : Geo F⦄ where
  -- Targets that a frame can be made of.
  pub record AreShown (ts : List (Target F)) : Type 0 where
    pub unique : IsUnique ts
    pub showable : All IsShowable ts

  upsert-AreShown :
      (t : Target F) (ts : List (Target F)) → IsShowable t → AreShown ts → AreShown (upsert t ts)
  upsert-AreShown t ts h a = record {
    unique = upsert-IsUnique t ts a.unique;
    showable = All-upsert IsShowable t ts h a.showable;
  }

  abbrev pub IsGoodEvent : Event F → Type 0
  IsGoodEvent (target_update t) = IsShowable t
  IsGoodEvent context_done = Unit
  IsGoodEvent (window_event event id) = Unit
  IsGoodEvent stream_error = Unit
  IsGoodEvent no_change = Unit

module _ {F W : Type 0} ⦃geo : Geo F⦄ where
  -- The targets can be shown, and `BuildFrame` was not the reason to return.
  pub record IsSteady (r : Session F W × Finish) : Type 0 where
    pub shown : AreShown r.0.targets
    pub no_frame_error : is_frame_error r.1 ≡ false

  abbrev IsSteadyRound : Round F W → Type 0
  IsSteadyRound (go_on s) = AreShown s.targets
  IsSteadyRound (returns s result) = IsSteady (s, result)

module _ {F W : Type 0} ⦃geo : Geo F⦄ (client : Client W) (cfg : Config F)
    (valid : validate cfg ≡ none) where
  steady :
      (s : Session F W) (result : Finish)
      → is_frame_error result ≡ false
      → AreShown s.targets
      → IsSteady (s, result)
  steady s result h a = record { shown = a; no_frame_error = h }

  cancelled_or :
      (b : Bool) (e : SessionError)
      → is_frame_error (failed_with e) ≡ false
      → is_frame_error (if b then finished else failed_with e) ≡ false
  cancelled_or true e h = refl
  cancelled_or false e h = h

  on_late-IsSteady :
      (message : Bytes) (s : Session F W) (p : W × Late)
      → AreShown s.targets
      → IsSteadyRound (on_late client message s p)
  unfolding on_late
  on_late-IsSteady message s (w, window_closed) a = steady _ finished refl a
  on_late-IsSteady message s (w, cancelled) a = steady _ finished refl a
  on_late-IsSteady message s (w, other_event) a = steady _ (failed_with _) refl a
  on_late-IsSteady message s (w, timed_out) a = steady _ (failed_with _) refl a

  on_rejected-IsSteady :
      (message : Bytes) (s : Session F W)
      → AreShown s.targets
      → IsSteadyRound (on_rejected client message s)
  unfolding on_rejected
  on_rejected-IsSteady message s a =
      if_both IsSteadyRound (client.is_cancelled s.world) _ _ (λ e. steady s finished refl a)
        (λ e.
          if_both IsSteadyRound (bytes_eq message (codes "no window; send CREATE first")) _ _
            (λ f. on_late-IsSteady message s (client.await_event s.world) a)
            (λ f. steady s (failed_with _) refl a))

  on_redrawn-IsSteady :
      (s : Session F W) (p : W × Sending)
      → AreShown s.targets
      → IsSteadyRound (on_redrawn client s p)
  unfolding on_redrawn
  on_redrawn-IsSteady s (w, accepted) a = a
  on_redrawn-IsSteady s (w, rejected message) a =
      on_rejected-IsSteady message (record s { world = w }) a
  on_redrawn-IsSteady s (w, send_failed) a =
      steady _ _ (cancelled_or (client.is_cancelled w) (send_error send_failed) refl) a

  on_rebuilt-IsSteady :
      (s : Session F W) {r : Built (List Command × List (Marker F))}
      → IsBuilt r
      → AreShown s.targets
      → IsSteadyRound (on_rebuilt client s r)
  unfolding on_rebuilt
  on_rebuilt-IsSteady s ((cs, ms), e) a =
      rw e (on_redrawn-IsSteady s (send_all client cs s.world) a)

  frame_made : (ts : List (Target F)) → AreShown ts → IsBuilt (build_frame cfg ts)
  frame_made ts a = build_frame-IsBuilt cfg ts valid a.showable (unique-AreDistinct ts a.unique)

  on_event-IsSteady :
      (e : Event F) (s : Session F W)
      → IsGoodEvent e
      → AreShown s.targets
      → IsSteadyRound (on_event client cfg e s)
  unfolding on_event
  on_event-IsSteady context_done s g a = steady s finished refl a
  on_event-IsSteady stream_error s g a =
      steady s _ (cancelled_or (client.is_cancelled s.world) stream_failed refl) a
  on_event-IsSteady (window_event event id) s g a =
      if_both IsSteadyRound (bytes_eq event (codes "window_close") && bytes_eq id (codes "map")) _ _
        (λ e. steady _ finished refl a) (λ e. a)
  on_event-IsSteady (target_update t) s g a =
      let ts = upsert-AreShown t s.targets g a in
      on_rebuilt-IsSteady (record s { targets = upsert t s.targets })
        (frame_made (upsert t s.targets) ts) ts
  on_event-IsSteady no_change s g a = a

  after_round-IsSteady :
      (loop : Session F W → Session F W × Finish) (r : Round F W)
      → IsSteadyRound r
      → ((s : Session F W) → AreShown s.targets → IsSteady (loop s))
      → IsSteady (after_round client cfg loop r)
  unfolding after_round
  after_round-IsSteady loop (go_on s) a h = h s a
  after_round-IsSteady loop (returns s result) a h = a

  event_loop-IsSteady :
      (events : List (Event F)) (s : Session F W)
      → All IsGoodEvent events
      → AreShown s.targets
      → IsSteady (event_loop client cfg events s)
  unfolding event_loop
  event_loop-IsSteady [] s g a = steady s waiting refl a
  event_loop-IsSteady (e ∷ events) s (g, gs) a =
      after_round-IsSteady (event_loop client cfg events) (on_event client cfg e s)
        (on_event-IsSteady e s g a) (λ t b. event_loop-IsSteady events t gs b)

  on_shown-IsSteady :
      (events : List (Event F)) (s : Session F W) (p : W × Sending)
      → All IsGoodEvent events
      → AreShown s.targets
      → IsSteady (on_shown client cfg events s p)
  unfolding on_shown
  on_shown-IsSteady events s (w, accepted) g a =
      event_loop-IsSteady events (record s { world = w }) g a
  on_shown-IsSteady events s (w, rejected message) g a = steady _ _ refl a
  on_shown-IsSteady events s (w, send_failed) g a = steady _ _ refl a

  on_drawn-IsSteady :
      (events : List (Event F)) (s : Session F W) (p : W × Sending)
      → All IsGoodEvent events
      → AreShown s.targets
      → IsSteady (on_drawn client cfg events s p)
  unfolding on_drawn
  on_drawn-IsSteady events s (w, accepted) g a = on_shown-IsSteady events s _ g a
  on_drawn-IsSteady events s (w, rejected message) g a =
      steady _ _ (cancelled_or (client.is_cancelled w) (send_error (rejected message)) refl) a
  on_drawn-IsSteady events s (w, send_failed) g a =
      steady _ _ (cancelled_or (client.is_cancelled w) (send_error send_failed) refl) a

  cleanup-IsSteady :
      (s : Session F W) (result : Finish)
      → IsSteady (s, result)
      → IsSteady (cleanup client s result)
  unfolding cleanup
  cleanup-IsSteady s waiting h = h
  cleanup-IsSteady s finished h =
      if_both IsSteady s.window_exists _ _ (λ e. steady _ finished refl h.shown) (λ e. h)
  cleanup-IsSteady s (failed_with x) h =
      if_both IsSteady s.window_exists _ _ (λ e. steady _ (failed_with x) h.no_frame_error h.shown)
        (λ e. h)

  on_created-IsSteady :
      (cs : List Command) (events : List (Event F)) (ts : List (Target F)) (p : W × Sending)
      → All IsGoodEvent events
      → AreShown ts
      → IsSteady (on_created client cfg cs events ts p)
  unfolding on_created in_window
  on_created-IsSteady cs events ts (w, accepted) g a = cleanup-IsSteady _ _ (
      on_drawn-IsSteady events (record { window_exists = true; targets = ts; world = w })
        (send_all client cs w) g a)
  on_created-IsSteady cs events ts (w, rejected message) g a = steady _ _ refl a
  on_created-IsSteady cs events ts (w, send_failed) g a = steady _ _ refl a

  on_subscribed-IsSteady :
      (cs : List Command) (events : List (Event F)) (ts : List (Target F)) (p : W × Bool)
      → All IsGoodEvent events
      → AreShown ts
      → IsSteady (on_subscribed client cfg cs events ts p)
  unfolding on_subscribed
  on_subscribed-IsSteady cs events ts (w, true) g a = on_created-IsSteady cs events ts _ g a
  on_subscribed-IsSteady cs events ts (w, false) g a =
      steady _ _ (cancelled_or (client.is_cancelled w) subscribe_error refl) a

  on_first_frame-IsSteady :
      (events : List (Event F)) (ts : List (Target F)) (w : W)
      {r : Built (List Command × List (Marker F))}
      → IsBuilt r
      → All IsGoodEvent events
      → AreShown ts
      → IsSteady (on_first_frame client cfg events ts w r)
  unfolding on_first_frame
  on_first_frame-IsSteady events ts w ((cs, ms), e) g a =
      rw e (on_subscribed-IsSteady cs events ts (client.subscribe w) g a)

  -- A session that starts from targets with different ids, which a frame can be made of, and gets only
  -- updates with such targets, keeps such targets, whatever the window server answers and the other
  -- events are, and it never returns because a frame could not be made.
  pub run_map-IsSteady :
      (events : List (Event F)) (ts : List (Target F)) (w : W)
      → All IsGoodEvent events
      → AreShown ts
      → IsSteady (run_map client cfg events ts w)
  unfolding run_map
  run_map-IsSteady events ts w g a = on_first_frame-IsSteady events ts w (frame_made ts a) g a
