-- ===== src/TacticalMap/Session.antt =====
-- app/map/session.go: `runMap`. The client of the window server is a parameter, over the world `W` behind
-- it; what the `select` of the loop takes is a list of events.
pub mod Targets
pub mod Building
use tac_os.Base.{
  ℕ, ℤ, pos, if◌then◌else◌, Bool, true, false, ◌&&◌, ◌||◌, Bytes, bytes_eq, codes, List, [], ◌∷◌,
  Option, none, some,
}
use tac_os.TacticalMap.Config.{Geo, Config, Target}
use tac_os.TacticalMap.Frame.{
  Command, Marker, FrameError, Built, built, build_failed, map_command, build_frame,
}

-- What `Send` returns: nothing, the message of a rejection, or another error.
pub data Sending : Type 0 where
  accepted : Sending
  rejected : Bytes → Sending
  send_failed : Sending

-- What the `select` takes that waits for an event of the window, after a rejection.
pub data Late : Type 0 where
  window_closed other_event cancelled timed_out : Late

pub record Client (W : Type 0) : Type 0 where
  -- false if the subscription fails
  pub subscribe : W → W × Bool
  pub send : Command → W → W × Sending
  -- `ctx.Err() != nil`
  pub is_cancelled : W → Bool
  pub await_event : W → W × Late

pub data Event (F : Type 0) : Type 0 where
  context_done : Event F
  -- the fields `Event` and `WindowID` of a response
  window_event : Bytes → Bytes → Event F
  stream_error : Event F
  target_update : Target F → Event F
  -- a notice, or the end of a channel
  no_change : Event F

-- The error that `runMap` returns, without that of its last `Send`.
pub data SessionError : Type 0 where
  frame_error : FrameError → SessionError
  subscribe_error stream_failed : SessionError
  send_error : Sending → SessionError

pub data Finish : Type 0 where
  finished : Finish
  failed_with : SessionError → Finish
  -- no event has come yet
  waiting : Finish

pub record Session (F W : Type 0) : Type 0 where
  pub window_exists : Bool
  pub targets : List (Target F)
  pub world : W

-- One round of the loop: it goes on, or the function returns.
pub data Round (F W : Type 0) : Type 0 where
  go_on : Session F W → Round F W
  returns : Session F W → Finish → Round F W

module _ {F : Type 0} where
  -- the loop over the targets, and the `append` behind it
  unfoldable pub upsert : Target F → List (Target F) → List (Target F)
  upsert t [] = t ∷ []
  upsert t (u ∷ us) =
      let later = upsert t us in if bytes_eq u.target_id t.target_id then t ∷ us else u ∷ later

abbrev pub create_command : {F : Type 0} → Config F → Command
create_command cfg = record (map_command "CREATE") {
  title = codes "Tactical Map";
  width = cfg.width;
  height = cfg.height;
}

-- the commands of a frame, up to the first that fails
unfoldable pub then_send : {W : Type 0} → (W → W × Sending) → W × Sending → W × Sending
then_send later (w, accepted) = later w
then_send later (w, rejected message) = (w, rejected message)
then_send later (w, send_failed) = (w, send_failed)

unfoldable pub send_all : {W : Type 0} → Client W → List Command → W → W × Sending
unfolding then_send
send_all client [] w = (w, accepted)
send_all client (c ∷ cs) w = then_send (send_all client cs) (client.send c w)

module _ {F W : Type 0} (client : Client W) where
  -- the `select` after a rejection
  unfoldable pub on_late : Bytes → Session F W → W × Late → Round F W
  on_late message s (w, window_closed) =
      returns (record s { window_exists = false; world = w }) finished
  on_late message s (w, cancelled) = returns (record s { world = w }) finished
  on_late message s (w, other_event) =
      returns (record s { world = w }) (failed_with (send_error (rejected message)))
  on_late message s (w, timed_out) =
      returns (record s { world = w }) (failed_with (send_error (rejected message)))

  unfoldable pub on_rejected : Bytes → Session F W → Round F W
  unfolding on_late
  on_rejected message s =
      if client.is_cancelled s.world
      then returns s finished
      else if bytes_eq message (codes "no window; send CREATE first")
      then on_late message s (client.await_event s.world)
      else returns s (failed_with (send_error (rejected message)))

  -- after the commands of a redraw
  unfoldable pub on_redrawn : Session F W → W × Sending → Round F W
  unfolding on_rejected
  on_redrawn s (w, accepted) = go_on (record s { world = w })
  on_redrawn s (w, rejected message) = on_rejected message (record s { world = w })
  on_redrawn s (w, send_failed) =
      returns (record s { world = w })
        (if client.is_cancelled w then finished else failed_with (send_error send_failed))

  unfoldable pub on_rebuilt : Session F W → Built (List Command × List (Marker F)) → Round F W
  unfolding on_redrawn send_all
  on_rebuilt s (build_failed e) = returns s (failed_with (frame_error e))
  on_rebuilt s (built (commands, markers)) = on_redrawn s (send_all client commands s.world)

  -- after the deferred calls: `CLOSE` is sent if the window is there
  unfoldable pub cleanup : Session F W → Finish → Session F W × Finish
  cleanup s waiting = (s, waiting)
  cleanup s result =
      if s.window_exists
      then (record s { world = (client.send (map_command "CLOSE") s.world).0 }, result)
      else (s, result)

module _ {F W : Type 0} ⦃geo : Geo F⦄ (client : Client W) (cfg : Config F) where
  unfoldable pub on_event : Event F → Session F W → Round F W
  unfolding on_rebuilt upsert build_frame
  on_event context_done s = returns s finished
  on_event stream_error s =
      returns s (if client.is_cancelled s.world then finished else failed_with stream_failed)
  on_event (window_event event window_id) s =
      if bytes_eq event (codes "window_close") && bytes_eq window_id (codes "map")
      then returns (record s { window_exists = false }) finished
      else go_on s
  on_event (target_update t) s =
      let targets = upsert t s.targets in
      on_rebuilt client (record s { targets = targets }) (build_frame cfg targets)
  on_event no_change s = go_on s

  unfoldable pub after_round :
      (Session F W → Session F W × Finish) → Round F W → Session F W × Finish
  after_round loop (go_on s) = loop s
  after_round loop (returns s result) = (s, result)

  -- `for { select { … } }`
  unfoldable pub event_loop : List (Event F) → Session F W → Session F W × Finish
  unfolding on_event after_round
  event_loop [] s = (s, waiting)
  event_loop (e ∷ events) s = after_round (event_loop events) (on_event e s)

  -- after `SHOW`
  unfoldable pub on_shown : List (Event F) → Session F W → W × Sending → Session F W × Finish
  unfolding event_loop
  on_shown events s (w, accepted) = event_loop events (record s { world = w })
  on_shown events s (w, rejected message) =
      (record s { world = w }, failed_with (send_error (rejected message)))
  on_shown events s (w, send_failed) =
      (record s { world = w }, failed_with (send_error send_failed))

  -- after the first frame
  unfoldable pub on_drawn : List (Event F) → Session F W → W × Sending → Session F W × Finish
  unfolding on_shown
  on_drawn events s (w, accepted) = on_shown events s (client.send (map_command "SHOW") w)
  on_drawn events s (w, failure) = (
    record s { world = w },
    if client.is_cancelled w then finished else failed_with (send_error failure),
  )

  -- with the window created; the deferred `CLOSE` comes last
  unfoldable pub in_window : List Command → List (Event F) → Session F W → Session F W × Finish
  unfolding on_drawn send_all cleanup
  in_window commands events s =
      let (t, result) = on_drawn events s (send_all client commands s.world) in
      cleanup client t result

  unfoldable pub on_created :
      List Command → List (Event F) → List (Target F) → W × Sending → Session F W × Finish
  unfolding in_window
  on_created commands events targets (w, accepted) =
      in_window commands events (record { window_exists = true; targets = targets; world = w })
  on_created commands events targets (w, failure) = (
    record { window_exists = false; targets = targets; world = w },
    failed_with (send_error failure),
  )

  unfoldable pub on_subscribed :
      List Command → List (Event F) → List (Target F) → W × Bool → Session F W × Finish
  unfolding on_created
  on_subscribed commands events targets (w, true) =
      on_created commands events targets (client.send (create_command cfg) w)
  on_subscribed commands events targets (w, false) = (
    record { window_exists = false; targets = targets; world = w },
    if client.is_cancelled w then finished else failed_with subscribe_error,
  )

  unfoldable pub on_first_frame :
      List (Event F)
      → List (Target F)
      → W
      → Built (List Command × List (Marker F))
      → Session F W × Finish
  unfolding on_subscribed
  on_first_frame events targets w (build_failed e) =
      (record { window_exists = false; targets = targets; world = w }, failed_with (frame_error e))
  on_first_frame events targets w (built (commands, markers)) =
      on_subscribed commands events targets (client.subscribe w)

  unfoldable pub run_map : List (Event F) → List (Target F) → W → Session F W × Finish
  unfolding on_first_frame build_frame
  run_map events targets w = on_first_frame events targets w (build_frame cfg targets)
