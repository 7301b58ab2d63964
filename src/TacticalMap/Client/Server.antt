-- ===== src/TacticalMap/Client/Server.antt =====
-- app/map/client.go with window-manager/server/server.go: the client at the window server, whose
-- responses are decoded as they were encoded.
use tac_os.Base.{◌≡◌, refl, ap, ◌∙◌, Bool, true, false, List, [], ◌∷◌, some, ℕ, if◌then◌else◌, All}
use tac_os.TacticalMap.Client.{WireResponse, on_ok, on_decoded, sending_of}
use tac_os.TacticalMap.Config.{Geo, Config, Target}
use tac_os.TacticalMap.Frame.{Command, Marker, built, build_frame}
use tac_os.TacticalMap.Served.{serve, responses, Draws, HasOpen, build_frame-AllServed}
use tac_os.TacticalMap.Session.{Sending, accepted, rejected, Client, then_send, send_all}
use tac_os.WindowManager.Backend.{Environment}
use tac_os.WindowManager.Protocol.{Response}
use tac_os.WindowManager.Server.{Server}

abbrev pub to_wire : Response → WireResponse
to_wire r = record { ok = some r.ok; message = r.message; event = r.event; window_id = r.window_id }

-- what `Send` makes of a response of the server
abbrev pub sent_as : Response → Sending
sent_as r = sending_of (on_decoded (some (to_wire r)))

module _ {W H : Type 0} (env : Environment W H) (conn : ℕ) where
  abbrev pub send_to : Command → Server W H → Server W H × Sending
  send_to c s = let (t, r) = serve env conn c s in (t, sent_as r)

sent_as-ok : (r : Response) → sent_as r ≡ (if r.ok then accepted else rejected r.message)
unfolding sending_of on_decoded on_ok
sent_as-ok r = go r.ok
  where
    go :
        (b : Bool)
        → sending_of (on_ok (to_wire r) (some b)) ≡ (if b then accepted else rejected r.message)
    go true = refl
    go false = refl

ok_accepted : (r : Response) → r.ok ≡ true → sent_as r ≡ accepted
ok_accepted r e = sent_as-ok r ∙ ap (λ b. if b then accepted else rejected r.message) e

then_send-accepted :
    {W : Type 0} (later : W → W × Sending) (w : W) {s : Sending}
    → s ≡ accepted
    → then_send later (w, s) ≡ later w
unfolding then_send
then_send-accepted later w e = rw e refl

module _ {W H : Type 0} (env : Environment W H) (conn : ℕ) (client : Client (Server W H))
    (at_server : client.send ≡ send_to env conn) where
  send_all-accepted :
      (cs : List Command) (s : Server W H)
      → All (λ (r : Response). r.ok ≡ true) (responses env conn cs s)
      → (send_all client cs s).1 ≡ accepted
  unfolding send_all
  send_all-accepted [] s a = refl
  send_all-accepted (c ∷ cs) s (ok, a) =
      let (t, r) = serve env conn c s in
      rw at_server (
        ap (λ p. p.1)
          (then_send-accepted (send_all client cs) (serve env conn c s).0
            (ok_accepted (serve env conn c s).1 ok))
        ∙ send_all-accepted cs (serve env conn c s).0 a)

  -- A client whose `Send` is answered by the window server sends every frame that `BuildFrame` makes
  -- to its end, with no command rejected, if the server's window is open, and draws the image of the
  -- configuration and whatever else is valid while it is open.
  pub send_all-build_frame :
      {F : Type 0} ⦃geo : Geo F⦄ (h : H) (Showing : W → Type 0) (cfg : Config F)
      (ts : List (Target F)) {cs : List Command} {ms : List (Marker F)} (s : Server W H)
      → Draws env h cfg.image Showing
      → build_frame cfg ts ≡ built (cs, ms)
      → HasOpen h Showing s
      → (send_all client cs s).1 ≡ accepted
  send_all-build_frame h Showing cfg ts {cs} s draws e o =
      send_all-accepted cs s
        (build_frame-AllServed env conn h cfg.image Showing draws cfg ts s e refl o)
