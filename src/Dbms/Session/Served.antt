-- ===== src/Dbms/Session/Served.antt =====
-- server/dbms/internal/server/server.go: the frames of a connection and their responses.
use mathlib.Core.Path.{fun_ext}
use tac_os.Base.{
  ℕ, zero, suc, ◌<◌, ◌≡◌, refl, ap, ◌∙◌, arith, Bool, true, false, Bytes, List, [], ◌∷◌, ◌++◌,
  length, length-append, All,
}
use tac_os.Dbms.Database.{Database}
use tac_os.Dbms.Frame.{
  Sent, sent, write_frame, Framed, frame, broken, FrameError, uint32, read_frame,
}
use tac_os.Dbms.Frame.Bounds.{IsFramed, read_frame-IsFramed}
use tac_os.Dbms.Outcome.{Outcome, ok, err, panic, no_fuel}
use tac_os.Dbms.Service.Executor.{Encoder, execute}
use tac_os.Dbms.Service.Executor.Payloads.{IsPayload}
use tac_os.Dbms.Session.{
  Connection, HangUp, deadline_failed, read_failed, write_failed, panicked, on_sent,
  on_write_deadline, Shared, on_payload, on_frame, on_read_deadline, handle_loop, handle,
}
use tac_os.Dbms.Value.{Float64}

-- The header and the bytes of a request.
pub record Request : Type 0 where
  pub header : Bytes
  pub body : Bytes

pub record IsRequest (r : Request) : Type 0 where
  pub four : length r.header ≡ 4
  pub announces : uint32 r.header ≡ length r.body
  pub payload : IsPayload r.body

-- requests, and what follows them
abbrev pub join : List Request → Bytes → Bytes
join [] rest = rest
join (r ∷ rs) rest = r.header ++ (r.body ++ join rs rest)

module _ {F W : Type 0} ⦃float : Float64 F⦄ (encoder : Encoder F) (conn : Connection W) where
  -- the read deadline is set, and then comes the rest of the round
  abbrev pub after_deadline :
      (Shared F W → Shared F W × HangUp) → Database F → W × Bool → Shared F W × HangUp
  after_deadline round db (w, false) = (record { db = db; world = w }, deadline_failed)
  after_deadline round db (w, true) = round (record { db = db; world = w })

  -- The frame of a response is written behind a write deadline, and then comes `later`; a failure ends
  -- the connection, and a panic the process.
  abbrev written_to :
      (Shared F W → Shared F W × HangUp) → Database F → W × Sent → Shared F W × HangUp
  written_to later db (w, sent) = later (record { db = db; world = w })
  written_to later db (w, failure) = (record { db = db; world = w }, write_failed failure)

  abbrev pub responded :
      (Shared F W → Shared F W × HangUp) → W → Database F × Outcome Bytes → Shared F W × HangUp
  responded later w (db, ok payload) =
      after_deadline (λ t. written_to later t.db (write_frame conn.write payload t.world)) db
        (conn.set_write_deadline w)
  responded later w (db, _) = (record { db = db; world = w }, panicked)

  on_sent-eq :
      (later : Shared F W → Shared F W × HangUp) (db : Database F) (p : W × Sent)
      → on_sent later db p ≡ written_to later db p
  unfolding on_sent
  on_sent-eq later db (w, sent) = refl
  on_sent-eq later db (w, failure) = refl

  pub responded-eq :
      (later : Shared F W → Shared F W × HangUp) (w : W) (p : Database F × Outcome Bytes)
      → on_payload conn later w p ≡ responded later w p
  unfolding on_payload on_write_deadline
  responded-eq later w (db, ok payload) = deadline (conn.set_write_deadline w)
    where
      deadline :
          (p : W × Bool)
          → on_write_deadline conn later payload db p
            ≡ after_deadline
                (λ t. written_to later t.db (write_frame conn.write payload t.world))
                db
                p
      deadline (w, false) = refl
      deadline (w, true) = on_sent-eq later db (write_frame conn.write payload w)
  responded-eq later w (db, err e) = refl
  responded-eq later w (db, panic) = refl
  responded-eq later w (db, no_fuel) = refl

  -- The requests are executed in order, and a frame with the response of each is written before the
  -- next is read; the read behind the last fails with `e`.
  abbrev pub rounds : List Request → FrameError → Shared F W → Shared F W × HangUp
  rounds [] e s = after_deadline (λ t. (t, read_failed e)) s.db (conn.set_read_deadline s.world)
  rounds (r ∷ rs) e s =
      after_deadline (λ t. responded (rounds rs e) t.world (execute encoder r.body t.db)) s.db
        (conn.set_read_deadline s.world)

  -- How a handler served the bytes `source`.
  pub record Served (source : Bytes) (loop : Shared F W → Shared F W × HangUp) : Type 0 where
    pub requests : List Request
    pub well_formed : All IsRequest requests
    pub rest : Bytes
    pub failure : FrameError
    pub source_is : source ≡ join requests rest
    pub rest_fails : read_frame rest ≡ broken failure
    pub loop_is : (s : Shared F W) → loop s ≡ rounds requests failure s

  read_deadline-broken :
      (loop : Bytes → Shared F W → Shared F W × HangUp) (source : Bytes) (e : FrameError)
      (db : Database F) (p : W × Bool)
      → read_frame source ≡ broken e
      → on_read_deadline encoder conn loop source db p
        ≡ after_deadline (λ t. (t, read_failed e)) db p
  unfolding on_read_deadline on_frame
  read_deadline-broken loop source e db (w, false) h = refl
  read_deadline-broken loop source e db (w, true) h = rw h refl

  read_deadline-frame :
      (loop : Bytes → Shared F W → Shared F W × HangUp) (later : Shared F W → Shared F W × HangUp)
      (source request rest : Bytes) (db : Database F) (p : W × Bool)
      → read_frame source ≡ frame (request, rest)
      → loop rest ≡ later
      → on_read_deadline encoder conn loop source db p
        ≡ after_deadline (λ t. responded later t.world (execute encoder request t.db)) db p
  unfolding on_read_deadline on_frame
  read_deadline-frame loop later source request rest db (w, false) h e = refl
  read_deadline-frame loop later source request rest db (w, true) h e =
      rw (h, e) (responded-eq later w (execute encoder request db))

  shorter :
      (fuel : ℕ) {source request rest : Bytes}
      → length source < suc fuel
      → IsFramed source request rest
      → length rest < fuel
  shorter fuel {source} {request} {rest} h f = omega (
    arith,
    f.nonempty,
    ap length f.is_source,
    length-append f.header (request ++ rest),
    length-append request rest,
  )

  loop-Served :
      (fuel : ℕ) (source : Bytes) (r : Framed (Bytes × Bytes))
      → length source < suc fuel
      → read_frame source ≡ r
      → ((rest : Bytes) → length rest < fuel → Served rest (handle_loop encoder conn fuel rest))
      → Served source (handle_loop encoder conn (suc fuel) source)
  unfolding handle_loop
  loop-Served fuel source (broken e) h is ih = record {
    requests = [];
    well_formed = tt;
    rest = source;
    failure = e;
    source_is = refl;
    rest_fails = is;
    loop_is = λ s.
        read_deadline-broken (handle_loop encoder conn fuel) source e s.db
          (conn.set_read_deadline s.world) is;
  }
  loop-Served fuel source (frame (request, rest)) h is ih =
      let f = read_frame-IsFramed source request rest is in
      let later = ih rest (shorter fuel h f) in
      record {
        requests = record { header = f.header; body = request } ∷ later.requests;
        well_formed = (
          record {
            four = f.four;
            announces = f.announces;
            payload = record { nonempty = f.nonempty; fits = f.bounded };
          },
          later.well_formed,
        );
        rest = later.rest;
        failure = later.failure;
        source_is = f.is_source ∙ ap (λ t. f.header ++ (request ++ t)) later.source_is;
        rest_fails = later.rest_fails;
        loop_is = λ s.
            read_deadline-frame (handle_loop encoder conn fuel)
              (rounds later.requests later.failure) source request rest s.db
              (conn.set_read_deadline s.world) is (fun_ext later.loop_is);
      }

  handle_loop-Served :
      (fuel : ℕ) (source : Bytes)
      → length source < fuel
      → Served source (handle_loop encoder conn fuel source)
  handle_loop-Served zero source h = absurd (omega arith)
  handle_loop-Served (suc fuel) source h =
      loop-Served fuel source (read_frame source) h refl (handle_loop-Served fuel)

  -- Whatever a client sends, its handler returns: the bytes are frames of 1 to 1048576 bytes, each with
  -- a header of four bytes that gives its length, and a rest that `readFrame` refuses. The requests are
  -- executed in order, each before the next is read, and each is answered with one frame, until a
  -- deadline or a write fails.
  pub handle-Served : (source : Bytes) → Served source (handle encoder conn source)
  unfolding handle
  handle-Served source = handle_loop-Served (suc (length source)) source (omega arith)
