-- ===== src/Dbms/Session/Ends.antt =====
-- server/dbms/internal/server/server.go: the ends of a connection, and the tables that it leaves.
use tac_os.Base.{sym, subst, Bool, true, false, Bytes, List, [], ◌∷◌}
use tac_os.Dbms.Database.{Database}
use tac_os.Dbms.Database.Execute.{IsConsistentDb}
use tac_os.Dbms.Frame.{
  FrameError, Sent, sent, failed, short_write, out_of_range, no_fuel, write_frame,
}
use tac_os.Dbms.Frame.Sending.{Counts, IsSending, write_frame-IsSending}
use tac_os.Dbms.Outcome.{Outcome}
use tac_os.Dbms.Service.Executor.{Encoder, execute}
use tac_os.Dbms.Service.Executor.Payloads.{Encodes, Executed, executed, execute-Executed}
use tac_os.Dbms.Session.{
  Connection, HangUp, deadline_failed, read_failed, write_failed, Shared, on_sent,
  on_write_deadline, on_payload, handle,
}
use tac_os.Dbms.Value.{Float64}
use tac_os.Dbms.Session.Served.{
  Request, after_deadline, responded, responded-eq, rounds, handle-Served,
}

-- A connection ends for one of these reasons.
pub data IsEnd : HangUp → Type 0 where
  at_deadline : IsEnd deadline_failed
  at_read : (e : FrameError) → IsEnd (read_failed e)
  at_write : {s : Sent} → IsSending s → IsEnd (write_failed s)

module _ {F W : Type 0} ⦃float : Float64 F⦄ (encoder : Encoder F) (encodes : Encodes encoder)
    (conn : Connection W) (counts : Counts conn.write) where
  -- The tables are consistent, and the connection ended for a reason of its own.
  pub record EndsWell (r : Shared F W × HangUp) : Type 0 where
    pub consistent : IsConsistentDb r.0.db
    pub reason : IsEnd r.1

  abbrev Well : (Shared F W → Shared F W × HangUp) → Type 0
  Well loop = (s : Shared F W) → IsConsistentDb s.db → EndsWell (loop s)

  on_sent-EndsWell :
      (loop : Shared F W → Shared F W × HangUp) (db : Database F) (p : W × Sent)
      → Well loop
      → IsConsistentDb db
      → IsSending p.1
      → EndsWell (on_sent loop db p)
  unfolding on_sent
  on_sent-EndsWell loop db (w, sent) h c i = h (record { db = db; world = w }) c
  on_sent-EndsWell loop db (w, failed) h c i = record { consistent = c; reason = at_write i }
  on_sent-EndsWell loop db (w, short_write) h c i = record { consistent = c; reason = at_write i }
  on_sent-EndsWell loop db (w, out_of_range) h c i = elim i [ ]
  on_sent-EndsWell loop db (w, no_fuel) h c i = elim i [ ]

  on_write_deadline-EndsWell :
      (loop : Shared F W → Shared F W × HangUp) (payload : Bytes) (db : Database F) (p : W × Bool)
      → Well loop
      → IsConsistentDb db
      → EndsWell (on_write_deadline conn loop payload db p)
  unfolding on_write_deadline
  on_write_deadline-EndsWell loop payload db (w, false) h c = record {
    consistent = c;
    reason = at_deadline;
  }
  on_write_deadline-EndsWell loop payload db (w, true) h c =
      on_sent-EndsWell loop db (write_frame conn.write payload w) h c
        (write_frame-IsSending conn.write counts payload w)

  on_payload-EndsWell :
      (loop : Shared F W → Shared F W × HangUp) (w : W) {p : Database F × Outcome Bytes}
      → Well loop
      → Executed p
      → EndsWell (on_payload conn loop w p)
  unfolding on_payload
  on_payload-EndsWell loop w h (executed {t} {payload} c fits) =
      on_write_deadline-EndsWell loop payload t (conn.set_write_deadline w) h c

  after_deadline-EndsWell :
      (round : Shared F W → Shared F W × HangUp) (db : Database F) (p : W × Bool)
      → Well round
      → IsConsistentDb db
      → EndsWell (after_deadline encoder conn round db p)
  after_deadline-EndsWell round db (w, false) h c = record { consistent = c; reason = at_deadline }
  after_deadline-EndsWell round db (w, true) h c = h (record { db = db; world = w }) c

  rounds-EndsWell : (rs : List Request) (e : FrameError) → Well (rounds encoder conn rs e)
  rounds-EndsWell [] e s c =
      after_deadline-EndsWell (λ t. (t, read_failed e)) s.db (conn.set_read_deadline s.world)
        (λ t d. record { consistent = d; reason = at_read e }) c
  rounds-EndsWell (r ∷ rs) e s c =
      after_deadline-EndsWell
        (λ t.
          responded encoder conn (rounds encoder conn rs e) t.world (execute encoder r.body t.db))
        s.db (conn.set_read_deadline s.world)
        (λ t d.
          subst EndsWell
            (responded-eq encoder conn (rounds encoder conn rs e) t.world
              (execute encoder r.body t.db))
            (on_payload-EndsWell (rounds encoder conn rs e) t.world (rounds-EndsWell rs e)
              (execute-Executed encoder encodes r.body t.db d)))
        c

  -- From consistent tables a handler leaves consistent tables, whatever the client sends and wherever
  -- the connection fails, and it ends because a deadline, a read or a write failed, never in
  -- a panic, if the JSON encoder gives no empty text and encodes the two fixed errors in a frame, and a
  -- write takes no more bytes than it is given.
  pub handle-EndsWell :
      (source : Bytes) (s : Shared F W)
      → IsConsistentDb s.db
      → EndsWell (handle encoder conn source s)
  handle-EndsWell source s c =
      let served = handle-Served encoder conn source in
      subst EndsWell (sym (served.loop_is s)) (rounds-EndsWell served.requests served.failure s c)
