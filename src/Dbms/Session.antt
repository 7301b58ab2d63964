-- ===== src/Dbms/Session.antt =====
-- server/dbms/internal/server/server.go: `handle`, for one connection. What the client sends is the
-- list of its bytes; `W` is the world behind the connection.
pub mod Served
pub mod Ends
pub mod Tests
use tac_os.Base.{ℕ, zero, suc, if◌then◌else◌, Bool, true, false, Bytes, length}
use tac_os.Dbms.Database.{Database}
use tac_os.Dbms.Frame.{
  Framed, frame, broken, FrameError, Written, Sent, sent, read_frame, write_frame,
}
use tac_os.Dbms.Outcome.{Outcome, ok, err, panic, no_fuel}
use tac_os.Dbms.Service.Executor.{Encoder, execute}
use tac_os.Dbms.Value.{Float64}

-- What the handler calls; a deadline cannot be set on a closed connection.
pub record Connection (W : Type 0) : Type 0 where
  pub set_read_deadline : W → W × Bool
  pub set_write_deadline : W → W × Bool
  pub write : Bytes → W → W × Written

-- How a connection ends. A panic ends the process.
pub data HangUp : Type 0 where
  deadline_failed panicked out_of_fuel : HangUp
  read_failed : FrameError → HangUp
  write_failed : Sent → HangUp

-- The database that the connections share, and the world.
pub record Shared (F W : Type 0) : Type 0 where
  pub db : Database F
  pub world : W

module _ {F W : Type 0} where
  -- `writeFrame`, and the next round
  unfoldable pub on_sent :
      (Shared F W → Shared F W × HangUp) → Database F → W × Sent → Shared F W × HangUp
  on_sent loop db (w, sent) = loop (record { db = db; world = w })
  on_sent loop db (w, failure) = (record { db = db; world = w }, write_failed failure)

  unfoldable pub on_write_deadline :
      Connection W
      → (Shared F W → Shared F W × HangUp)
      → Bytes
      → Database F
      → W × Bool
      → Shared F W × HangUp
  unfolding on_sent
  on_write_deadline conn loop payload db (w, false) =
      (record { db = db; world = w }, deadline_failed)
  on_write_deadline conn loop payload db (w, true) =
      on_sent loop db (write_frame conn.write payload w)

  unfoldable pub on_payload :
      Connection W
      → (Shared F W → Shared F W × HangUp)
      → W
      → Database F × Outcome Bytes
      → Shared F W × HangUp
  unfolding on_write_deadline
  on_payload conn loop w (db, ok payload) =
      on_write_deadline conn loop payload db (conn.set_write_deadline w)
  on_payload conn loop w (db, err e) = (record { db = db; world = w }, panicked)
  on_payload conn loop w (db, panic) = (record { db = db; world = w }, panicked)
  on_payload conn loop w (db, no_fuel) = (record { db = db; world = w }, panicked)

module _ {F W : Type 0} ⦃float : Float64 F⦄ (encoder : Encoder F) (conn : Connection W) where
  -- `readFrame`, `execute` and what follows; `loop` is the next round
  unfoldable pub on_frame :
      (Bytes → Shared F W → Shared F W × HangUp)
      → Framed (Bytes × Bytes)
      → Shared F W
      → Shared F W × HangUp
  unfolding on_payload execute
  on_frame loop (broken e) s = (s, read_failed e)
  on_frame loop (frame (request, rest)) s =
      on_payload conn (loop rest) s.world (execute encoder request s.db)

  unfoldable pub on_read_deadline :
      (Bytes → Shared F W → Shared F W × HangUp)
      → Bytes
      → Database F
      → W × Bool
      → Shared F W × HangUp
  unfolding on_frame read_frame
  on_read_deadline loop source db (w, false) = (record { db = db; world = w }, deadline_failed)
  on_read_deadline loop source db (w, true) =
      on_frame loop (read_frame source) (record { db = db; world = w })

  -- `for { … }`
  unfoldable pub handle_loop : ℕ → Bytes → Shared F W → Shared F W × HangUp
  unfolding on_read_deadline
  handle_loop zero source s = (s, out_of_fuel)
  handle_loop (suc fuel) source s =
      on_read_deadline (handle_loop fuel) source s.db (conn.set_read_deadline s.world)

  -- every round but the last takes a byte
  unfoldable pub handle : Bytes → Shared F W → Shared F W × HangUp
  unfolding handle_loop
  handle source s = handle_loop (suc (length source)) source s
