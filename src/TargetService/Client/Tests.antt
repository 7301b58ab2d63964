-- ===== src/TargetService/Client/Tests.antt =====
-- Calls of the client at concrete inputs. The world counts the connections that were opened and are
-- not closed; a connection is a number, and the peer closes before it responds.
use tac_os.Base.{ℕ, ◌+◌, ◌-◌, ◌≡◌, true, false, codes, Bytes, length, none, some}
use tac_os.Dbms.Frame.{wrote}
use tac_os.TargetService.Client.{Network, malformed, exec}
use tac_os.TargetService.Client.Connection.{Leaves, exec-Leaves}

abbrev silent : Network ℕ ℕ Bytes
silent = record {
  valid_utf8 = λ s. true;
  is_blank = λ s. false;
  cancelled = λ w. false;
  dial = λ w. (w + 1, some w);
  set_deadline = λ c w. (w, true);
  write = λ c b w. (w, wrote (length b));
  read_full = λ c n w. (w, none);
  close = λ c w. w - 1;
  decode = λ b. malformed;
  is_valid = λ r. true;
  is_ok = λ r. true;
}

exec-Leaves_example :
    ((exec silent (codes "SELECT") (record { conn = none; closed = false }) 0).1.closed ≡ false)
    × Leaves none
        (exec silent (codes "SELECT") (record { conn = none; closed = false }) 0).2
        (exec silent (codes "SELECT") (record { conn = none; closed = false }) 0).1.conn
exec-Leaves_example = exec-Leaves silent (codes "SELECT") (record { conn = none; closed = false }) 0
