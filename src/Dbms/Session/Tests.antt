-- ===== src/Dbms/Session/Tests.antt =====
-- A connection of the database server at concrete inputs. The encoder gives one byte for each
-- response, and the world is the list of the bytes that were written.
use tac_os.Base.{ℕ, ◌≡◌, refl, arith, Bool, true, false, Bytes, codes, [], ◌∷◌, ◌++◌, length, some}
use tac_os.Dbms.Frame.{Written, wrote}
use tac_os.Dbms.Frame.Sending.{Counts}
use tac_os.Dbms.Service.Executor.{Encoder, execute}
use tac_os.Dbms.Service.Executor.Payloads.{Encodes, Executed, execute-Executed}
use tac_os.Dbms.Session.{Connection, Shared, handle}
use tac_os.Dbms.Session.Ends.{EndsWell, handle-EndsWell}
use tac_os.Dbms.Session.Served.{Served, handle-Served}
use tac_os.Dbms.Tests.{text_float}

abbrev ok_byte : Bool → Bytes
ok_byte true = codes "+"
ok_byte false = codes "-"

abbrev pub byte_encoder : Encoder Bytes
byte_encoder = record {
  utf8_valid = λ b. true;
  is_blank = λ b. false;
  marshal = λ r. some (ok_byte r.ok);
}

some_byte : (b : Bool) (p : Bytes) → some (ok_byte b) ≡ some p → length p ≡ 1
some_byte true p e = ground arith
some_byte false p e = ground arith

pub byte_encoder-Encodes : Encodes byte_encoder
byte_encoder-Encodes = record {
  has_text = λ r p e. omega (arith, some_byte r.ok p e);
  internal = (codes "-", refl, omega arith);
  large = (codes "-", refl, omega arith);
}

write_all : Bytes → Bytes → Bytes × Written
write_all part w = (w ++ part, wrote (length part))

abbrev open_connection : Connection Bytes
open_connection = record {
  set_read_deadline = λ w. (w, true);
  set_write_deadline = λ w. (w, true);
  write = write_all;
}

wrote_inj : (m n : ℕ) → wrote m ≡ wrote n → m ≡ n
wrote_inj m n e = cc

write_all-Counts : Counts write_all
unfolding write_all
write_all-Counts part w n e = omega (arith, wrote_inj (length part) n e)

-- a statement in a frame, and one byte more
abbrev stream : Bytes
stream = 2 ∷ 0 ∷ 0 ∷ 0 ∷ codes "?;" ++ 9 ∷ []

abbrev start : Shared Bytes Bytes
start = record { db = []; world = [] }

execute-Executed_example : Executed (execute byte_encoder (codes "CREATE TABLE t (n INTEGER);") [])
execute-Executed_example =
    execute-Executed byte_encoder byte_encoder-Encodes (codes "CREATE TABLE t (n INTEGER);") [] tt

handle-Served_example :
    Served byte_encoder open_connection stream (handle byte_encoder open_connection stream)
handle-Served_example = handle-Served byte_encoder open_connection stream

handle-EndsWell_example :
    EndsWell byte_encoder byte_encoder-Encodes open_connection write_all-Counts
      (handle byte_encoder open_connection stream start)
handle-EndsWell_example =
    handle-EndsWell byte_encoder byte_encoder-Encodes open_connection write_all-Counts stream start
      tt
