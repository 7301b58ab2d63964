-- ===== src/Dbms/Frame/Tests.antt =====
-- Frames at concrete inputs. The writer takes one byte each time, and its state is what it has taken.
use tac_os.Base.{◌≡◌, refl, arith, codes, Bytes, [], ◌∷◌, ◌++◌}
use tac_os.Dbms.Frame.{frame, read_frame, Written, wrote, sent, write_frame}
use tac_os.Dbms.Frame.RoundTrip.{Accepts, read_frame-write_frame}

one_byte : Bytes → Bytes → Bytes × Written
one_byte [] w = (w, wrote 0)
one_byte (c ∷ cs) w = (w ++ c ∷ [], wrote 1)

one_byte-Accepts : Accepts one_byte (λ w. w)
unfolding one_byte
one_byte-Accepts = record {
  taken = λ part w. 0;
  fits = λ c cs w. omega arith;
  answers = λ c cs w. refl;
  appends = λ c cs w. refl;
}

read_frame-write_frame_example :
    ((write_frame one_byte (codes "SELECT") []).1 ≡ sent)
    × (read_frame ((write_frame one_byte (codes "SELECT") []).0 ++ codes "x")
        ≡ frame (codes "SELECT", codes "x"))
read_frame-write_frame_example =
    read_frame-write_frame one_byte (λ w. w) (codes "SELECT") (codes "x") [] one_byte-Accepts refl
      (omega arith) (omega arith)
