-- ===== src/Dbms/Frame.antt =====
-- server/dbms/internal/server/protocol.go: `readFrame` and `writeFrame`. A reader is the list of the
-- bytes that it still has; a writer is a parameter, whose `write` may take a part of what it is given.
pub mod RoundTrip
pub mod Bounds
pub mod Sending
mod Tests
use tac_os.Base.{
  ℕ, zero, suc, ◌+◌, ◌*◌, ◌/◌, ◌%◌, ◌^◌, ◌==◌, ltb, true, false, if◌then◌else◌, ◌||◌, Bytes, [],
  ◌∷◌, length,
}

pub data FrameError : Type 0 where
  eof unexpected_eof : FrameError
  invalid_length : ℕ → FrameError

pub data Framed {ℓ} (A : Type ℓ) : Type ℓ where
  frame : A → Framed A
  broken : FrameError → Framed A

abbrev pub max_frame : ℕ
max_frame = 1048576

-- the rest of `io.ReadFull`, behind its first byte
unfoldable pub and_byte : ℕ → Framed (Bytes × Bytes) → Framed (Bytes × Bytes)
and_byte c (frame (bytes, rest)) = frame (c ∷ bytes, rest)
and_byte c (broken e) = broken unexpected_eof

-- `io.ReadFull` of `n` bytes, with what is left behind them
unfoldable pub read_full : ℕ → Bytes → Framed (Bytes × Bytes)
unfolding and_byte
read_full zero source = frame ([], source)
read_full (suc n) [] = broken eof
read_full (suc n) (c ∷ source) = and_byte c (read_full n source)

-- `binary.LittleEndian.Uint32`
unfoldable pub uint32 : Bytes → ℕ
uint32 [] = 0
uint32 (c ∷ cs) = c + 256 * uint32 cs

-- `binary.LittleEndian.PutUint32(header, uint32(n))`
unfoldable pub put_uint32 : ℕ → Bytes
put_uint32 n =
    let u = n % 2 ^ 32 in u % 256 ∷ u / 256 % 256 ∷ u / 65536 % 256 ∷ u / 16777216 % 256 ∷ []

unfoldable pub read_body : Framed (Bytes × Bytes) → Framed (Bytes × Bytes)
read_body (broken e) = broken e
read_body (frame (header, source)) =
    let n = uint32 header in
    if n == 0 || ltb max_frame n then broken (invalid_length n) else read_full n source

unfoldable pub read_frame : Bytes → Framed (Bytes × Bytes)
unfolding read_body
read_frame source = read_body (read_full 4 source)

-- what `Write` returns: how many bytes it took, or an error
pub data Written : Type 0 where
  wrote : ℕ → Written
  write_failed : Written

-- what `writeFrame` returns; a slice out of range is a panic
pub data Sent : Type 0 where
  sent failed short_write out_of_range no_fuel : Sent

unfoldable pub drop : ℕ → Bytes → Bytes
drop zero part = part
drop (suc n) [] = []
drop (suc n) (c ∷ cs) = drop n cs

-- what follows a `Write` of `part`: an error, or the rest of the loop
unfoldable pub on_written : {W : Type 0} → (Bytes → W → W × Sent) → Bytes → W → Written → W × Sent
unfolding drop
on_written loop part w write_failed = (w, failed)
on_written loop part w (wrote zero) = (w, short_write)
on_written loop part w (wrote (suc n)) =
    if ltb (length part) (suc n) then (w, out_of_range) else loop (drop (suc n) part) w

module _ {W : Type 0} (write : Bytes → W → W × Written) where
  -- `for len(part) > 0 { … }`
  unfoldable pub write_part : ℕ → Bytes → W → W × Sent
  unfolding on_written
  write_part fuel [] w = (w, sent)
  write_part zero (c ∷ cs) w = (w, no_fuel)
  write_part (suc fuel) (c ∷ cs) w =
      let (w', r) = write (c ∷ cs) w in on_written (write_part fuel) (c ∷ cs) w' r

  unfoldable pub write_body : Bytes → W × Sent → W × Sent
  write_body bytes (w, sent) = write_part (length bytes) bytes w
  write_body bytes (w, failure) = (w, failure)

  unfoldable pub write_frame : Bytes → W → W × Sent
  unfolding put_uint32 write_body
  write_frame bytes w = write_body bytes (write_part 4 (put_uint32 (length bytes)) w)
