-- ===== src/Dbms/Frame/RoundTrip.antt =====
-- server/dbms/internal/server/protocol.go: `writeFrame` against `readFrame`.
use tac_os.Base.{
  ℕ, zero, suc, ◌≤◌, ◌==◌, ltb, false, ◌||◌, ◌≡◌, refl, ap, ◌∙◌, sym, arith, Bytes, [], ◌∷◌, ◌++◌,
  append_assoc, append-nil, length,
}
use tac_os.Dbms.Frame.{
  frame, max_frame, and_byte, read_full, uint32, put_uint32, read_body, read_frame, Written, wrote,
  Sent, sent, drop, on_written, write_part, write_body, write_frame,
}

abbrev pub take : ℕ → Bytes → Bytes
take zero part = []
take (suc n) [] = []
take (suc n) (c ∷ cs) = c ∷ take n cs

take-drop : (n : ℕ) (part : Bytes) → take n part ++ drop n part ≡ part
unfolding drop
take-drop zero part = refl
take-drop (suc n) [] = refl
take-drop (suc n) (c ∷ cs) = ap (λ xs. c ∷ xs) (take-drop n cs)

pub length-drop : (n : ℕ) (part : Bytes) → length (drop n part) ≤ length part
unfolding drop
length-drop zero part = omega arith
length-drop (suc n) [] = omega arith
length-drop (suc n) (c ∷ cs) = omega (arith, length-drop n cs)

read_full_lem :
    (bytes rest : Bytes) → read_full (length bytes) (bytes ++ rest) ≡ frame (bytes, rest)
unfolding read_full and_byte
read_full_lem [] rest = refl
read_full_lem (c ∷ bytes) rest = rw (read_full_lem bytes rest) refl

uint32-put_uint32 : (n : ℕ) → n ≤ max_frame → uint32 (put_uint32 n) ≡ n
unfolding uint32 put_uint32
uint32-put_uint32 n h = omega arith

-- What `io.Writer` promises of a write that fails not: it takes at least one byte and at most all,
-- and appends them to what was written.
pub record Accepts {W : Type 0} (write : Bytes → W → W × Written) (log : W → Bytes) : Type 0 where
  pub taken : Bytes → W → ℕ
  pub fits : (c : ℕ) (cs : Bytes) (w : W) → taken (c ∷ cs) w ≤ length cs
  pub answers : (c : ℕ) (cs : Bytes) (w : W) → (write (c ∷ cs) w).1 ≡ wrote (suc (taken (c ∷ cs) w))
  pub appends :
      (c : ℕ) (cs : Bytes) (w : W)
      → log (write (c ∷ cs) w).0 ≡ log w ++ take (suc (taken (c ∷ cs) w)) (c ∷ cs)

module _ {W : Type 0} (write : Bytes → W → W × Written) (log : W → Bytes)
    (accepts : Accepts write log) where
  write_part_lem :
      (fuel : ℕ) (part : Bytes) (w : W)
      → length part ≤ fuel
      → ((write_part write fuel part w).1 ≡ sent)
        × (log (write_part write fuel part w).0 ≡ log w ++ part)
  unfolding write_part on_written drop
  write_part_lem fuel [] w h = (refl, sym (append-nil (log w)))
  write_part_lem zero (c ∷ cs) w h = absurd (omega arith)
  write_part_lem (suc fuel) (c ∷ cs) w h =
      let n = accepts.taken (c ∷ cs) w in
      let small : ltb (length (c ∷ cs)) (suc n) ≡ false = ground (arith, accepts.fits c cs w) in
      let (done, written) =
        write_part_lem fuel (drop n cs) (write (c ∷ cs) w).0 (omega (arith, length-drop n cs)) in
      rw (accepts.answers c cs w, small)
        (
          done,
          written
              ∙ ap (λ xs. xs ++ drop n cs) (accepts.appends c cs w)
              ∙ append_assoc (log w) (take (suc n) (c ∷ cs)) (drop n cs)
              ∙ ap (λ xs. log w ++ c ∷ xs) (take-drop n cs),
        )

  write_frame_lem :
      (bytes : Bytes) (w : W)
      → ((write_frame write bytes w).1 ≡ sent)
        × (log (write_frame write bytes w).0 ≡ log w ++ (put_uint32 (length bytes) ++ bytes))
  unfolding write_frame write_body
  write_frame_lem bytes w =
      let header = put_uint32 (length bytes) in
      let (done, written) = write_part_lem 4 header w (unfold put_uint32 in omega arith) in
      go (write_part write 4 header w) done written
    where
      go :
          (p : W × Sent)
          → p.1 ≡ sent
          → log p.0 ≡ log w ++ put_uint32 (length bytes)
          → ((write_body write bytes p).1 ≡ sent)
            × (log (write_body write bytes p).0 ≡ log w ++ (put_uint32 (length bytes) ++ bytes))
      go (v, r) done written =
          rw (done, write_body)
            (let (all, added) = write_part_lem (length bytes) bytes v (omega arith) in
              (
                all,
                added
                    ∙ ap (λ xs. xs ++ bytes) written
                    ∙ append_assoc (log w) (put_uint32 (length bytes)) bytes,
              ))

read_header :
    (n : ℕ) (source : Bytes) → read_full 4 (put_uint32 n ++ source) ≡ frame (put_uint32 n, source)
unfolding put_uint32 read_full and_byte
read_header n source = refl

-- A frame of 1 to 1048576 bytes, written to a writer that takes at least one byte each time and does
-- not fail, is sent in full, and `readFrame` reads from what was written the same bytes, leaving
-- what stands behind them.
pub read_frame-write_frame :
    {W : Type 0} (write : Bytes → W → W × Written) (log : W → Bytes) (bytes rest : Bytes) (w : W)
    → Accepts write log
    → log w ≡ []
    → 1 ≤ length bytes
    → length bytes ≤ max_frame
    → ((write_frame write bytes w).1 ≡ sent)
      × (read_frame (log (write_frame write bytes w).0 ++ rest) ≡ frame (bytes, rest))
unfolding read_frame read_body
read_frame-write_frame write log bytes rest w accepts empty more less =
    let (done, written) = write_frame_lem write log accepts bytes w in
    let fits : (length bytes == 0 || ltb max_frame (length bytes)) ≡ false = ground arith in
    (
      done,
      rw
          (
            written,
            empty,
            append_assoc (put_uint32 (length bytes)) bytes rest,
            read_header (length bytes) (bytes ++ rest),
            uint32-put_uint32 (length bytes) less,
            fits,
          )
          (read_full_lem bytes rest),
    )
