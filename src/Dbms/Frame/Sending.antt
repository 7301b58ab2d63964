-- ===== src/Dbms/Frame/Sending.antt =====
-- server/dbms/internal/server/protocol.go: how `writeFrame` ends.
use tac_os.Base.{ℕ, zero, suc, ◌≤◌, ltb, ◌≡◌, refl, arith, false, Bytes, [], ◌∷◌, length}
use tac_os.Dbms.Frame.{
  Written, wrote, write_failed, Sent, sent, failed, short_write, out_of_range, no_fuel, drop,
  on_written, put_uint32, write_part, write_body, write_frame,
}
use tac_os.Dbms.Frame.RoundTrip.{length-drop}

-- What `io.Writer` promises of the count that it returns.
abbrev pub Counts : {W : Type 0} → (Bytes → W → W × Written) → Type 0
Counts {W} write = (part : Bytes) (w : W) (n : ℕ) → (write part w).1 ≡ wrote n → n ≤ length part

-- The frame is sent, or the writer failed, or it took nothing.
pub data IsSending : Sent → Type 0 where
  all_sent : IsSending sent
  an_error : IsSending failed
  nothing_taken : IsSending short_write

module _ {W : Type 0} (write : Bytes → W → W × Written) (counts : Counts write) where
  on_written-IsSending :
      (loop : Bytes → W → W × Sent) (part : Bytes) (w : W) (r : Written)
      → ((n : ℕ) → r ≡ wrote n → n ≤ length part)
      → ((n : ℕ) → suc n ≤ length part → IsSending (loop (drop (suc n) part) w).1)
      → IsSending (on_written loop part w r).1
  unfolding on_written
  on_written-IsSending loop part w write_failed c h = an_error
  on_written-IsSending loop part w (wrote zero) c h = nothing_taken
  on_written-IsSending loop part w (wrote (suc n)) c h =
      let fits : suc n ≤ length part = c (suc n) refl in
      let test : ltb (length part) (suc n) ≡ false = ground arith in rw test (h n fits)

  write_part-IsSending :
      (fuel : ℕ) (part : Bytes) (w : W)
      → length part ≤ fuel
      → IsSending (write_part write fuel part w).1
  unfolding write_part drop
  write_part-IsSending fuel [] w h = all_sent
  write_part-IsSending zero (c ∷ cs) w h = absurd (omega arith)
  write_part-IsSending (suc fuel) (c ∷ cs) w h =
      on_written-IsSending (write_part write fuel) (c ∷ cs) (write (c ∷ cs) w).0
        (write (c ∷ cs) w).1 (counts (c ∷ cs) w)
        (λ n k.
          write_part-IsSending fuel (drop n cs) (write (c ∷ cs) w).0
            (omega (arith, length-drop n cs)))

  write_body-IsSending :
      (bytes : Bytes) (p : W × Sent) → IsSending p.1 → IsSending (write_body write bytes p).1
  unfolding write_body
  write_body-IsSending bytes (w, sent) s = write_part-IsSending (length bytes) bytes w (omega arith)
  write_body-IsSending bytes (w, failed) s = s
  write_body-IsSending bytes (w, short_write) s = s
  write_body-IsSending bytes (w, out_of_range) s = elim s [ ]
  write_body-IsSending bytes (w, no_fuel) s = elim s [ ]

  pub write_frame-IsSending : (bytes : Bytes) (w : W) → IsSending (write_frame write bytes w).1
  unfolding write_frame put_uint32
  write_frame-IsSending bytes w =
      write_body-IsSending bytes _
        (write_part-IsSending 4 (put_uint32 (length bytes)) w (omega arith))
