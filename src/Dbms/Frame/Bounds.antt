-- ===== src/Dbms/Frame/Bounds.antt =====
-- server/dbms/internal/server/protocol.go: what `readFrame` accepts.
use tac_os.Base.{
  ℕ, zero, suc, ◌≤◌, ◌==◌, ltb, ◌||◌, ◌≡◌, refl, subst, ap, ◌∙◌, sym, arith, Bool-cases, Bytes, [],
  ◌∷◌, ◌++◌, length, inl, inr,
}
use tac_os.Dbms.Frame.{
  Framed, frame, broken, max_frame, and_byte, read_full, uint32, read_body, read_frame,
}

-- What a read of `n` bytes returns.
abbrev Reads : ℕ → Bytes → Framed (Bytes × Bytes) → Type 0
Reads n source (frame (bytes, rest)) = (length bytes ≡ n) × (source ≡ bytes ++ rest)
Reads n source (broken e) = Unit

and_byte-Reads :
    (n c : ℕ) (source : Bytes) (r : Framed (Bytes × Bytes))
    → Reads n source r
    → Reads (suc n) (c ∷ source) (and_byte c r)
unfolding and_byte
and_byte-Reads n c source (frame (bytes, rest)) (l, e) = (omega arith, ap (λ xs. c ∷ xs) e)
and_byte-Reads n c source (broken e) r = tt

read_full-Reads : (n : ℕ) (source : Bytes) → Reads n source (read_full n source)
unfolding read_full
read_full-Reads zero source = (refl, refl)
read_full-Reads (suc n) [] = tt
read_full-Reads (suc n) (c ∷ source) = and_byte-Reads n c source _ (read_full-Reads n source)

Reads-frame :
    {n : ℕ} {source bytes rest : Bytes} (r : Framed (Bytes × Bytes))
    → Reads n source r
    → r ≡ frame (bytes, rest)
    → (length bytes ≡ n) × (source ≡ bytes ++ rest)
Reads-frame {n} {source} (frame p) h e = subst (λ r. Reads n source r) e h
Reads-frame (broken x) h e = cc

-- A header of four bytes, and then a frame of the length that it gives, within the bounds.
pub record IsFramed (source bytes rest : Bytes) : Type 0 where
  pub header : Bytes
  pub four : length header ≡ 4
  pub announces : uint32 header ≡ length bytes
  pub nonempty : 1 ≤ length bytes
  pub bounded : length bytes ≤ max_frame
  pub is_source : source ≡ header ++ (bytes ++ rest)

read_body-IsFramed :
    (source bytes rest : Bytes) (r : Framed (Bytes × Bytes))
    → Reads 4 source r
    → read_body r ≡ frame (bytes, rest)
    → IsFramed source bytes rest
unfolding read_body
read_body-IsFramed source bytes rest (broken x) h = λ e. cc
read_body-IsFramed source bytes rest (frame (header, after)) (four, split) =
    elim (Bool-cases (uint32 header == 0 || ltb max_frame (uint32 header))) [
      | inl b ↦ rw b (λ e. cc)
      | inr b ↦ rw b (λ e.
          let (long, is) = Reads-frame _ (read_full-Reads (uint32 header) after) e in
          record {
            header = header;
            four = four;
            announces = sym long;
            nonempty = ground (arith, long);
            bounded = ground (arith, long);
            is_source = split ∙ ap (λ xs. header ++ xs) is;
          })
    ]

-- A frame that `readFrame` returns is of 1 to 1048576 bytes, the length that a header of four bytes
-- gives, and source is that header, the frame and what is left.
pub read_frame-IsFramed :
    (source bytes rest : Bytes)
    → read_frame source ≡ frame (bytes, rest)
    → IsFramed source bytes rest
unfolding read_frame
read_frame-IsFramed source bytes rest e =
    read_body-IsFramed source bytes rest (read_full 4 source) (read_full-Reads 4 source) e
