-- ===== src/Broker/Protocol.antt =====
-- broker/main.go: the lines that subscribe and publish.
use tac_os.Base.{
  ℕ, ◌≡◌, refl, arith, ◌==◌, Bool, true, false, Bool-cases, inl, inr, Bytes, codes, bytes_eq,
  strip_prefix, [], ◌∷◌, ◌++◌, ◌∙◌, some,
}
use tac_os.Broker.Lines.{
  any_separator, valid_topic, trim_cr, before, cut, on_parts, on_pub, on_sub, handle_line,
}
use tac_os.Broker.Subscribers.{Connections, Subscribers, subscribe, publish}

-- The last byte is a carriage return.
abbrev pub ends_with_cr : Bytes → Bool
ends_with_cr [] = false
ends_with_cr (c ∷ []) = c == b'\r'
ends_with_cr (c ∷ d ∷ cs) = ends_with_cr (d ∷ cs)

trim_cr_same : (s : Bytes) → ends_with_cr s ≡ false → trim_cr s ≡ s
unfolding trim_cr
trim_cr_same [] h = refl
trim_cr_same (c ∷ []) h = rw h refl
trim_cr_same (c ∷ d ∷ cs) h = rw (trim_cr_same (d ∷ cs) h) refl

ends_with_cr-append :
    (xs : Bytes) (c : ℕ) (cs : Bytes) → ends_with_cr (xs ++ c ∷ cs) ≡ ends_with_cr (c ∷ cs)
ends_with_cr-append [] c cs = refl
ends_with_cr-append (x ∷ []) c cs = refl
ends_with_cr-append (x ∷ y ∷ xs) c cs = ends_with_cr-append (y ∷ xs) c cs

ends_with_cr-separator : (s : Bytes) → any_separator s ≡ false → ends_with_cr s ≡ false
unfolding any_separator
ends_with_cr-separator [] h = refl
ends_with_cr-separator (c ∷ []) h = ground arith
ends_with_cr-separator (c ∷ d ∷ cs) h = ends_with_cr-separator (d ∷ cs) (ground arith)

cut-separator :
    (topic payload : Bytes)
    → any_separator topic ≡ false
    → cut (topic ++ b' ' ∷ payload) ≡ some (topic, payload)
unfolding cut any_separator before
cut-separator [] payload h = refl
cut-separator (c ∷ topic) payload h = elim (Bool-cases (c == b' ')) [
  | inl e ↦ ground arith
  | inr e ↦ rw (e, cut-separator topic payload (ground arith)) refl
]

valid_topic-separator : (topic : Bytes) → valid_topic topic ≡ true → any_separator topic ≡ false
unfolding valid_topic
valid_topic-separator topic v = ground arith

on_parts_valid :
    {W : Type 0} (net : Connections W) (topic : Bytes) (c : ℕ) (cs : Bytes) (s : Subscribers × W)
    → valid_topic topic ≡ true
    → on_parts net (some (topic, c ∷ cs)) s ≡ publish net topic (c ∷ cs) s
unfolding on_parts valid_topic bytes_eq
on_parts_valid net [] c cs s v = cc
on_parts_valid net (t ∷ topic) c cs s v = rw v refl

sub_line :
    (topic : Bytes) → any_separator topic ≡ false → ends_with_cr (codes "SUB " ++ topic) ≡ false
sub_line [] h = refl
sub_line (t ∷ topic) h = ends_with_cr-separator (t ∷ topic) h

module _ {W : Type 0} (net : Connections W) (c : ℕ) (topic : Bytes) (s : Subscribers × W)
    (v : valid_topic topic ≡ true) where
  -- The line `SUB topic`, with a valid topic, subscribes its client to that topic.
  pub handle_line_sub : handle_line net c (codes "SUB " ++ topic) s ≡ (subscribe c topic s.0, s.1)
  unfolding handle_line strip_prefix on_sub
  handle_line_sub =
      rw (trim_cr_same (codes "SUB " ++ topic) (sub_line topic (valid_topic-separator topic v)), v)
        refl

  -- The line `PUB topic payload`, with a valid topic and a payload that holds any bytes but is not
  -- empty and does not end with a carriage return, publishes that payload under that topic.
  pub handle_line_pub :
      (p : ℕ) (payload : Bytes)
      → ends_with_cr (p ∷ payload) ≡ false
      → handle_line net c (codes "PUB " ++ topic ++ b' ' ∷ p ∷ payload) s
        ≡ publish net topic (p ∷ payload) s
  unfolding handle_line strip_prefix on_sub on_pub
  handle_line_pub p payload h =
      rw
        (
          trim_cr_same (codes "PUB " ++ topic ++ b' ' ∷ p ∷ payload)
              (ends_with_cr-append (codes "PUB " ++ topic) b' ' (p ∷ payload) ∙ h),
          cut-separator topic (p ∷ payload) (valid_topic-separator topic v),
        )
        (on_parts_valid net topic p payload s v)
