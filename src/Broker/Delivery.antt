-- ===== src/Broker/Delivery.antt =====
-- broker/main.go: what `publish` does to the subscriptions, and which lines publish or subscribe.
use tac_os.Base.{
  ℕ, ◌≡◌, ap, ◌∙◌, arith, ◌==◌, Bool, true, false, not, ◌&&◌, ◌||◌, Bool-cases, inl, inr, Bytes,
  ==→≡, List, [], ◌∷◌, ◌++◌,
}
use tac_os.Broker.Members.{IsMap, is_subscribed, remove_lem, remove-IsMap}
use tac_os.Broker.Subscribers.{
  Connections, Subscribers, clients_of, member, send, deliver, deliver_all, publish,
}

module _ {W : Type 0} (net : Connections W) (alive : ℕ → Bool)
    (writes : (c : ℕ) (message : Bytes) (w : W) → (net.write c message w).1 ≡ alive c) where
  keeps : (c d : ℕ) (x : Bool) → alive c ≡ true → x ≡ (x && (alive d || not (c == d)))
  keeps c d x e = elim (Bool-cases (c == d)) [
    | inl h ↦ ground (arith, ap alive (==→≡ c d h))
    | inr h ↦ ground arith
  ]

  loses :
      (c d : ℕ) (x : Bool)
      → alive c ≡ false
      → (x && not (c == d)) ≡ (x && (alive d || not (c == d)))
  loses c d x e = elim (Bool-cases (c == d)) [
    | inl h ↦ ground (arith, ap alive (==→≡ c d h))
    | inr h ↦ ground arith
  ]

  deliver_lem :
      (message : Bytes) (c : ℕ) (b : Subscribers) (w : W) (d : ℕ) (t : Bytes)
      → IsMap b
      → IsMap (deliver net message c (b, w)).0
        × (is_subscribed (deliver net message c (b, w)).0 d t
            ≡ (is_subscribed b d t && (alive d || not (c == d))))
  unfolding deliver send
  deliver_lem message c b w d t m =
      rw (writes c (message ++ b'\n' ∷ []) w) (elim (Bool-cases (alive c)) [
        | inl e ↦ rw e (m, keeps c d _ e)
        | inr e ↦ rw e (remove-IsMap c b m, remove_lem b c d t m ∙ loses c d _ e)
      ])

  deliver_all_lem :
      (message : Bytes) (cs : List ℕ) (s : Subscribers × W) (d : ℕ) (t : Bytes)
      → IsMap s.0
      → is_subscribed (deliver_all net message cs s).0 d t
        ≡ (is_subscribed s.0 d t && (alive d || not (member d cs)))
  unfolding deliver_all member
  deliver_all_lem message [] s d t m = ground arith
  deliver_all_lem message (c ∷ cs) s d t m =
      let (m', here) = deliver_lem message c s.0 s.1 d t m in
      let later = deliver_all_lem message cs (deliver net message c s) d t m' in
      later ∙ rw here (ground arith)

  -- Where a write succeeds if and only if the client is alive: after `publish`, the subscribers of
  -- the topic that are not alive are subscribed to nothing, and every other subscription is as
  -- before.
  pub publish_lem :
      (topic payload : Bytes) (b : Subscribers) (w : W) (d : ℕ) (t : Bytes)
      → IsMap b
      → is_subscribed (publish net topic payload (b, w)).0 d t
        ≡ (is_subscribed b d t && (alive d || not (is_subscribed b d topic)))
  unfolding publish
  publish_lem topic payload b w d t m = deliver_all_lem _ (clients_of b topic) (b, w) d t m
