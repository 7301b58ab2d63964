-- ===== src/Broker/Tidy.antt =====
-- broker/main.go: the invariant of the map of subscribers, over every run of the broker.
use tac_os.Base.{
  ℕ, ◌≡◌, ◌≢◌, sym, arith, ◌==◌, true, false, not, ◌&&◌, Bool-cases, inl, inr, Bytes, bytes_eq,
  bytes_eq_iff, List, [], ◌∷◌, Option, none, some, All,
}
use tac_os.Broker.Lines.{valid_topic, cut, on_parts, on_pub, on_sub, handle_line}
use tac_os.Broker.Members.{IsFresh, IsMap, member-delete_client, remove-IsFresh}
use tac_os.Broker.Subscribers.{
  Connections, Subscribers, member, add_client, delete_client, subscribe, with_clients, remove,
  send, deliver, deliver_all, publish,
}

-- A list that stands for a set.
abbrev pub IsSetOf : List ℕ → Type 0
IsSetOf [] = Unit
IsSetOf (c ∷ cs) = (member c cs ≡ false) × IsSetOf cs

-- An entry of the map: a valid topic with a nonempty set of clients.
abbrev pub IsEntry : Bytes × List ℕ → Type 0
IsEntry (topic, cs) = (valid_topic topic ≡ true) × (cs ≢ []) × IsSetOf cs

abbrev pub IsTidy : Subscribers → Type 0
IsTidy b = IsMap b × All IsEntry b

add_client-IsSetOf : (c : ℕ) (cs : List ℕ) → IsSetOf cs → IsSetOf (add_client c cs)
unfolding add_client
add_client-IsSetOf c cs s = elim (Bool-cases (member c cs)) [ inl e ↦ rw e s | inr e ↦ rw e (e, s) ]

add_client-ne : (c : ℕ) (cs : List ℕ) → add_client c cs ≢ []
unfolding add_client member
add_client-ne c [] = λ e. cc
add_client-ne c (d ∷ ds) = elim (Bool-cases (member c (d ∷ ds))) [
  | inl h ↦ rw h (λ e. cc)
  | inr h ↦ rw h (λ e. cc)
]

delete_client-IsSetOf : (c : ℕ) (cs : List ℕ) → IsSetOf cs → IsSetOf (delete_client c cs)
unfolding delete_client
delete_client-IsSetOf c [] s = tt
delete_client-IsSetOf c (d ∷ ds) (new, s) = elim (Bool-cases (d == c)) [
  | inl e ↦ rw e (delete_client-IsSetOf c ds s)
  | inr e ↦ rw e (ground (arith, member-delete_client d c ds, new), delete_client-IsSetOf c ds s)
]

subscribe-IsFresh :
    (c : ℕ) (topic t : Bytes) (b : Subscribers)
    → topic ≢ t
    → IsFresh t b
    → IsFresh t (subscribe c topic b)
unfolding subscribe
subscribe-IsFresh c topic t [] ne f = (ne, tt)
subscribe-IsFresh c topic t ((n, cs) ∷ b) ne f = elim (Bool-cases (bytes_eq n topic)) [
  | inl e ↦ rw e (f.0, f.1)
  | inr e ↦ rw e (f.0, subscribe-IsFresh c topic t b ne f.1)
]

bytes_eq-ne : (n topic : Bytes) → bytes_eq n topic ≡ false → topic ≢ n
bytes_eq-ne n topic e h = cc (e, (bytes_eq_iff n topic).1 (sym h))

subscribe-IsTidy :
    (c : ℕ) (topic : Bytes) (b : Subscribers)
    → valid_topic topic ≡ true
    → IsTidy b
    → IsTidy (subscribe c topic b)
unfolding subscribe
subscribe-IsTidy c topic [] v t =
    ((tt, tt), ((v, add_client-ne c [], add_client-IsSetOf c [] tt), tt))
subscribe-IsTidy c topic ((n, cs) ∷ b) v ((f, m), ((vn, full, set), es)) =
    elim (Bool-cases (bytes_eq n topic)) [
      | inl e ↦ rw e ((f, m), ((vn, add_client-ne c cs, add_client-IsSetOf c cs set), es))
      | inr e ↦ rw e (
          let (m', es') = subscribe-IsTidy c topic b v (m, es) in
          ((subscribe-IsFresh c topic n b (bytes_eq-ne n topic e) f, m'), ((vn, full, set), es')))
    ]

with_clients-IsTidy :
    (n : Bytes) (cs : List ℕ) (b : Subscribers)
    → valid_topic n ≡ true
    → IsSetOf cs
    → IsFresh n b
    → IsTidy b
    → IsTidy (with_clients n cs b)
unfolding with_clients
with_clients-IsTidy n [] b v s f t = t
with_clients-IsTidy n (c ∷ cs) b v s f (m, es) = ((f, m), ((v, (λ e. cc), s), es))

remove-IsTidy : (c : ℕ) (b : Subscribers) → IsTidy b → IsTidy (remove c b)
unfolding remove
remove-IsTidy c [] t = t
remove-IsTidy c ((n, cs) ∷ b) ((f, m), ((v, full, set), es)) =
    with_clients-IsTidy n (delete_client c cs) (remove c b) v (delete_client-IsSetOf c cs set)
      (remove-IsFresh c n b f) (remove-IsTidy c b (m, es))

module _ {W : Type 0} (net : Connections W) where
  deliver-IsTidy :
      (message : Bytes) (c : ℕ) (b : Subscribers) (w : W)
      → IsTidy b
      → IsTidy (deliver net message c (b, w)).0
  unfolding deliver
  deliver-IsTidy message c b w t = elim (Bool-cases (send net c message w).1) [
    | inl e ↦ rw e t
    | inr e ↦ rw e (remove-IsTidy c b t)
  ]

  deliver_all-IsTidy :
      (message : Bytes) (cs : List ℕ) (s : Subscribers × W)
      → IsTidy s.0
      → IsTidy (deliver_all net message cs s).0
  unfolding deliver_all
  deliver_all-IsTidy message [] s t = t
  deliver_all-IsTidy message (c ∷ cs) s t =
      deliver_all-IsTidy message cs _ (deliver-IsTidy message c s.0 s.1 t)

  on_parts-IsTidy :
      (p : Option (Bytes × Bytes)) (s : Subscribers × W) → IsTidy s.0 → IsTidy (on_parts net p s).0
  unfolding on_parts publish
  on_parts-IsTidy none s t = t
  on_parts-IsTidy (some ([], payload)) s t = t
  on_parts-IsTidy (some (c ∷ topic, payload)) s t =
      elim (Bool-cases (valid_topic (c ∷ topic) && not (bytes_eq payload []))) [
        | inl e ↦ rw e (deliver_all-IsTidy _ _ s t)
        | inr e ↦ rw e t
      ]

  on_pub-IsTidy : (o : Option Bytes) (s : Subscribers × W) → IsTidy s.0 → IsTidy (on_pub net o s).0
  unfolding on_pub
  on_pub-IsTidy none s t = t
  on_pub-IsTidy (some rest) s t = on_parts-IsTidy (cut rest) s t

  on_sub-IsTidy :
      (c : ℕ) (line : Bytes) (o : Option Bytes) (s : Subscribers × W)
      → IsTidy s.0
      → IsTidy (on_sub net c line o s).0
  unfolding on_sub
  on_sub-IsTidy c line none s t = on_pub-IsTidy _ s t
  on_sub-IsTidy c line (some topic) s t = elim (Bool-cases (valid_topic topic)) [
    | inl e ↦ rw e (subscribe-IsTidy c topic s.0 e t)
    | inr e ↦ rw e t
  ]

  -- One step of the broker, for any of its clients: a line is handled, or a client is removed since
  -- its connection ended or a delivery to it failed.
  pub data Step (s : Subscribers × W) : Subscribers × W → Type 0 where
    line : (c : ℕ) (text : Bytes) → Step s (handle_line net c text s)
    gone : (c : ℕ) → Step s (remove c s.0, net.close c s.1)

  pub data Reach (s : Subscribers × W) : Subscribers × W → Type 0 where
    here : Reach s s
    next : {t u : Subscribers × W} → Reach s t → Step t u → Reach s u

  Step-IsTidy : {s t : Subscribers × W} → Step s t → IsTidy s.0 → IsTidy t.0
  unfolding handle_line
  Step-IsTidy {s} (line c text) t = on_sub-IsTidy c _ _ s t
  Step-IsTidy {s} (gone c) t = remove-IsTidy c s.0 t

  -- From a broker without subscribers, whatever lines its clients send and in whatever order they
  -- leave, each topic of its map stands once, is valid and has at least one client, and no client
  -- stands twice.
  pub Reach-IsTidy : (w : W) {s : Subscribers × W} → Reach ([], w) s → IsTidy s.0
  Reach-IsTidy w here = (tt, tt)
  Reach-IsTidy w (next r st) = Step-IsTidy st (Reach-IsTidy w r)
