-- ===== src/Broker/Members.antt =====
-- broker/main.go: who is subscribed to what, after `subscribe` and `remove`.
use tac_os.Base.{
  ℕ, ◌≡◌, ◌≢◌, refl, arith, ◌==◌, if◌then◌else◌, Bool, not, ◌&&◌, ◌||◌, Bool-cases, inl, inr, Bytes,
  bytes_eq, bytes_eq_iff, bytes_eq-other, ==→≡, List, [], ◌∷◌, All,
}
use tac_os.Broker.Subscribers.{
  Subscribers, clients_of, member, add_client, delete_client, subscribe, with_clients, remove,
}

abbrev pub is_subscribed : Subscribers → ℕ → Bytes → Bool
is_subscribed b c topic = member c (clients_of b topic)

-- No entry is about the topic.
abbrev pub IsFresh : Bytes → Subscribers → Type 0
IsFresh topic b = All (λ (e : Bytes × List ℕ). e.0 ≢ topic) b

-- A topic stands once.
abbrev pub IsMap : Subscribers → Type 0
IsMap [] = Unit
IsMap ((n, cs) ∷ b) = IsFresh n b × IsMap b

pub member-add_client :
    (d c : ℕ) (cs : List ℕ) → member d (add_client c cs) ≡ (member d cs || c == d)
unfolding add_client member
member-add_client d c cs = elim (Bool-cases (c == d)) [
  | inl h ↦ ground (arith, ==→≡ c d h)
  | inr h ↦ ground arith
]

pub member-delete_client :
    (d c : ℕ) (cs : List ℕ) → member d (delete_client c cs) ≡ (member d cs && not (c == d))
unfolding delete_client member
member-delete_client d c [] = refl
member-delete_client d c (x ∷ xs) = ground (arith, member-delete_client d c xs)

-- After `subscribe` the client is subscribed to the topic; every other subscription is as before.
pub subscribe_lem :
    (b : Subscribers) (c d : ℕ) (topic t : Bytes)
    → is_subscribed (subscribe c topic b) d t ≡ (is_subscribed b d t || c == d && bytes_eq topic t)
unfolding subscribe clients_of member
subscribe_lem [] c d topic t = elim (Bool-cases (bytes_eq topic t)) [
  | inl e ↦ rw e (ground (arith, member-add_client d c []))
  | inr e ↦ rw e (ground arith)
]
subscribe_lem ((n, cs) ∷ b) c d topic t = elim (Bool-cases (bytes_eq n topic)) [
  | inl e ↦ rw⁻¹ ((bytes_eq_iff n topic).0 e) (elim (Bool-cases (bytes_eq n t)) [
    | inl h ↦ rw (h, (bytes_eq_iff n n).1 refl) (ground (arith, h, member-add_client d c cs))
    | inr h ↦ rw (h, (bytes_eq_iff n n).1 refl) (ground (arith, h))
  ])
  | inr e ↦ rw e (elim (Bool-cases (bytes_eq n t)) [
    | inl h ↦ rw h (ground (arith, bytes_eq-other n topic t e h))
    | inr h ↦ rw h (subscribe_lem b c d topic t)
  ])
]

clients_of-IsFresh : (b : Subscribers) (t : Bytes) → IsFresh t b → clients_of b t ≡ []
unfolding clients_of
clients_of-IsFresh [] t f = refl
clients_of-IsFresh ((n, cs) ∷ b) t (ne, f) =
    ground (arith, bytes_eq_iff n t, clients_of-IsFresh b t f)

-- The lookup of a topic whose clients are `cs`, with the entry dropped when there are none.
clients_of-with_clients :
    (n t : Bytes) (cs : List ℕ) (b : Subscribers)
    → IsFresh n b
    → clients_of (with_clients n cs b) t ≡ (if bytes_eq n t then cs else clients_of b t)
unfolding with_clients clients_of
clients_of-with_clients n t (c ∷ cs) b f = refl
clients_of-with_clients n t [] b f = elim (Bool-cases (bytes_eq n t)) [
  | inl e ↦ rw e (rw⁻¹ ((bytes_eq_iff n t).0 e) (clients_of-IsFresh b n f))
  | inr e ↦ rw e refl
]

pub with_clients-IsFresh :
    (n t : Bytes) (cs : List ℕ) (b : Subscribers)
    → n ≢ t
    → IsFresh t b
    → IsFresh t (with_clients n cs b)
unfolding with_clients
with_clients-IsFresh n t [] b ne f = f
with_clients-IsFresh n t (c ∷ cs) b ne f = (ne, f)

pub remove-IsFresh : (c : ℕ) (t : Bytes) (b : Subscribers) → IsFresh t b → IsFresh t (remove c b)
unfolding remove
remove-IsFresh c t [] f = tt
remove-IsFresh c t ((n, cs) ∷ b) (ne, f) = with_clients-IsFresh n t _ _ ne (remove-IsFresh c t b f)

-- After `remove` the client is subscribed to nothing; every other subscription is as before.
pub remove_lem :
    (b : Subscribers) (c d : ℕ) (t : Bytes)
    → IsMap b
    → is_subscribed (remove c b) d t ≡ (is_subscribed b d t && not (c == d))
unfolding remove clients_of member
remove_lem [] c d t m = refl
remove_lem ((n, cs) ∷ b) c d t (f, m) =
    rw (clients_of-with_clients n t (delete_client c cs) (remove c b) (remove-IsFresh c n b f))
      (elim (Bool-cases (bytes_eq n t)) [
        | inl e ↦ rw e (member-delete_client d c cs)
        | inr e ↦ rw e (remove_lem b c d t m)
      ])

with_clients-IsMap :
    (n : Bytes) (cs : List ℕ) (b : Subscribers)
    → IsFresh n b
    → IsMap b
    → IsMap (with_clients n cs b)
unfolding with_clients
with_clients-IsMap n [] b f m = m
with_clients-IsMap n (c ∷ cs) b f m = (f, m)

pub remove-IsMap : (c : ℕ) (b : Subscribers) → IsMap b → IsMap (remove c b)
unfolding remove
remove-IsMap c [] m = tt
remove-IsMap c ((n, cs) ∷ b) (f, m) =
    with_clients-IsMap n (delete_client c cs) (remove c b) (remove-IsFresh c n b f)
      (remove-IsMap c b m)
