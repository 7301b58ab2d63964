-- ===== src/Broker/Subscribers.antt =====
-- broker/main.go: `subscribe`, `remove` and `publish`.
use tac_os.Base.{
  ℕ, ◌==◌, if◌then◌else◌, Bool, false, ◌||◌, Bytes, codes, bytes_eq, List, [], ◌∷◌, ◌++◌,
}

-- the connections, behind a world `W`
pub record Connections (W : Type 0) : Type 0 where
  -- false if the deadline was not set or the write failed
  pub write : ℕ → Bytes → W → W × Bool
  pub close : ℕ → W → W

abbrev pub Subscribers : Type 0
Subscribers = List (Bytes × List ℕ)

-- `b.subscribers[topic]`
unfoldable pub clients_of : Subscribers → Bytes → List ℕ
clients_of [] topic = []
clients_of ((n, cs) ∷ b) topic = if bytes_eq n topic then cs else clients_of b topic

unfoldable pub member : ℕ → List ℕ → Bool
member c [] = false
member c (d ∷ ds) = d == c || member c ds

-- `clients[c] = struct{}{}`
unfoldable pub add_client : ℕ → List ℕ → List ℕ
add_client c cs = if member c cs then cs else c ∷ cs

-- `delete(clients, c)`
unfoldable pub delete_client : ℕ → List ℕ → List ℕ
delete_client c [] = []
delete_client c (d ∷ ds) = let rest = delete_client c ds in if d == c then rest else d ∷ rest

unfoldable pub subscribe : ℕ → Bytes → Subscribers → Subscribers
subscribe c topic [] = (topic, add_client c []) ∷ []
subscribe c topic ((n, cs) ∷ b) =
    let rest = subscribe c topic b in
    if bytes_eq n topic then (n, add_client c cs) ∷ b else (n, cs) ∷ rest

-- a topic without clients is deleted
unfoldable pub with_clients : Bytes → List ℕ → Subscribers → Subscribers
with_clients topic [] b = b
with_clients topic (c ∷ cs) b = (topic, c ∷ cs) ∷ b

unfoldable pub remove : ℕ → Subscribers → Subscribers
remove c [] = []
remove c ((n, cs) ∷ b) = with_clients n (delete_client c cs) (remove c b)

module _ {W : Type 0} (net : Connections W) where
  unfoldable pub send : ℕ → Bytes → W → W × Bool
  send c message w = net.write c (message ++ b'\n' ∷ []) w

  -- what `publish` does for one recipient
  unfoldable pub deliver : Bytes → ℕ → Subscribers × W → Subscribers × W
  deliver message c (b, w) =
      let (w', sent) = send c message w in if sent then (b, w') else (remove c b, net.close c w')

  -- the deliveries, in the order in which they end
  unfoldable pub deliver_all : Bytes → List ℕ → Subscribers × W → Subscribers × W
  deliver_all message [] s = s
  deliver_all message (c ∷ cs) s = deliver_all message cs (deliver message c s)

  unfoldable pub publish : Bytes → Bytes → Subscribers × W → Subscribers × W
  publish topic payload (b, w) =
      deliver_all (codes "MSG " ++ topic ++ codes " " ++ payload) (clients_of b topic) (b, w)
