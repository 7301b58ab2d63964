-- ===== src/Broker/Tests.antt =====
-- Runs of the broker at concrete inputs. The world is the log of what was written, the last first;
-- a write to client 2 fails.
use tac_os.Base.{
  ℕ, ◌≡◌, refl, not, ◌&&◌, ◌||◌, ◌==◌, codes, bytes_eq, bytes_eq_iff, Bytes, List, [], ◌∷◌,
}
use tac_os.Broker.Delivery.{publish_lem}
use tac_os.Broker.Lines.{handle_line}
use tac_os.Broker.Members.{IsMap, is_subscribed}
use tac_os.Broker.Subscribers.{
  Connections, Subscribers, clients_of, member, subscribe, remove, publish,
}
use tac_os.Broker.Tidy.{IsTidy, here, next, line, gone, Reach-IsTidy}

abbrev log : Connections (List (ℕ × Bytes))
log = record { write = λ c m w. ((c, m) ∷ w, not (c == 2)); close = λ c w. w }

abbrev two_topics : Subscribers
two_topics = (codes "pos", 1 ∷ 2 ∷ []) ∷ (codes "map", 2 ∷ []) ∷ []

two_topics_published :
    publish log (codes "pos") (codes "4 2") (two_topics, [])
    ≡ ((codes "pos", 1 ∷ []) ∷ [], (2, codes "MSG pos 4 2\n") ∷ (1, codes "MSG pos 4 2\n") ∷ [])
unfolding publish clients_of tac_os.Broker.Subscribers.deliver_all tac_os.Broker.Subscribers.deliver
    tac_os.Broker.Subscribers.send remove tac_os.Broker.Subscribers.delete_client
    tac_os.Broker.Subscribers.with_clients bytes_eq
two_topics_published = refl

two_topics-IsMap : IsMap two_topics
unfolding bytes_eq
two_topics-IsMap = (((λ e. cc ((bytes_eq_iff (codes "map") (codes "pos")).1 e)), tt), (tt, tt))

Reach-IsTidy_example : IsTidy (remove 1 (handle_line log 1 (codes "SUB pos") ([], [])).0)
Reach-IsTidy_example = Reach-IsTidy log [] (next (next here (line 1 (codes "SUB pos"))) (gone 1))

publish_lem_example :
    is_subscribed (publish log (codes "pos") (codes "4 2") (two_topics, [])).0 2 (codes "map") ≡ (
      is_subscribed two_topics 2 (codes "map")
      && (not (2 == 2) || not (is_subscribed two_topics 2 (codes "pos"))))
publish_lem_example =
    publish_lem log (λ c. not (c == 2)) (λ c m w. refl) (codes "pos") (codes "4 2") two_topics [] 2
      (codes "map") two_topics-IsMap
