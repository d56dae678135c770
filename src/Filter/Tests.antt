-- ===== src/Filter/Tests.antt =====
-- Concrete runs of a filter node, and its theorems at concrete inputs.
use nwaku.Base.{
  ℕ, ◌-◌, ◌≤◌, ◌≡◌, refl, arith, not, ◌==◌, ◌||◌, ◌&&◌, leb, some, List, [], ◌∷◌, length, has,
}
use nwaku.Filter.Tables.{
  PeerId, ContentTopic, find_peer, set_peer, find_criterion, include, exclude, del_peer, keep_peers,
  keep_subscribers, keep_set,
}
use nwaku.Filter.Subscriptions.{
  FilterSubscriptions, init, find_subscribed_peers, add_subscription, is_subscribed,
  remove_subscription, clean_up, remove_peer,
}
use nwaku.Filter.Protocol.{
  FilterSubscribeRequest, FilterSubscribeType, subscribe, unsubscribe, unsubscribe_all, accepted,
  Readings, subscribe_peer, unsubscribe_peer, unsubscribe_all_of,
}
use nwaku.Filter.Counts.{sub_count, subscribed_to}
use nwaku.Filter.Valid.Tables.{criteria_of, Unique}
use nwaku.Filter.Valid.Invariant.{Sound}
use nwaku.Filter.Runs.{Event, request, maintenance, run, run-init-IsValid}
use nwaku.Filter.Delivery.{subscribe_peer_delivers}
use nwaku.Filter.Withdrawal.{unsubscribe_peer_delivers}

abbrev at_time : ℕ → Readings
at_time n = record { first = n; second = n; third = n }

abbrev asking : FilterSubscribeType → List ContentTopic → FilterSubscribeRequest
asking type topics = record {
  request_id = [];
  filter_subscribe_type = type;
  pubsub_topic = some 1;
  content_topics = topics;
}

abbrev events : List Event
events =
    request 7 (asking subscribe (11 ∷ 12 ∷ [])) (at_time 100)
    ∷ request 8 (asking subscribe (11 ∷ [])) (at_time 110)
    ∷ request 7 (asking unsubscribe (11 ∷ [])) (at_time 120)
    ∷ maintenance (λ p. p == 7) (at_time 130)
    ∷ request 7 (asking unsubscribe_all []) (at_time 140)
    ∷ []

run-init-IsValid_example :
    (s : FilterSubscriptions) × (run events (init 300 10 100) ≡ some s)
    × ((p : PeerId)
        → (criteria_of p s.peers_subscribed ≡ sub_count p s.subscriptions)
          × (criteria_of p s.peers_subscribed ≤ 100))
    × Unique s.peers_subscribed
    × (length s.peers_subscribed ≤ 10)
run-init-IsValid_example =
    run-init-IsValid 300 10 100 events (omega arith) (omega arith)
      (refl, (refl, (refl, (refl, (refl, tt)))))

-- Peer 7 has criteria (1, 11) and (1, 12), peer 8 has (1, 11).
abbrev two_peers : FilterSubscriptions
two_peers = record {
  peers_subscribed =
      (7, record { last_seen = 100; criteria_count = 2 })
      ∷ (8, record { last_seen = 110; criteria_count = 1 })
      ∷ [];
  subscriptions = ((1, 11), 7 ∷ 8 ∷ []) ∷ ((1, 12), 7 ∷ []) ∷ [];
  subscription_timeout = 300;
  max_peers = 10;
  max_criteria_per_peer = 100;
}

abbrev one_peer : FilterSubscriptions
one_peer = record two_peers {
  peers_subscribed = (7, record { last_seen = 100; criteria_count = 2 }) ∷ [];
  subscriptions = ((1, 11), 7 ∷ []) ∷ ((1, 12), 7 ∷ []) ∷ [];
}

abbrev fewer_topics : FilterSubscriptions
fewer_topics = record two_peers {
  peers_subscribed =
      (7, record { last_seen = 120; criteria_count = 1 })
      ∷ (8, record { last_seen = 110; criteria_count = 1 })
      ∷ [];
  subscriptions = ((1, 11), 8 ∷ []) ∷ ((1, 12), 7 ∷ []) ∷ [];
}

abbrev only_eight : FilterSubscriptions
only_eight = record two_peers {
  peers_subscribed = (8, record { last_seen = 110; criteria_count = 1 }) ∷ [];
  subscriptions = ((1, 11), 8 ∷ []) ∷ [];
}

subscribed_lem : subscribe_peer one_peer 8 (some 1) (11 ∷ []) (at_time 110) ≡ (two_peers, accepted)
unfolding subscribe_peer add_subscription find_peer set_peer find_criterion include has
subscribed_lem = refl

unsubscribed_lem :
    unsubscribe_peer two_peers 7 (some 1) (11 ∷ []) (at_time 120) ≡ some (fewer_topics, accepted)
unfolding unsubscribe_peer remove_subscription find_peer set_peer find_criterion exclude has
unsubscribed_lem = refl

unsubscribed_all_lem : unsubscribe_all_of two_peers 7 (at_time 120) ≡ (only_eight, accepted)
unfolding unsubscribe_all_of is_subscribed clean_up remove_peer find_peer keep_peers del_peer
    keep_subscribers keep_set
unsubscribed_all_lem = refl

two_peers-Sound : Sound (record { peers = 10; criteria = 100 }) two_peers
two_peers-Sound = (
  record {
    counted = λ p. unfold find_peer sub_count has in ground arith;
    unique = unfold find_peer in (refl, (refl, tt));
    one_set = unfold find_criterion in (refl, (refl, tt));
    within = λ p. unfold find_peer in ground arith;
    room = omega arith;
  },
  record { peers = refl; criteria = refl; uint32 = omega arith; largest = omega arith },
)

subscribe_peer_delivers_example : has 8 (find_subscribed_peers two_peers 1 11 400) ≡ (
    leb (400 - 110) 300
    && (((1 == 1) && has 11 (11 ∷ [])) || subscribed_to (1, 11) 8 one_peer.subscriptions))
subscribe_peer_delivers_example =
    subscribe_peer_delivers one_peer 8 1 (11 ∷ []) (at_time 110) two_peers subscribed_lem 8 1 11 400

unsubscribe_peer_delivers_example : has 7 (find_subscribed_peers fewer_topics 1 11 400) ≡ (
    leb (400 - 120) 300
    && (not ((1 == 1) && has 11 (11 ∷ [])) && subscribed_to (1, 11) 7 two_peers.subscriptions))
unsubscribe_peer_delivers_example =
    unsubscribe_peer_delivers two_peers 7 1 (11 ∷ []) (at_time 120) fewer_topics two_peers-Sound
      unsubscribed_lem 7 1 11 400
