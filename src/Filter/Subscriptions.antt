-- ===== src/Filter/Subscriptions.antt =====
-- waku/waku_filter_v2/subscriptions.nim: the operations on the subscriptions of a node. Times are
-- numbers of nanoseconds, and each reading of the clock is an argument; `cleanUp` reads it once for
-- the peers, and again for the sets of peers. A `uint` has 64 bits. A write through a pointer whose
-- entry is deleted is `none`.
use nwaku.Base.{
  ℕ, ◌+◌, ◌-◌, ◌%◌, ◌^◌, Bool, false, not, ltb, leb, ◌==◌, if◌then◌else◌, Option, none, some, List,
  [], ◌∷◌, length, has, codes,
}
use nwaku.Filter.Tables.{
  PeerId, PubsubTopic, ContentTopic, FilterCriterion, PeerData, Peers, Subscriptions, find_peer,
  set_peer, keep_peers, del_peer, find_criterion, include, exclude, keep_set, keep_subscribers,
  criteria_with,
}

pub record FilterSubscriptions : Type 0 where
  pub peers_subscribed : Peers
  pub subscriptions : Subscriptions
  pub subscription_timeout : ℕ
  pub max_peers : ℕ
  pub max_criteria_per_peer : ℕ

-- `Result[void, string]`
pub data Outcome : Type 0 where
  ok : Outcome
  err : List ℕ → Outcome

unfoldable pub init : ℕ → ℕ → ℕ → FilterSubscriptions
init timeout max_peers max_criteria = record {
  peers_subscribed = [];
  subscriptions = [];
  subscription_timeout = timeout;
  max_peers = max_peers;
  max_criteria_per_peer = max_criteria;
}

unfoldable pub is_fresh : ℕ → ℕ → PeerData → Bool
is_fresh timeout now d = leb (now - d.last_seen) timeout

abbrev pub fresh? : ℕ → ℕ → Option PeerData → Bool
fresh? timeout now none = false
fresh? timeout now (some d) = is_fresh timeout now d

unfoldable pub is_subscribed : FilterSubscriptions → PeerId → ℕ → Bool
unfolding is_fresh
is_subscribed s p now = fresh? s.subscription_timeout now (find_peer p s.peers_subscribed)

abbrev pub criteria_listed : Subscriptions → PeerId → Option PeerData → List FilterCriterion
criteria_listed subs p none = []
criteria_listed subs p (some d) = if d.criteria_count == 0 then [] else criteria_with p subs

unfoldable pub get_peer_subscriptions : FilterSubscriptions → PeerId → List FilterCriterion
unfolding criteria_with
get_peer_subscriptions s p = criteria_listed s.subscriptions p (find_peer p s.peers_subscribed)

abbrev pub peers_of : Option (List PeerId) → List PeerId
peers_of none = []
peers_of (some ps) = ps

unfoldable pub find_subscribed_peers :
    FilterSubscriptions → PubsubTopic → ContentTopic → ℕ → List PeerId
unfolding keep_set
find_subscribed_peers s pubsub content now =
    keep_set (λ p. is_subscribed s p now)
      (peers_of (find_criterion (pubsub, content) s.subscriptions))

unfoldable pub remove_peer : FilterSubscriptions → PeerId → FilterSubscriptions
remove_peer s p = record s { peers_subscribed = del_peer p s.peers_subscribed }

unfoldable pub remove_peers : FilterSubscriptions → List PeerId → FilterSubscriptions
remove_peers s ps = record s {
  peers_subscribed = keep_peers (λ p d. not (has p ps)) s.peers_subscribed;
}

unfoldable pub clean_up : FilterSubscriptions → ℕ → ℕ → FilterSubscriptions
unfolding is_fresh
clean_up s now later =
    let s' = record s {
      peers_subscribed =
          keep_peers (λ p d. is_fresh s.subscription_timeout now d) s.peers_subscribed;
    } in
    record s' { subscriptions = keep_subscribers (λ p. is_subscribed s' p later) s.subscriptions }

abbrev pub refreshed : FilterSubscriptions → PeerId → ℕ → Option PeerData → FilterSubscriptions
refreshed s p now none = s
refreshed s p now (some d) = record s {
  peers_subscribed = set_peer p (record d { last_seen = now }) s.peers_subscribed;
}

unfoldable pub refresh_subscription : FilterSubscriptions → PeerId → ℕ → FilterSubscriptions
refresh_subscription s p now = refreshed s p now (find_peer p s.peers_subscribed)

-- One round of the loop of `addSubscription`: what `peerData` points to, and the criteria.
unfoldable pub add_criterion :
    PeerId → FilterCriterion → PeerData × Subscriptions → PeerData × Subscriptions
add_criterion p c (d, subs) =
    if has p (peers_of (find_criterion c subs))
    then (d, subs)
    else (record d { criteria_count = (d.criteria_count + 1) % 2 ^ 64 }, include c p subs)

unfoldable pub add_criteria :
    PeerId → List FilterCriterion → PeerData × Subscriptions → PeerData × Subscriptions
unfolding add_criterion
add_criteria p [] x = x
add_criteria p (c ∷ cs) x = add_criteria p cs (add_criterion p c x)

unfoldable pub add_for :
    FilterSubscriptions → PeerId → List FilterCriterion → PeerData → FilterSubscriptions × Outcome
unfolding add_criteria
add_for s p criteria d =
    let (d', subs) = add_criteria p criteria (d, s.subscriptions) in
    (record s { peers_subscribed = set_peer p d' s.peers_subscribed; subscriptions = subs }, ok)

unfoldable pub add_to :
    FilterSubscriptions
    → PeerId
    → List FilterCriterion
    → ℕ
    → Option PeerData
    → FilterSubscriptions × Outcome
unfolding add_for
add_to s p criteria now (some d) =
    if ltb s.max_criteria_per_peer ((d.criteria_count + length criteria) % 2 ^ 64)
    then (s, err (codes "peer has reached maximum number of filter criteria"))
    else add_for s p criteria (record d { last_seen = now })
add_to s p criteria now none =
    if leb s.max_peers (length s.peers_subscribed)
    then (s, err (codes "node has reached maximum number of subscriptions"))
    else add_for s p criteria (record { last_seen = now; criteria_count = 0 })

unfoldable pub add_subscription :
    FilterSubscriptions → PeerId → List FilterCriterion → ℕ → FilterSubscriptions × Outcome
unfolding add_to
add_subscription s p criteria now = add_to s p criteria now (find_peer p s.peers_subscribed)

-- The lines under `missingOrexcl(peerId) == false`.
unfoldable pub remove_found :
    FilterSubscriptions → PeerId → FilterCriterion → Option PeerData → Option FilterSubscriptions
remove_found s p c none = none
remove_found s p c (some d) =
    let n = (d.criteria_count + 2 ^ 64 - 1) % 2 ^ 64 in
    some (record s {
      peers_subscribed =
          if n == 0
          then del_peer p s.peers_subscribed
          else set_peer p (record d { criteria_count = n }) s.peers_subscribed;
      subscriptions = exclude c p s.subscriptions;
    })

-- One round of the loop of `removeSubscription` at a criterion that has the given peers.
unfoldable pub remove_criterion :
    FilterSubscriptions → PeerId → FilterCriterion → List PeerId → Option FilterSubscriptions
unfolding remove_found
remove_criterion s p c peers =
    if has p peers then remove_found s p c (find_peer p s.peers_subscribed) else some s

unfoldable pub remove_criteria :
    PeerId → List FilterCriterion → FilterSubscriptions → Option (FilterSubscriptions × Outcome)
unfolding remove_criterion
remove_criteria p [] s = some (s, ok)
remove_criteria p (c ∷ cs) s = elim (find_criterion c s.subscriptions) [
  | none ↦ some (s, err (codes "Peer was not subscribed to criterion"))
  | some peers ↦ elim (remove_criterion s p c peers) [
    | none ↦ none
    | some s' ↦ remove_criteria p cs s'
  ]
]

unfoldable pub remove_from :
    FilterSubscriptions
    → PeerId
    → List FilterCriterion
    → ℕ
    → Option PeerData
    → Option (FilterSubscriptions × Outcome)
unfolding remove_criteria
remove_from s p criteria now none = some (s, err (codes "Peer has no subscriptions"))
remove_from s p criteria now (some d) =
    remove_criteria p criteria
      (record s { peers_subscribed = set_peer p (record d { last_seen = now }) s.peers_subscribed })

unfoldable pub remove_subscription :
    FilterSubscriptions → PeerId → List FilterCriterion → ℕ → Option (FilterSubscriptions × Outcome)
unfolding remove_from
remove_subscription s p criteria now = remove_from s p criteria now (find_peer p s.peers_subscribed)
