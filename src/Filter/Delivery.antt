-- ===== src/Filter/Delivery.antt =====
-- waku/waku_filter_v2: which peers a message is pushed to after the requests of clients.
use nwaku.Base.{
  ℕ, ◌-◌, ◌≡◌, refl, ap, subst, arith, Bool, false, not, ◌==◌, ◌||◌, ◌&&◌, leb, if◌then◌else◌,
  Option, none, some, List, [], ◌∷◌, has, ==_iff, Bool-cases, inl, inr, ◌∙◌,
}
use nwaku.Filter.Tables.{
  PeerId, PubsubTopic, ContentTopic, FilterCriterion, PeerData, Subscriptions, same, find_peer,
  find_criterion,
}
use nwaku.Filter.Subscriptions.{
  FilterSubscriptions, peers_of, is_subscribed, is_fresh, find_subscribed_peers, add_criterion,
  add_criteria, add_for, add_to, add_subscription,
}
use nwaku.Filter.Protocol.{accepted, Readings, criteria, subscribe_peer}
use nwaku.Filter.Counts.{has-keep_set, subscribed_to, find_peer-set_peer}
use nwaku.Filter.Criteria.{subscribed_to-same, subscribed_to-include}

-- Whether a list has a criterion.
abbrev pub among : FilterCriterion → List FilterCriterion → Bool
among e [] = false
among e (c ∷ cs) = same c e || among e cs

pub among-criteria :
    (pubsub : PubsubTopic) (seen topics : List ContentTopic) (x : PubsubTopic) (y : ContentTopic)
    → among (x, y) (criteria pubsub seen topics)
      ≡ ((pubsub == x) && (has y topics && not (has y seen)))
unfolding criteria has
among-criteria pubsub seen [] x y = ground arith
among-criteria pubsub seen (t ∷ ts) x y = elim (Bool-cases (t == y)) [
  | inl here ↦
      let is : t ≡ y = (==_iff t y).0 here in
      ground (arith, among-criteria pubsub (t ∷ seen) ts x y, ap (λ z. has z seen) is)
  | inr elsewhere ↦ ground (arith, among-criteria pubsub (t ∷ seen) ts x y)
]

subscribed_to-add_criteria :
    (p : PeerId) (cs : List FilterCriterion) (x : PeerData × Subscriptions) (e : FilterCriterion)
    (q : PeerId)
    → subscribed_to e q (add_criteria p cs x).1
      ≡ (((p == q) && among e cs) || subscribed_to e q x.1)
unfolding add_criteria
subscribed_to-add_criteria p [] (d, subs) e q = ground arith
subscribed_to-add_criteria p (c ∷ cs) (d, subs) e q =
    subscribed_to-add_criteria p cs (add_criterion p c (d, subs)) e q
    ∙ unfold add_criterion in
      ground (arith, subscribed_to-same c e p q subs, subscribed_to-include c p subs e q)

last_seen-add_criteria :
    (p : PeerId) (cs : List FilterCriterion) (x : PeerData × Subscriptions)
    → (add_criteria p cs x).0.last_seen ≡ x.0.last_seen
unfolding add_criteria add_criterion
last_seen-add_criteria p [] x = refl
last_seen-add_criteria p (c ∷ cs) (d, subs) =
    ground (arith, last_seen-add_criteria p cs (add_criterion p c (d, subs)))

-- The entry of a peer when its criteria are added.
abbrev entry : ℕ → Option PeerData → PeerData
entry now none = record { last_seen = now; criteria_count = 0 }
entry now (some d) = record d { last_seen = now }

-- What an accepted request for criteria does to the state.
subscribe_peer-adds :
    (s : FilterSubscriptions) (p : PeerId) (pubsub : PubsubTopic) (topics : List ContentTopic)
    (t : Readings) (s' : FilterSubscriptions)
    → subscribe_peer s p (some pubsub) topics t ≡ (s', accepted)
    → (add_for s p (criteria pubsub [] topics) (entry t.first (find_peer p s.peers_subscribed))).0
      ≡ s'
unfolding subscribe_peer add_subscription add_to
subscribe_peer-adds s p pubsub topics t s' e = ground arith

last_seen-entry : (now : ℕ) (o : Option PeerData) → (entry now o).last_seen ≡ now
last_seen-entry now none = refl
last_seen-entry now (some d) = refl

pub subscribe_peer_delivers :
    (s : FilterSubscriptions) (p : PeerId) (pubsub : PubsubTopic) (topics : List ContentTopic)
    (t : Readings) (s' : FilterSubscriptions)
    → subscribe_peer s p (some pubsub) topics t ≡ (s', accepted)
    → (q : PeerId) (x : PubsubTopic) (y : ContentTopic) (now : ℕ)
    → has q (find_subscribed_peers s' x y now) ≡ (
        if p == q
        then leb (now - t.first) s.subscription_timeout
          && (((pubsub == x) && has y topics) || subscribed_to (x, y) p s.subscriptions)
        else has q (find_subscribed_peers s x y now))
unfolding find_subscribed_peers add_for is_subscribed
subscribe_peer_delivers s p pubsub topics t s' e q x y now =
    subst
      (λ s'. has q (find_subscribed_peers s' x y now) ≡ (
        if p == q
        then leb (now - t.first) s.subscription_timeout
          && (((pubsub == x) && has y topics) || subscribed_to (x, y) p s.subscriptions)
        else has q (find_subscribed_peers s x y now)))
      (subscribe_peer-adds s p pubsub topics t s' e)
      (let d = entry t.first (find_peer p s.peers_subscribed) in
        let cs = criteria pubsub [] topics in
        let after = add_criteria p cs (d, s.subscriptions) in
        rw (has-keep_set) (
          unfold is_fresh has in
          ground (
            arith,
            find_peer-set_peer p after.0 s.peers_subscribed q,
            last_seen-add_criteria p cs (d, s.subscriptions),
            last_seen-entry t.first (find_peer p s.peers_subscribed),
            subscribed_to-add_criteria p cs (d, s.subscriptions) (x, y) q,
            among-criteria pubsub [] topics x y,
            subscribed_to-same (x, y) (x, y) p q s.subscriptions,
            has-keep_set (λ p. is_subscribed s p now)
                (peers_of (find_criterion (x, y) s.subscriptions)) q,
          )))
