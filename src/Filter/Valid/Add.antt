-- ===== src/Filter/Valid/Add.antt =====
-- waku/waku_filter_v2/subscriptions.nim: `addSubscription` keeps the invariant.
use nwaku.Base.{
  ℕ, ◌+◌, ◌%◌, ◌^◌, ◌≤◌, ◌≡◌, ◌≢◌, sym, subst, arith, ◌==◌, ltb, leb, none, List, length, ==_iff,
  Bool-cases, Option-cases, inl, inr,
}
use nwaku.Filter.Tables.{PeerId, FilterCriterion, PeerData, Subscriptions, find_peer, set_peer}
use nwaku.Filter.Subscriptions.{
  FilterSubscriptions, add_criteria, add_for, add_to, add_subscription,
}
use nwaku.Filter.Counts.{find_peer-set_peer, sub_count}
use nwaku.Filter.Valid.Tables.{criteria_of, set_peer-Unique, length-set_peer}
use nwaku.Filter.Valid.Invariant.{
  IsValid, IsConfig, Limits, add_criteria-Adds, add_criteria-UniqueCriteria,
}

module _ {limits : Limits} (s : FilterSubscriptions) (p : PeerId) (cs : List FilterCriterion) where
  add_for-IsValid :
      (d : PeerData)
      → IsValid s
      → IsConfig limits s
      → d.criteria_count ≡ criteria_of p s.peers_subscribed
      → d.criteria_count + length cs ≤ s.max_criteria_per_peer
      → ((d' : PeerData) → length (set_peer p d' s.peers_subscribed) ≤ s.max_peers)
      → IsValid (add_for s p cs d).0
  unfolding add_for
  add_for-IsValid d v config is small room =
      let x : PeerData × Subscriptions = (d, s.subscriptions) in
      let y = add_criteria p cs x in
      let adds = λ (q : PeerId). add_criteria-Adds p cs x q (omega (arith, config.uint32)) in
      let own : y.0.criteria_count ≡ sub_count p y.1 =
        (adds p).keeps_count (omega (arith, v.counted p)) in
      record {
        counted = λ q. elim (Bool-cases (p == q)) [
          | inl here ↦
              rw (find_peer-set_peer p y.0 s.peers_subscribed q, here)
                (subst (λ r. y.0.criteria_count ≡ sub_count r y.1) ((==_iff p q).0 here) own)
          | inr elsewhere ↦
              rw (find_peer-set_peer p y.0 s.peers_subscribed q, elsewhere)
                (omega (arith, v.counted q, (adds q).others elsewhere))
        ];
        unique = set_peer-Unique p y.0 s.peers_subscribed v.unique;
        one_set = add_criteria-UniqueCriteria p cs x v.one_set;
        within = λ q.
            ground
              (arith, find_peer-set_peer p y.0 s.peers_subscribed q, (adds p).at_most, v.within q);
        room = room y.0;
      }

  -- At a peer with the criteria that the request adds, within the limit if the peer is new.
  pub add_subscription-IsValid :
      (now : ℕ)
      → IsValid s
      → IsConfig limits s
      → length cs ≤ 100
      → IsValid (add_subscription s p cs now).0
  unfolding add_subscription add_to
  add_subscription-IsValid now v config short =
      elim (Option-cases (find_peer p s.peers_subscribed)) [
        | inl new ↦ rw new (elim (Bool-cases (leb s.max_peers (length s.peers_subscribed))) [
          | inl full ↦ rw full v
          | inr space ↦ rw space (
              add_for-IsValid _ v config (rw new) (omega (arith, config.largest))
                (λ d'. ground (arith, (length-set_peer p d' s.peers_subscribed).0 new)))
        ])
        | inr (d, known) ↦
            let count_lem : criteria_of p s.peers_subscribed ≡ d.criteria_count = rw known in
            let found : find_peer p s.peers_subscribed ≢ none = λ none_left. cc in
            rw known
              (elim (Bool-cases
                (ltb s.max_criteria_per_peer ((d.criteria_count + length cs) % 2 ^ 64))) [
                  | inl over ↦ rw over v
                  | inr fits ↦ rw fits (
                      add_for-IsValid (record d { last_seen = now }) v config (sym count_lem)
                        (ground (arith, v.within p, config.uint32))
                        (λ d'. ground (arith, (length-set_peer p d' s.peers_subscribed).1 found)))
                ])
      ]

module _ (s : FilterSubscriptions) (p : PeerId) (cs : List FilterCriterion) (now : ℕ) where
  pub max_criteria-add_subscription :
      (add_subscription s p cs now).0.max_criteria_per_peer ≡ s.max_criteria_per_peer
  unfolding add_subscription add_to add_for
  max_criteria-add_subscription = ground arith

  pub max_peers-add_subscription : (add_subscription s p cs now).0.max_peers ≡ s.max_peers
  unfolding add_subscription add_to add_for
  max_peers-add_subscription = ground arith
