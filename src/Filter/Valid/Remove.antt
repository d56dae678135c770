-- ===== src/Filter/Valid/Remove.antt =====
-- waku/waku_filter_v2/subscriptions.nim: under the invariant `removeSubscription` writes through no
-- dangling pointer and takes no counter below zero, and it keeps the invariant.
use nwaku.Base.{
  ℕ, ◌+◌, ◌-◌, ◌%◌, ◌^◌, ◌≤◌, ◌≡◌, refl, arith, true, ◌==◌, codes, if◌then◌else◌, some, List, [],
  ◌∷◌, has, ==_iff, Bool-cases, Option-cases, inl, inr,
}
use nwaku.Filter.Tables.{
  PeerId, FilterCriterion, PeerData, find_peer, set_peer, del_peer, find_criterion, exclude,
}
use nwaku.Filter.Subscriptions.{
  FilterSubscriptions, Outcome, ok, err, peers_of, remove_found, remove_criterion, remove_criteria,
  remove_from, remove_subscription,
}
use nwaku.Filter.Counts.{
  find_peer-set_peer, find_peer-del_peer, sub_count, subscribed_to, sub_count-exclude,
}
use nwaku.Filter.Criteria.{exclude-UniqueCriteria}
use nwaku.Filter.Valid.Tables.{
  criteria_of, set_peer-Unique, del_peer-Unique, length-set_peer, length-del_peer,
}
use nwaku.Filter.Valid.Invariant.{IsValid, Sound, Limits}

abbrev set_count : FilterSubscriptions → PeerId → FilterCriterion → PeerData → FilterSubscriptions
set_count s p c d = record s {
  peers_subscribed =
      if d.criteria_count == 0
      then del_peer p s.peers_subscribed
      else set_peer p d s.peers_subscribed;
  subscriptions = exclude c p s.subscriptions;
}

module _ (s : FilterSubscriptions) (p : PeerId) (c : FilterCriterion) (d d' : PeerData)
    (known : find_peer p s.peers_subscribed ≡ some d)
    (subscribed : subscribed_to c p s.subscriptions ≡ true)
    (fewer : d'.criteria_count + 1 ≡ d.criteria_count) (v : IsValid s) where
  counted_lem :
      (q : PeerId)
      → criteria_of q (set_count s p c d').peers_subscribed
        ≡ sub_count q (exclude c p s.subscriptions)
  counted_lem q = ground (
    arith,
    ==_iff p q,
    find_peer-set_peer p d' s.peers_subscribed q,
    find_peer-del_peer p s.peers_subscribed q,
    sub_count-exclude c p s.subscriptions q,
    v.counted q,
  )

  set_count-IsValid : IsValid (set_count s p c d')
  set_count-IsValid = record {
    counted = counted_lem;
    unique = ground (
      arith,
      set_peer-Unique p d' s.peers_subscribed v.unique,
      del_peer-Unique p s.peers_subscribed v.unique,
    );
    one_set = exclude-UniqueCriteria c p s.subscriptions v.one_set;
    within = λ q. ground (
      arith,
      find_peer-set_peer p d' s.peers_subscribed q,
      find_peer-del_peer p s.peers_subscribed q,
      v.within q,
      v.within p,
    );
    room = ground (
      arith,
      (length-set_peer p d' s.peers_subscribed).1 (λ none_left. cc),
      length-del_peer p s.peers_subscribed,
    );
  }

remove_criterion_total :
    {limits : Limits} (p : PeerId) (c : FilterCriterion) (s : FilterSubscriptions)
    → Sound limits s
    → (s' : FilterSubscriptions) × (remove_criterion s p c
          (peers_of (find_criterion c s.subscriptions))
        ≡ some s')
      × Sound limits s'
unfolding remove_criterion
remove_criterion_total p c s (v, config) =
    elim (Bool-cases (has p (peers_of (find_criterion c s.subscriptions)))) [
      | inl subscribed ↦
          let some_criterion : 1 ≤ criteria_of p s.peers_subscribed =
            ground (arith, v.counted p, sub_count-exclude c p s.subscriptions p, ==_iff p p) in
          elim (Option-cases (find_peer p s.peers_subscribed)) [
            | inl missing ↦ absurd (ground arith)
            | inr (d, known) ↦
                let count_lem : criteria_of p s.peers_subscribed ≡ d.criteria_count = rw known in
                let d' = record d { criteria_count = d.criteria_count - 1 } in
                let wrapped : (d.criteria_count + 2 ^ 64 - 1) % 2 ^ 64 ≡ d.criteria_count - 1 =
                  omega (arith, v.within p, config.uint32) in
                (
                  set_count s p c d',
                  rw (subscribed, known, remove_found, wrapped),
                  (
                    set_count-IsValid s p c d d' known subscribed (omega arith) v,
                    record {
                      peers = config.peers;
                      criteria = config.criteria;
                      uint32 = config.uint32;
                      largest = config.largest;
                    },
                  ),
                )
          ]
      | inr other ↦ (s, rw other, (v, config))
    ]

remove_criteria_total :
    {limits : Limits} (p : PeerId) (cs : List FilterCriterion) (s : FilterSubscriptions)
    → Sound limits s
    → (s' : FilterSubscriptions) × (o : Outcome) × (remove_criteria p cs s ≡ some (s', o))
      × Sound limits s'
unfolding remove_criteria
remove_criteria_total p [] s v = (s, ok, refl, v)
remove_criteria_total p (c ∷ cs) s v = elim (Option-cases (find_criterion c s.subscriptions)) [
  | inl missing ↦
      (s, err (codes "Peer was not subscribed to criterion"), rw (missing, remove_criteria), v)
  | inr (peers, found) ↦
      let (s', removed, v') = rw found at (remove_criterion_total p c s v) in
      let (s'', o, more, v'') = remove_criteria_total p cs s' v' in
      (s'', o, rw (found, removed, remove_criteria) more, v'')
]

-- A new time at the entry of a peer.
pub set_peer-IsValid :
    (s : FilterSubscriptions) (p : PeerId) (d d' : PeerData)
    → find_peer p s.peers_subscribed ≡ some d
    → d'.criteria_count ≡ d.criteria_count
    → IsValid s
    → IsValid (record s { peers_subscribed = set_peer p d' s.peers_subscribed })
set_peer-IsValid s p d d' known same v = record {
  counted =
      λ q. ground (arith, ==_iff p q, find_peer-set_peer p d' s.peers_subscribed q, v.counted q);
  unique = set_peer-Unique p d' s.peers_subscribed v.unique;
  one_set = v.one_set;
  within = λ q.
      ground
        (arith, ==_iff p q, find_peer-set_peer p d' s.peers_subscribed q, v.within q, v.within p);
  room = ground (arith, (length-set_peer p d' s.peers_subscribed).1 (λ none_left. cc), v.room);
}

-- From a valid state `removeSubscription` does nothing undefined, and ends in a valid state.
pub remove_subscription_total :
    {limits : Limits} (p : PeerId) (cs : List FilterCriterion) (now : ℕ) (s : FilterSubscriptions)
    → Sound limits s
    → (s' : FilterSubscriptions) × (o : Outcome) × (remove_subscription s p cs now ≡ some (s', o))
      × Sound limits s'
unfolding remove_subscription remove_from
remove_subscription_total p cs now s (v, config) =
    elim (Option-cases (find_peer p s.peers_subscribed)) [
      | inl missing ↦ (s, err (codes "Peer has no subscriptions"), rw missing, (v, config))
      | inr (d, known) ↦
          let d' = record d { last_seen = now } in
          let (s', o, removed, v') =
            remove_criteria_total p cs
              (record s { peers_subscribed = set_peer p d' s.peers_subscribed })
              (
                set_peer-IsValid s p d d' known refl v,
                record {
                  peers = config.peers;
                  criteria = config.criteria;
                  uint32 = config.uint32;
                  largest = config.largest;
                },
              ) in
          (s', o, rw known removed, v')
    ]
