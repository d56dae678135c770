-- ===== src/Filter/Valid/Invariant.antt =====
-- waku/waku_filter_v2/subscriptions.nim: the invariant of the two tables, and the loop of
-- `addSubscription`.
use nwaku.Base.{ℕ, ◌+◌, ◌^◌, ◌≤◌, ◌<◌, ◌≡◌, refl, arith, false, ◌==◌, List, [], ◌∷◌, length}
use nwaku.Filter.Tables.{PeerId, FilterCriterion, PeerData, Subscriptions}
use nwaku.Filter.Subscriptions.{FilterSubscriptions, add_criterion, add_criteria}
use nwaku.Filter.Counts.{sub_count, sub_count-include}
use nwaku.Filter.Criteria.{UniqueCriteria, include-UniqueCriteria}
use nwaku.Filter.Valid.Tables.{Unique, criteria_of}

-- Each peer's counter is the number of criteria whose set has the peer, so a set has only peers of
-- the table; no criterion has
-- two entries, and the limits of the node are kept.
pub record IsValid (s : FilterSubscriptions) : Type 0 where
  pub counted : (p : PeerId) → criteria_of p s.peers_subscribed ≡ sub_count p s.subscriptions
  pub unique : Unique s.peers_subscribed
  pub one_set : UniqueCriteria s.subscriptions
  pub within : (p : PeerId) → criteria_of p s.peers_subscribed ≤ s.max_criteria_per_peer
  pub room : length s.peers_subscribed ≤ s.max_peers

-- The limits that a node was made with.
pub record Limits : Type 0 where
  pub peers : ℕ
  pub criteria : ℕ

-- The limits are these; the one on criteria is a `uint32`, and admits the largest request.
pub record IsConfig (limits : Limits) (s : FilterSubscriptions) : Type 0 where
  pub peers : s.max_peers ≡ limits.peers
  pub criteria : s.max_criteria_per_peer ≡ limits.criteria
  pub uint32 : s.max_criteria_per_peer < 2 ^ 32
  pub largest : 100 ≤ s.max_criteria_per_peer

-- A state that is valid, with these limits.
abbrev pub Sound : Limits → FilterSubscriptions → Type 0
Sound limits s = IsValid s × IsConfig limits s

-- What the loop of `addSubscription` does to the counter of its peer, and to the criteria of a peer.
pub record Adds (p q : PeerId) (n : ℕ) (x y : PeerData × Subscriptions) : Type 0 where
  pub keeps_count : x.0.criteria_count ≡ sub_count p x.1 → y.0.criteria_count ≡ sub_count p y.1
  pub at_most : y.0.criteria_count ≤ x.0.criteria_count + n
  pub others : (p == q) ≡ false → sub_count q y.1 ≡ sub_count q x.1

add_criterion-Adds :
    (p : PeerId) (c : FilterCriterion) (x : PeerData × Subscriptions) (q : PeerId)
    → x.0.criteria_count + 1 < 2 ^ 64
    → Adds p q 1 x (add_criterion p c x)
unfolding add_criterion
add_criterion-Adds p c (d, subs) q small = record {
  keeps_count = λ h. ground (arith, sub_count-include c p subs p);
  at_most = ground arith;
  others = λ h. ground (arith, sub_count-include c p subs q);
}

pub add_criteria-Adds :
    (p : PeerId) (cs : List FilterCriterion) (x : PeerData × Subscriptions) (q : PeerId)
    → x.0.criteria_count + length cs < 2 ^ 64
    → Adds p q (length cs) x (add_criteria p cs x)
unfolding add_criteria
add_criteria-Adds p [] x q small = record {
  keeps_count = λ h. h;
  at_most = omega arith;
  others = λ h. refl;
}
add_criteria-Adds p (c ∷ cs) x q small =
    let one = add_criterion-Adds p c x q (omega arith) in
    let more = add_criteria-Adds p cs (add_criterion p c x) q (omega (arith, one.at_most)) in
    record {
      keeps_count = λ h. more.keeps_count (one.keeps_count h);
      at_most = omega (arith, one.at_most, more.at_most);
      others = λ h. omega (arith, one.others h, more.others h);
    }

pub add_criteria-UniqueCriteria :
    (p : PeerId) (cs : List FilterCriterion) (x : PeerData × Subscriptions)
    → UniqueCriteria x.1
    → UniqueCriteria (add_criteria p cs x).1
unfolding add_criteria add_criterion
add_criteria-UniqueCriteria p [] x u = u
add_criteria-UniqueCriteria p (c ∷ cs) (d, subs) u =
    add_criteria-UniqueCriteria p cs (add_criterion p c (d, subs))
      (ground (arith, include-UniqueCriteria c p subs u))
