-- ===== src/Filter/Valid/Clean.antt =====
-- waku/waku_filter_v2/subscriptions.nim: `cleanUp` restores the invariant from a weaker one, which
-- it has after `removePeer` and `removePeers`.
use nwaku.Base.{
  ℕ, ◌≤◌, ◌≡◌, ◌≢◌, subst, arith, true, not, none, some, List, length, has, Bool-cases,
  Option-cases, inl, inr,
}
use nwaku.Filter.Tables.{PeerId, PeerData, find_peer}
use nwaku.Filter.Subscriptions.{
  FilterSubscriptions, is_fresh, is_subscribed, remove_peer, remove_peers, clean_up, fresh?,
}
use nwaku.Filter.Counts.{find_peer-del_peer, sub_count, sub_count-keep_subscribers}
use nwaku.Filter.Criteria.{UniqueCriteria, keep_subscribers-UniqueCriteria}
use nwaku.Filter.Valid.Tables.{
  Unique, criteria_of, find_peer-keep_peers, keep_peers-Unique, del_peer-Unique, length-keep_peers,
  length-del_peer,
}
use nwaku.Filter.Valid.Invariant.{IsValid, IsConfig, Sound, Limits}

-- The invariant, but for peers that the table no longer has: the sets may still have those.
pub record IsLoose (s : FilterSubscriptions) : Type 0 where
  pub counted :
      (p : PeerId)
      → find_peer p s.peers_subscribed ≢ none
      → criteria_of p s.peers_subscribed ≡ sub_count p s.subscriptions
  pub unique : Unique s.peers_subscribed
  pub one_set : UniqueCriteria s.subscriptions
  pub within : (p : PeerId) → criteria_of p s.peers_subscribed ≤ s.max_criteria_per_peer
  pub room : length s.peers_subscribed ≤ s.max_peers

-- No peer that is fresh at the first time has expired at the second.
abbrev pub NoneExpires : FilterSubscriptions → ℕ → ℕ → Type 0
NoneExpires s now later =
    (p : PeerId) → is_subscribed s p now ≡ true → is_subscribed s p later ≡ true

cleaned-counted :
    (s : FilterSubscriptions) (now later : ℕ)
    → IsLoose s
    → NoneExpires s now later
    → (q : PeerId)
    → criteria_of q (clean_up s now later).peers_subscribed
      ≡ sub_count q (clean_up s now later).subscriptions
unfolding clean_up is_subscribed
cleaned-counted s now later v settled q =
    let keep = λ (p : PeerId) (d : PeerData). is_fresh s.subscription_timeout now d in
    let look_up = find_peer-keep_peers keep s.peers_subscribed q v.unique in
    rw (sub_count-keep_subscribers _ s.subscriptions q)
      (elim (Option-cases (find_peer q s.peers_subscribed)) [
        | inl missing ↦ rw (look_up, missing)
        | inr (d, known) ↦ elim (Bool-cases (is_fresh s.subscription_timeout now d)) [
          | inl fresh ↦
              let on_time : is_subscribed s q now ≡ true = rw (known, fresh) in
              let still : fresh? s.subscription_timeout later (some d) ≡ true =
                rw known at (settled q on_time) in
              let exact : criteria_of q s.peers_subscribed ≡ sub_count q s.subscriptions =
                v.counted q (λ missing. cc) in
              rw (look_up, known, fresh, still) (rw known at exact)
          | inr old ↦ rw (look_up, known, old)
        ]
      ])

pub clean_up-IsValid :
    (s : FilterSubscriptions) (now later : ℕ)
    → IsLoose s
    → NoneExpires s now later
    → IsValid (clean_up s now later)
unfolding clean_up is_subscribed
clean_up-IsValid s now later v settled = record {
  counted = cleaned-counted s now later v settled;
  unique = keep_peers-Unique _ s.peers_subscribed v.unique;
  one_set = keep_subscribers-UniqueCriteria _ s.subscriptions v.one_set;
  within = λ q. ground (
    arith,
    find_peer-keep_peers (λ p d. is_fresh s.subscription_timeout now d) s.peers_subscribed q
        v.unique,
    v.within q,
  );
  room = omega (
    arith,
    length-keep_peers (λ p d. is_fresh s.subscription_timeout now d) s.peers_subscribed,
    v.room,
  );
}

pub remove_peer-IsLoose :
    (s : FilterSubscriptions) (p : PeerId) → IsValid s → IsLoose (remove_peer s p)
unfolding remove_peer
remove_peer-IsLoose s p v = record {
  counted =
      λ q. λ here. ground (arith, here, find_peer-del_peer p s.peers_subscribed q, v.counted q);
  unique = del_peer-Unique p s.peers_subscribed v.unique;
  one_set = v.one_set;
  within = λ q. ground (arith, find_peer-del_peer p s.peers_subscribed q, v.within q);
  room = omega (arith, length-del_peer p s.peers_subscribed, v.room);
}

pub remove_peers-IsLoose :
    (s : FilterSubscriptions) (ps : List PeerId) → IsValid s → IsLoose (remove_peers s ps)
unfolding remove_peers
remove_peers-IsLoose s ps v =
    let keep = λ (p : PeerId) (d : PeerData). not (has p ps) in
    record {
      counted = λ q. λ here.
          ground
            (arith, here, find_peer-keep_peers keep s.peers_subscribed q v.unique, v.counted q);
      unique = keep_peers-Unique keep s.peers_subscribed v.unique;
      one_set = v.one_set;
      within =
          λ q. ground (arith, find_peer-keep_peers keep s.peers_subscribed q v.unique, v.within q);
      room = omega (arith, length-keep_peers keep s.peers_subscribed, v.room);
    }

-- With the invariant before, and a clock that stands still during `cleanUp`.
pub clean_up-Sound :
    {limits : Limits} (s : FilterSubscriptions) (now later : ℕ)
    → IsLoose s
    → IsConfig limits s
    → now ≡ later
    → Sound limits (clean_up s now later)
clean_up-Sound s now later v config same = (
  clean_up-IsValid s now later v (λ p fresh. subst (λ t. is_subscribed s p t ≡ true) same fresh),
  unfold clean_up in
      record {
        peers = config.peers;
        criteria = config.criteria;
        uint32 = config.uint32;
        largest = config.largest;
      },
)

pub IsValid-IsLoose : (s : FilterSubscriptions) → IsValid s → IsLoose s
IsValid-IsLoose s v = record {
  counted = λ p here. v.counted p;
  unique = v.unique;
  one_set = v.one_set;
  within = v.within;
  room = v.room;
}
