-- ===== src/Filter/Valid/Listing.antt =====
-- waku/waku_filter_v2/subscriptions.nim: `getPeerSubscriptions` under the invariant.
use nwaku.Base.{◌≡◌, arith, length, Option-cases, inl, inr}
use nwaku.Filter.Tables.{PeerId, find_peer}
use nwaku.Filter.Subscriptions.{FilterSubscriptions, get_peer_subscriptions}
use nwaku.Filter.Counts.{length-criteria_with, sub_count}
use nwaku.Filter.Valid.Tables.{criteria_of}
use nwaku.Filter.Valid.Invariant.{IsValid}

-- Of a valid state: a client is listed with as many criteria as its counter says.
pub length-get_peer_subscriptions :
    (s : FilterSubscriptions) (p : PeerId)
    → IsValid s
    → length (get_peer_subscriptions s p) ≡ criteria_of p s.peers_subscribed
unfolding get_peer_subscriptions
length-get_peer_subscriptions s p v = elim (Option-cases (find_peer p s.peers_subscribed)) [
  | inl missing ↦ rw missing
  | inr (d, known) ↦
      let count : d.criteria_count ≡ sub_count p s.subscriptions = rw known at (v.counted p) in
      rw known (ground (arith, count, length-criteria_with p s.subscriptions))
]
