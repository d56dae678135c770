-- ===== src/Filter/Valid/Tables.antt =====
-- waku/waku_filter_v2/subscriptions.nim: the table of peers has one entry for a peer, and how the
-- operations keep that.
use nwaku.Base.{
  ℕ, ◌+◌, ◌≤◌, ◌≡◌, ◌≢◌, refl, ap, subst, arith, Bool, ◌==◌, if◌then◌else◌, Option, none, some, [],
  ◌∷◌, length, ==_iff, Bool-cases, inl, inr,
}
use nwaku.Filter.Tables.{PeerId, PeerData, Peers, find_peer, set_peer, keep_peers, del_peer}
use nwaku.Filter.Counts.{find_peer-set_peer, find_peer-del_peer}

abbrev pub count_in : Option PeerData → ℕ
count_in none = 0
count_in (some d) = d.criteria_count

-- The number of criteria that the table of peers has for a peer.
abbrev pub criteria_of : PeerId → Peers → ℕ
criteria_of p l = count_in (find_peer p l)

-- No peer has two entries.
abbrev pub Unique : Peers → Type 0
Unique [] = Unit
Unique ((p, d) ∷ l) = (find_peer p l ≡ none) × Unique l

pub set_peer-Unique : (p : PeerId) (d : PeerData) (l : Peers) → Unique l → Unique (set_peer p d l)
unfolding set_peer find_peer
set_peer-Unique p d [] u = (refl, tt)
set_peer-Unique p d ((q, e) ∷ l) u =
    ground (arith, find_peer-set_peer p d l q, set_peer-Unique p d l u.1)

pub del_peer-Unique : (p : PeerId) (l : Peers) → Unique l → Unique (del_peer p l)
unfolding del_peer
del_peer-Unique p [] u = tt
del_peer-Unique p ((q, e) ∷ l) u = ground (arith, find_peer-del_peer p l q, del_peer-Unique p l u.1)

-- What a filter of the table by the value leaves of a look-up.
abbrev pub filtered : (PeerData → Bool) → Option PeerData → Option PeerData
filtered keep none = none
filtered keep (some d) = if keep d then some d else none

pub find_peer-keep_peers :
    (keep : PeerId → PeerData → Bool) (l : Peers) (p : PeerId)
    → Unique l
    → find_peer p (keep_peers keep l) ≡ filtered (keep p) (find_peer p l)
unfolding find_peer keep_peers
find_peer-keep_peers keep [] p u = refl
find_peer-keep_peers keep ((q, e) ∷ l) p u =
    let rest = find_peer-keep_peers keep l p u.1 in
    elim (Bool-cases (q == p)) [
      | inl here ↦
          let is : q ≡ p = (==_iff q p).0 here in
          let later : find_peer p l ≡ none = subst (λ r. find_peer r l ≡ none) is u.0 in
          ground (arith, rest, later, ap (λ r. keep r e) is)
      | inr elsewhere ↦ ground (arith, rest)
    ]

pub keep_peers-Unique :
    (keep : PeerId → PeerData → Bool) (l : Peers) → Unique l → Unique (keep_peers keep l)
unfolding keep_peers
keep_peers-Unique keep [] u = tt
keep_peers-Unique keep ((q, e) ∷ l) u =
    ground (arith, find_peer-keep_peers keep l q u.1, keep_peers-Unique keep l u.1)

pub length-keep_peers :
    (keep : PeerId → PeerData → Bool) (l : Peers) → length (keep_peers keep l) ≤ length l
unfolding keep_peers
length-keep_peers keep [] = omega arith
length-keep_peers keep ((q, e) ∷ l) = ground (arith, length-keep_peers keep l)

pub length-del_peer : (p : PeerId) (l : Peers) → length (del_peer p l) ≤ length l
unfolding del_peer
length-del_peer p [] = omega arith
length-del_peer p ((q, e) ∷ l) = ground (arith, length-del_peer p l)

pub length-set_peer :
    (p : PeerId) (d : PeerData) (l : Peers)
    → (find_peer p l ≡ none → length (set_peer p d l) ≡ length l + 1)
      × (find_peer p l ≢ none → length (set_peer p d l) ≡ length l)
unfolding set_peer find_peer
length-set_peer p d [] = ground arith
length-set_peer p d ((q, e) ∷ l) = ground (arith, length-set_peer p d l)
