-- ===== src/Filter/Counts.antt =====
-- waku/waku_filter_v2/subscriptions.nim: what the operations on the tables make of a look-up, and of
-- the number of criteria that have a given peer.
use nwaku.Base.{
  ℕ, ◌+◌, ◌≡◌, refl, arith, Bool, not, ◌||◌, ◌&&◌, ◌==◌, if◌then◌else◌, none, some, List, [], ◌∷◌,
  length, has, ap, ==_iff, Bool-cases, inl, inr,
}
use nwaku.Filter.Tables.{
  PeerId, FilterCriterion, PeerData, Peers, Subscriptions, find_peer, set_peer, del_peer, incl,
  excl, keep_set, find_criterion, include, exclude, add_unless_empty, keep_subscribers,
  criteria_with,
}
use nwaku.Filter.Subscriptions.{peers_of}

pub find_peer-set_peer :
    (p : PeerId) (d : PeerData) (l : Peers) (q : PeerId)
    → find_peer q (set_peer p d l) ≡ (if p == q then some d else find_peer q l)
unfolding find_peer set_peer
find_peer-set_peer p d [] q = refl
find_peer-set_peer p d ((r, e) ∷ l) q = ground (arith, find_peer-set_peer p d l q)

pub find_peer-del_peer :
    (p : PeerId) (l : Peers) (q : PeerId)
    → find_peer q (del_peer p l) ≡ (if p == q then none else find_peer q l)
unfolding find_peer del_peer
find_peer-del_peer p [] q = ground arith
find_peer-del_peer p ((r, e) ∷ l) q = ground (arith, find_peer-del_peer p l q)

pub has-incl :
    (p : PeerId) (ps : List PeerId) (q : PeerId) → has q (incl p ps) ≡ ((p == q) || has q ps)
unfolding has incl
has-incl p [] q = refl
has-incl p (r ∷ ps) q = ground (arith, has-incl p ps q)

pub has-excl :
    (p : PeerId) (ps : List PeerId) (q : PeerId) → has q (excl p ps) ≡ (not (p == q) && has q ps)
unfolding has excl
has-excl p [] q = ground arith
has-excl p (r ∷ ps) q = ground (arith, has-excl p ps q)

pub has-keep_set :
    (keep : PeerId → Bool) (ps : List PeerId) (q : PeerId)
    → has q (keep_set keep ps) ≡ (keep q && has q ps)
unfolding has keep_set
has-keep_set keep [] q = ground arith
has-keep_set keep (r ∷ ps) q = elim (Bool-cases (r == q)) [
  | inl e ↦ ground (arith, ap keep ((==_iff r q).0 e), has-keep_set keep ps q)
  | inr e ↦ ground (arith, has-keep_set keep ps q)
]

-- The number of criteria whose set has a peer.
abbrev pub one_if : Bool → ℕ
one_if b = if b then 1 else 0

unfoldable pub sub_count : PeerId → Subscriptions → ℕ
sub_count p [] = 0
sub_count p ((d, ps) ∷ r) = one_if (has p ps) + sub_count p r

abbrev pub subscribed_to : FilterCriterion → PeerId → Subscriptions → Bool
subscribed_to c p subs = has p (peers_of (find_criterion c subs))

sub_count-add_unless_empty :
    (p : PeerId) (c : FilterCriterion) (ps : List PeerId) (r : Subscriptions)
    → sub_count p (add_unless_empty c ps r) ≡ one_if (has p ps) + sub_count p r
unfolding sub_count add_unless_empty has
sub_count-add_unless_empty p c [] r = omega arith
sub_count-add_unless_empty p c (q ∷ ps) r = refl

pub sub_count-include :
    (c : FilterCriterion) (p : PeerId) (subs : Subscriptions) (q : PeerId)
    → sub_count q (include c p subs)
      ≡ one_if ((p == q) && not (subscribed_to c p subs)) + sub_count q subs
unfolding sub_count include find_criterion
sub_count-include c p [] q = unfold has in ground arith
sub_count-include c p ((d, ps) ∷ r) q = ground (arith, has-incl p ps q, sub_count-include c p r q)

pub sub_count-exclude :
    (c : FilterCriterion) (p : PeerId) (subs : Subscriptions) (q : PeerId)
    → sub_count q subs
      ≡ one_if ((p == q) && subscribed_to c p subs) + sub_count q (exclude c p subs)
unfolding sub_count exclude find_criterion
sub_count-exclude c p [] q = unfold has in ground arith
sub_count-exclude c p ((d, ps) ∷ r) q = ground (
  arith,
  has-excl p ps q,
  sub_count-add_unless_empty q d (excl p ps) r,
  sub_count-exclude c p r q,
)

pub sub_count-keep_subscribers :
    (keep : PeerId → Bool) (subs : Subscriptions) (q : PeerId)
    → sub_count q (keep_subscribers keep subs) ≡ (if keep q then sub_count q subs else 0)
unfolding sub_count keep_subscribers
sub_count-keep_subscribers keep [] q = ground arith
sub_count-keep_subscribers keep ((d, ps) ∷ r) q = ground (
  arith,
  has-keep_set keep ps q,
  sub_count-add_unless_empty q d (keep_set keep ps) (keep_subscribers keep r),
  sub_count-keep_subscribers keep r q,
)

pub length-criteria_with :
    (p : PeerId) (subs : Subscriptions) → length (criteria_with p subs) ≡ sub_count p subs
unfolding criteria_with sub_count
length-criteria_with p [] = refl
length-criteria_with p ((d, ps) ∷ r) = ground (arith, length-criteria_with p r)
