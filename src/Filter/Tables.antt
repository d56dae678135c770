-- ===== src/Filter/Tables.antt =====
-- waku/waku_filter_v2/subscriptions.nim: the tables of peers and of criteria, as association lists,
-- and the sets of peers, as lists. The order of a list stands for the order of the hash table,
-- which the code leaves open. Peers and topics are only compared: they are represented by numbers.
use nwaku.Base.{ℕ, Bool, ◌&&◌, ◌==◌, if◌then◌else◌, Option, none, some, List, [], ◌∷◌, has}

abbrev pub PeerId : Type 0
PeerId = ℕ

abbrev pub PubsubTopic : Type 0
PubsubTopic = ℕ

abbrev pub ContentTopic : Type 0
ContentTopic = ℕ

abbrev pub FilterCriterion : Type 0
FilterCriterion = PubsubTopic × ContentTopic

abbrev pub same : FilterCriterion → FilterCriterion → Bool
same (p, c) (q, d) = (p == q) && (c == d)

pub record PeerData : Type 0 where
  pub last_seen : ℕ
  pub criteria_count : ℕ

abbrev pub Peers : Type 0
Peers = List (PeerId × PeerData)

abbrev pub Subscriptions : Type 0
Subscriptions = List (FilterCriterion × List PeerId)

unfoldable pub find_peer : PeerId → Peers → Option PeerData
find_peer p [] = none
find_peer p ((q, d) ∷ r) = if q == p then some d else find_peer p r

-- A write to the entry of a peer, which is new if there was none.
unfoldable pub set_peer : PeerId → PeerData → Peers → Peers
set_peer p d [] = (p, d) ∷ []
set_peer p d ((q, e) ∷ r) = if q == p then (q, d) ∷ r else (q, e) ∷ set_peer p d r

-- `keepItIf` of utils/tableutils.nim, for a test of a key and its value.
unfoldable pub keep_peers : (PeerId → PeerData → Bool) → Peers → Peers
keep_peers keep [] = []
keep_peers keep ((q, e) ∷ r) =
    let rest = keep_peers keep r in if keep q e then (q, e) ∷ rest else rest

unfoldable pub del_peer : PeerId → Peers → Peers
del_peer p [] = []
del_peer p ((q, e) ∷ r) = let rest = del_peer p r in if q == p then rest else (q, e) ∷ rest

unfoldable pub incl : PeerId → List PeerId → List PeerId
incl p [] = p ∷ []
incl p (q ∷ r) = if q == p then q ∷ r else q ∷ incl p r

unfoldable pub keep_set : (PeerId → Bool) → List PeerId → List PeerId
keep_set keep [] = []
keep_set keep (q ∷ r) = let rest = keep_set keep r in if keep q then q ∷ rest else rest

unfoldable pub excl : PeerId → List PeerId → List PeerId
excl p [] = []
excl p (q ∷ r) = let rest = excl p r in if q == p then rest else q ∷ rest

unfoldable pub find_criterion : FilterCriterion → Subscriptions → Option (List PeerId)
find_criterion c [] = none
find_criterion c ((d, ps) ∷ r) = if same d c then some ps else find_criterion c r

-- `mgetOrPut`, and `incl` into the set that it gives.
unfoldable pub include : FilterCriterion → PeerId → Subscriptions → Subscriptions
unfolding incl
include c p [] = (c, p ∷ []) ∷ []
include c p ((d, ps) ∷ r) = if same d c then (d, incl p ps) ∷ r else (d, ps) ∷ include c p r

-- An entry, unless its set is empty.
unfoldable pub add_unless_empty : FilterCriterion → List PeerId → Subscriptions → Subscriptions
add_unless_empty c [] r = r
add_unless_empty c (p ∷ ps) r = (c, p ∷ ps) ∷ r

-- `missingOrexcl` on the set of a criterion, and `del` of the criterion if the set is empty then.
unfoldable pub exclude : FilterCriterion → PeerId → Subscriptions → Subscriptions
unfolding excl add_unless_empty
exclude c p [] = []
exclude c p ((d, ps) ∷ r) =
    if same d c then add_unless_empty d (excl p ps) r else (d, ps) ∷ exclude c p r

-- `keepItIf` on each set, then on the table for the sets that are not empty.
unfoldable pub keep_subscribers : (PeerId → Bool) → Subscriptions → Subscriptions
unfolding keep_set add_unless_empty
keep_subscribers keep [] = []
keep_subscribers keep ((d, ps) ∷ r) =
    add_unless_empty d (keep_set keep ps) (keep_subscribers keep r)

unfoldable pub criteria_with : PeerId → Subscriptions → List FilterCriterion
criteria_with p [] = []
criteria_with p ((d, ps) ∷ r) = let rest = criteria_with p r in if has p ps then d ∷ rest else rest
