-- ===== src/Archive/Index.antt =====
-- waku/waku_archive/driver/queue_driver/index.nim: the key of a message in the sorted set, and the
-- comparison of two keys. A digest and a hash are numbers, their first byte the highest.
use Prim.Native.Nat.{Ordering, compare, lt, eq, gt}
use nwaku.Base.{
  ℕ, ◌≡◌, ◌≢◌, ◌∙◌, refl, sym, ap, arith, Bool, true, false, ◌&&◌, ◌||◌, ◌==◌, if◌then◌else◌, List,
  ==_iff, Bool-cases, inl, inr, subst, ◌<◌,
}
use nwaku.Archive.SortedSet.{IsLawful}
use nwaku.Archive.Order.{
  IsOrder, then_by, compare_text, compare-IsOrder, compare_text-IsOrder, pair_compare,
  pair_compare-IsOrder,
}

pub record Index : Type 0 where
  pub pubsub_topic : List ℕ
  pub sender_time : ℕ
  pub receiver_time : ℕ
  pub digest : ℕ
  pub hash : ℕ

abbrev pub is_eq : Ordering → Bool
is_eq lt = false
is_eq eq = true
is_eq gt = false

abbrev pub same_text : List ℕ → List ℕ → Bool
same_text s t = is_eq (compare_text s t)

unfoldable pub eq_index : Index → Index → Bool
eq_index x y =
    ((x.sender_time == y.sender_time)
      && ((x.digest == y.digest) && same_text x.pubsub_topic y.pubsub_topic))
    || (x.hash == y.hash)

abbrev pub time_of : Index → ℕ
time_of x = if x.sender_time == 0 then x.receiver_time else x.sender_time

unfoldable pub cmp : Index → Index → Ordering
cmp x y =
    if eq_index x y
    then eq
    else then_by (compare (time_of x) (time_of y))
        (then_by (compare x.digest y.digest) (compare_text x.pubsub_topic y.pubsub_topic))

-- The fields that the order is about.
abbrev pub Key : Type 0
Key = ℕ × (ℕ × List ℕ)

abbrev pub key : Index → Key
key x = (x.sender_time, (x.digest, x.pubsub_topic))

abbrev pub compare_key : Key → Key → Ordering
compare_key = pair_compare compare (pair_compare compare compare_text)

compare_key-IsOrder : IsOrder compare_key
compare_key-IsOrder =
    pair_compare-IsOrder compare (pair_compare compare compare_text) compare-IsOrder
      (pair_compare-IsOrder compare compare_text compare-IsOrder compare_text-IsOrder)

-- The sender has set the time, and the hash determines what the order is about, by some function: no
-- two indices with other times, digests or topics have the same hash.
pub record IsRegular (origin : ℕ → Key) (x : Index) : Type 0 where
  pub timed : x.sender_time ≢ 0
  pub known : origin x.hash ≡ key x

pub is_eq-true : (o : Ordering) → is_eq o ≡ true → o ≡ eq
is_eq-true lt h = cc
is_eq-true eq h = refl
is_eq-true gt h = cc

fields :
    (x y : Index)
    → (x.sender_time == y.sender_time) ≡ true
    → (x.digest == y.digest) ≡ true
    → same_text x.pubsub_topic y.pubsub_topic ≡ true
    → key x ≡ key y
fields x y h k l =
    let topics : x.pubsub_topic ≡ y.pubsub_topic =
      compare_text-IsOrder.equal x.pubsub_topic y.pubsub_topic (is_eq-true _ l) in
    cc ((==_iff x.sender_time y.sender_time).0 h, (==_iff x.digest y.digest).0 k, topics)

same_key :
    (origin : ℕ → Key) (x y : Index)
    → IsRegular origin x
    → IsRegular origin y
    → eq_index x y ≡ true
    → key x ≡ key y
unfolding eq_index
same_key origin x y hx hy h = elim (Bool-cases (x.hash == y.hash)) [
  | inl equal ↦ sym hx.known ∙ ap origin ((==_iff x.hash y.hash).0 equal) ∙ hy.known
  | inr other ↦ ground (arith, fields x y, other, h)
]

-- Between regular indices the comparison is that of their times, digests and topics, in this order.
cmp-compare_key :
    (origin : ℕ → Key) (x y : Index)
    → IsRegular origin x
    → IsRegular origin y
    → cmp x y ≡ compare_key (key x) (key y)
unfolding cmp
cmp-compare_key origin x y hx hy = elim (Bool-cases (eq_index x y)) [
  | inl equal ↦ rw equal (
      subst (λ t. eq ≡ compare_key (key x) t) (same_key origin x y hx hy equal)
        (sym (compare_key-IsOrder.same (key x))))
  | inr other ↦
      let x_timed : (x.sender_time == 0) ≡ false = ground (arith, hx.timed) in
      let y_timed : (y.sender_time == 0) ≡ false = ground (arith, hy.timed) in
      rw (other, x_timed, y_timed) refl
]

cmp_lem :
    (origin : ℕ → Key) (x y : Index) (o : Ordering)
    → IsRegular origin x
    → IsRegular origin y
    → cmp x y ≡ o
    → compare_key (key x) (key y) ≡ o
cmp_lem origin x y o hx hy h = sym (cmp-compare_key origin x y hx hy) ∙ h

pub cmp-IsLawful : (origin : ℕ → Key) → IsLawful (IsRegular origin) cmp
cmp-IsLawful origin = record {
  equal-below = λ x y z hx hy hz h k.
      let same = compare_key-IsOrder.equal (key x) (key y) (cmp_lem origin x y eq hx hy h) in
      cmp-compare_key origin x z hx hz
      ∙ subst (λ t. compare_key t (key z) ≡ lt) (sym same) (cmp_lem origin y z lt hy hz k);
  below-below = λ x y z hx hy hz h k.
      cmp-compare_key origin x z hx hz
      ∙ compare_key-IsOrder.trans (key x) (key y) (key z) (cmp_lem origin x y lt hx hy h)
          (cmp_lem origin y z lt hy hz k);
  above = λ x y hx hy h.
      cmp-compare_key origin y x hy hx
      ∙ compare_key-IsOrder.flip (key x) (key y) (cmp_lem origin x y gt hx hy h);
}

-- The key of a message that has no time, and another one of the same digest and topic that arrives
-- later, are equal, but a third key with a time between the two arrivals, and with another hash than
-- both, is above the first one and below the second one.
pub cmp-untimed :
    (x y z : Index)
    → x.sender_time ≡ 0
    → y.sender_time ≡ 0
    → x.digest ≡ y.digest
    → x.pubsub_topic ≡ y.pubsub_topic
    → x.receiver_time < z.sender_time
    → z.sender_time < y.receiver_time
    → z.hash ≢ x.hash
    → z.hash ≢ y.hash
    → (cmp x y ≡ eq) × (cmp x z ≡ lt) × (cmp z y ≡ lt)
unfolding cmp eq_index
cmp-untimed x y z hx hy hd ht below above nx ny =
    let topics : same_text x.pubsub_topic y.pubsub_topic ≡ true =
      rw ht (ap is_eq (compare_text-IsOrder.same y.pubsub_topic)) in
    (ground (arith, topics), ground arith, ground arith)
