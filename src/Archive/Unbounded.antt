-- ===== src/Archive/Unbounded.antt =====
-- waku/waku_archive: a set of messages that forgets nothing, and its newest items, which the bounded
-- queue is compared with.
use Prim.Native.Nat.{eq, gt}
use nwaku.Base.{
  ℕ, suc, ◌-◌, ◌≤◌, ◌≡◌, refl, ap, arith, false, if◌then◌else◌, List, [], ◌∷◌, length, drop,
  length-drop, Bool-cases, inl, inr,
}
use nwaku.Message.{WakuMessage}
use nwaku.Archive.Order.{Ordering-cases}
use nwaku.Archive.SortedSet.{
  Below, contains_key, insert_item, contains_key-Below, insert_item-Below,
}
use nwaku.Archive.Index.{Index, cmp}
use nwaku.Archive.Queue.{Item, Put, index_of}

-- A set that never forgets: a new key is inserted, and a key that is there keeps its message.
unfoldable pub store_item : List Item → Index → WakuMessage → List Item
store_item items index msg =
    if contains_key cmp index items then items else insert_item cmp index msg items

unfoldable pub store_all : List Item → List Put → List Item
store_all items [] = items
store_all items (p ∷ ps) = store_all (store_item items (index_of p) p.message) ps

-- The last `n` items, which are the newest.
unfoldable pub newest : ℕ → List Item → List Item
newest n items = drop (length items - n) items

pub length-newest_le : (n : ℕ) (items : List Item) → length (newest n items) ≤ n
unfolding newest
length-newest_le n items = omega (arith, length-drop (length items - n) items)

pub newest-all : (n : ℕ) (items : List Item) → length items ≤ n → newest n items ≡ items
unfolding newest
newest-all n items h = let none_dropped : length items - n ≡ 0 = omega (arith, h) in rw none_dropped

pub newest-cons :
    (n : ℕ) (x : Item) (items : List Item)
    → n ≤ length items
    → newest n (x ∷ items) ≡ newest n items
unfolding newest
newest-cons n x items h =
    let one_more : suc (length items) - n ≡ suc (length items - n) = omega (arith, h) in rw one_more

pub length-insert_item :
    (k : Index) (v : WakuMessage) (items : List Item)
    → contains_key cmp k items ≡ false
    → length (insert_item cmp k v items) ≡ suc (length items)
unfolding contains_key insert_item
length-insert_item k v [] h = refl
length-insert_item k v ((j, w) ∷ r) h = elim (Ordering-cases (cmp k j)) [
  | inl below ↦ rw below
  | inr (inl same) ↦ cc (rw same at h)
  | inr (inr above) ↦ rw above (ap suc (length-insert_item k v r (rw above at h)))
]

pub length-store_item_le :
    (k : Index) (v : WakuMessage) (items : List Item) → length items ≤ length (store_item items k v)
unfolding store_item
length-store_item_le k v items = elim (Bool-cases (contains_key cmp k items)) [
  | inl there ↦ rw there (omega arith)
  | inr new_key ↦ rw new_key (omega (arith, length-insert_item k v items new_key))
]

-- What a set that never forgets makes of an item, by where the new key stands before the first.
pub store_item-Below :
    (k : Index) (v : WakuMessage) (r : List Item) → Below cmp k r → store_item r k v ≡ (k, v) ∷ r
unfolding store_item
store_item-Below k v r b = rw (contains_key-Below cmp k r b, insert_item-Below cmp k v r b)

pub store_item-same :
    (k j : Index) (v w : WakuMessage) (r : List Item)
    → cmp k j ≡ eq
    → store_item ((j, w) ∷ r) k v ≡ (j, w) ∷ r
unfolding store_item contains_key
store_item-same k j v w r h = rw h

pub store_item-above :
    (k j : Index) (v w : WakuMessage) (r : List Item)
    → cmp k j ≡ gt
    → store_item ((j, w) ∷ r) k v ≡ (j, w) ∷ store_item r k v
unfolding store_item contains_key insert_item
store_item-above k j v w r h = elim (Bool-cases (contains_key cmp k r)) [
  | inl there ↦ rw (h, there)
  | inr absent ↦ rw (h, absent)
]
