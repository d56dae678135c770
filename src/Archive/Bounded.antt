-- ===== src/Archive/Bounded.antt =====
-- waku/waku_archive/driver/queue_driver/queue_driver.nim: the bounded queue against a set that
-- forgets nothing.
use nwaku.Base.{
  ℕ, ◌≤◌, ◌≡◌, ◌∙◌, refl, sym, ap, arith, false, leb, Option, some, List, [], ◌∷◌, All, length,
  Bool-cases, inl, inr,
}
use nwaku.Message.{WakuMessage}
use nwaku.Archive.Order.{Ordering-cases}
use nwaku.Archive.SortedSet.{
  SortedSet, Sorted, contains_key, insert_item, Below-eq, Below-lt, All-insert_item,
  insert_item-Sorted,
}
use nwaku.Archive.Index.{Index, Key, cmp, IsRegular, cmp-IsLawful}
use nwaku.Archive.Queue.{
  Item, QueueDriver, new, Put, index_of, add, put, puts, kept, replace_oldest,
}
use nwaku.Archive.Unbounded.{
  store_item, store_all, newest, newest-all, newest-cons, length-insert_item, length-store_item_le,
  store_item-Below, store_item-same, store_item-above,
}

module _ (origin : ℕ → Key) where
  abbrev pub Regular : List Item → Type 0
  Regular = All (λ e. IsRegular origin e.0)

  -- An item before the newest ones makes no difference to them.
  newest-store_item-cons :
      (n : ℕ) (k j : Index) (v w : WakuMessage) (r : List Item)
      → n ≤ length r
      → IsRegular origin k
      → Regular ((j, w) ∷ r)
      → Sorted cmp ((j, w) ∷ r)
      → newest n (store_item ((j, w) ∷ r) k v) ≡ newest n (store_item r k v)
  newest-store_item-cons n k j v w r h hk hr s =
      let lawful = cmp-IsLawful origin in
      elim (Ordering-cases (cmp k j)) [
        | inl below ↦
            let b = Below-lt cmp (IsRegular origin) lawful k j r hk hr.0 hr.1 below s.0 in
            rw (
              store_item-Below k v ((j, w) ∷ r) (below, b),
              store_item-Below k v r b,
              newest-cons n (k, v) ((j, w) ∷ r) (omega (arith, h)),
              newest-cons n (j, w) r h,
              newest-cons n (k, v) r h,
            )
        | inr (inl same) ↦
            let b = Below-eq cmp (IsRegular origin) lawful k j r hk hr.0 hr.1 same s.0 in
            rw (
              store_item-same k j v w r same,
              store_item-Below k v r b,
              newest-cons n (j, w) r h,
              newest-cons n (k, v) r h,
            )
        | inr (inr above) ↦
            rw (store_item-above k j v w r above) (
              newest-cons n (j, w) (store_item r k v)
                (omega (arith, h, length-store_item_le k v r)))
      ]

  store_item-keeps :
      (k : Index) (v : WakuMessage) (items : List Item)
      → IsRegular origin k
      → Regular items
      → Sorted cmp items
      → Regular (store_item items k v) × Sorted cmp (store_item items k v)
  unfolding store_item
  store_item-keeps k v items hk hr s = elim (Bool-cases (contains_key cmp k items)) [
    | inl there ↦ rw there (hr, s)
    | inr absent ↦ rw absent (
      All-insert_item cmp (λ e. IsRegular origin e.0) k v items hk hr,
      insert_item-Sorted cmp (IsRegular origin) (cmp-IsLawful origin) k v items hk hr s,
    )
  ]

  module _ (set : SortedSet Index WakuMessage cmp) (n : ℕ) (positive : 1 ≤ n) where
    abbrev queue : List Item → QueueDriver
    queue items = record { items = items; capacity = n }

    queue_eq :
        {xs ys : List Item}
        → xs ≡ ys
        → ◌≡◌ {A = Option QueueDriver} (some (queue ys)) (some (queue xs))
    queue_eq h = ap (λ l. some (queue l)) (sym h)

    newest_behind : (x : Item) (items : List Item) → length items ≡ n → newest n (x ∷ items) ≡ items
    newest_behind x items full =
        newest-cons n x items (omega (arith, full)) ∙ newest-all n items (omega (arith, full))

    -- A full queue that lacks the key.
    add_full :
        (k : Index) (v : WakuMessage) (items : List Item)
        → length items ≡ n
        → contains_key cmp k items ≡ false
        → Sorted cmp items
        → kept (queue items) (replace_oldest set (queue items) k v items)
          ≡ some (queue (newest n (insert_item cmp k v items)))
    unfolding contains_key insert_item
    add_full k v [] full absent s = absurd (omega (arith, full, positive))
    add_full k v ((j, w) ∷ r) full absent s = elim (Ordering-cases (cmp k j)) [
      | inl below ↦ rw (below, newest_behind (k, v) ((j, w) ∷ r) full)
      | inr (inl same) ↦ cc (rw same at absent)
      | inr (inr above) ↦
          let absent_behind : contains_key cmp k r ≡ false = rw above at absent in
          let size : length (insert_item cmp k v r) ≡ n =
            length-insert_item k v r absent_behind ∙ full in
          rw (
            above,
            set.delete_lem j w r s,
            set.insert_lem k v r s.1 absent_behind,
            newest_behind (j, w) (insert_item cmp k v r) size,
          )
    ]

    add_within :
        (k : Index) (v : WakuMessage) (items : List Item)
        → length items ≤ n
        → Sorted cmp items
        → kept (queue items) (add set (queue items) k v)
          ≡ some (queue (newest n (store_item items k v)))
    unfolding add store_item
    add_within k v items h s = elim (Bool-cases (contains_key cmp k items)) [
      | inl there ↦ rw (set.contains_lem k items s, there) (queue_eq (newest-all n items h))
      | inr absent ↦ elim (Bool-cases (leb n (length items))) [
        | inl full ↦
            rw (set.contains_lem k items s, absent, full)
              (add_full k v items (ground (arith, h, full)) absent s)
        | inr room ↦
            let size = length-insert_item k v items absent in
            rw (set.contains_lem k items s, absent, room, set.insert_lem k v items s absent)
              (queue_eq (newest-all n (insert_item cmp k v items) (ground (arith, h, room, size))))
      ]
    ]

    -- What is added to the newest items leaves the newest ones of all.
    add-newest :
        (k : Index) (v : WakuMessage) (items : List Item)
        → IsRegular origin k
        → Regular items
        → Sorted cmp items
        → kept (queue (newest n items)) (add set (queue (newest n items)) k v)
          ≡ some (queue (newest n (store_item items k v)))
    add-newest k v [] hk hr s =
        rw (newest-all n [] (omega (arith, positive)))
          (add_within k v [] (omega (arith, positive)) s)
    add-newest k v ((j, w) ∷ r) hk hr s = elim (Bool-cases (leb n (length r))) [
      | inl long ↦
          rw
            (
              newest-cons n (j, w) r (ground (arith, long)),
              newest-store_item-cons n k j v w r (ground (arith, long)) hk hr s,
            )
            (add-newest k v r hk hr.1 s.1)
      | inr short ↦
          let size : length ((j, w) ∷ r) ≤ n = ground (arith, short) in
          rw (newest-all n ((j, w) ∷ r) size) (add_within k v ((j, w) ∷ r) size s)
    ]

    puts-newest_from :
        (ps : List Put) (items : List Item)
        → All (λ p. IsRegular origin (index_of p)) ps
        → Regular items
        → Sorted cmp items
        → puts set (queue (newest n items)) ps ≡ some (queue (newest n (store_all items ps)))
    unfolding puts put store_all
    puts-newest_from [] items h hr s = refl
    puts-newest_from (p ∷ ps) items h hr s =
        let (hr', s') = store_item-keeps (index_of p) p.message items h.0 hr s in
        rw (puts, add-newest (index_of p) p.message items h.0 hr s)
          (puts-newest_from ps (store_item items (index_of p) p.message) h.1 hr' s')

    -- From an empty queue of a capacity that is not 0, whatever is put into it one after the other:
    -- if the senders have set the times, and no two messages with other times, digests or topics have
    -- the same hash, then no put ends the program, and the queue has the newest items, as many as the
    -- capacity, of the set that forgets nothing.
    pub puts-newest :
        (ps : List Put)
        → All (λ p. IsRegular origin (index_of p)) ps
        → puts set (new n) ps ≡ some (record { items = newest n (store_all [] ps); capacity = n })
    puts-newest ps h =
        rw (newest-all n [] (omega (arith, positive))) at (puts-newest_from ps [] h tt tt)

pub store_all-keeps :
    (origin : ℕ → Key) (ps : List Put) (items : List Item)
    → All (λ p. IsRegular origin (index_of p)) ps
    → All (λ e. IsRegular origin e.0) items
    → Sorted cmp items
    → Regular origin (store_all items ps) × Sorted cmp (store_all items ps)
unfolding store_all
store_all-keeps origin [] items h hr s = (hr, s)
store_all-keeps origin (p ∷ ps) items h hr s =
    let (hr', s') = store_item-keeps origin (index_of p) p.message items h.0 hr s in
    store_all-keeps origin ps (store_item items (index_of p) p.message) h.1 hr' s'
