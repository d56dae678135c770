-- ===== src/Archive/Stored.antt =====
-- waku/waku_archive: the archive behind any sequence of messages, and what a client finds in it.
use nwaku.Base.{
  ℕ, ◌≢◌, zero, suc, ◌-◌, ◌≤◌, ◌≡◌, refl, none, some, List, [], ◌∷◌, All, length, drop, map,
  Bool-cases, inl, inr,
}
use nwaku.Message.{WakuMessage}
use nwaku.Archive.SortedSet.{SortedSet, Sorted, contains_key, All-insert_item}
use nwaku.Archive.Index.{Index, Key, cmp, IsRegular}
use nwaku.Archive.Queue.{Item, QueueDriver, new, Put, index_of, puts}
use nwaku.Archive.Unbounded.{store_item, store_all, newest}
use nwaku.Archive.Bounded.{puts-newest, store_all-keeps}
use nwaku.Archive.Pages.{walk, keep, matches_query}
use nwaku.Archive.Find.{ArchiveQuery, ArchiveResponse}
use nwaku.Archive.Responses.{hash_of}
use nwaku.Archive.Resuming.{IsStored, whole_cursor, whole_cursor-Resumes}
use nwaku.Archive.Paging.{pages, gathered, pages-gathered}

All-drop {ℓ} : (P : Item → Type ℓ) (n : ℕ) (xs : List Item) → All P xs → All P (drop n xs)
All-drop P zero xs h = h
All-drop P (suc n) [] h = tt
All-drop P (suc n) (x ∷ xs) h = All-drop P n xs h.1

Sorted-drop : (n : ℕ) (xs : List Item) → Sorted cmp xs → Sorted cmp (drop n xs)
Sorted-drop zero xs h = h
Sorted-drop (suc n) [] h = tt
Sorted-drop (suc n) ((k, m) ∷ xs) h = Sorted-drop n xs h.1

abbrev IsTimed : List Item → Type 0
IsTimed = All (λ e. e.0.sender_time ≡ e.1.timestamp)

store_item-IsTimed :
    (p : Put) (items : List Item)
    → IsTimed items
    → IsTimed (store_item items (index_of p) p.message)
unfolding store_item
store_item-IsTimed p items h = elim (Bool-cases (contains_key cmp (index_of p) items)) [
  | inl there ↦ rw there h
  | inr absent ↦ rw absent (
      All-insert_item cmp (λ e. e.0.sender_time ≡ e.1.timestamp) (index_of p) p.message items refl
        h)
]

store_all-IsTimed :
    (ps : List Put) (items : List Item) → IsTimed items → IsTimed (store_all items ps)
unfolding store_all
store_all-IsTimed [] items h = h
store_all-IsTimed (p ∷ ps) items h =
    store_all-IsTimed ps (store_item items (index_of p) p.message) (store_item-IsTimed p items h)

Regular-timed :
    (origin : ℕ → Key) (items : List Item)
    → All (λ e. IsRegular origin e.0) items
    → All (λ e. e.0.sender_time ≢ 0) items
Regular-timed origin [] h = tt
Regular-timed origin (e ∷ r) h = (h.0.timed, Regular-timed origin r h.1)

module _ (origin : ℕ → Key) (set : SortedSet Index WakuMessage cmp) (n : ℕ) (positive : 1 ≤ n)
    (ps : List Put) (regular : All (λ p. IsRegular origin (index_of p)) ps) where
  abbrev pub filled : QueueDriver
  filled = record { items = newest n (store_all [] ps); capacity = n }

  pub filled-IsStored : IsStored filled
  unfolding newest
  filled-IsStored = record {
    sorted =
        Sorted-drop (length (store_all [] ps) - n) (store_all [] ps)
          (store_all-keeps origin ps [] regular tt tt).1;
    timed =
        All-drop (λ e. e.0.sender_time ≡ e.1.timestamp) (length (store_all [] ps) - n)
          (store_all [] ps) (store_all-IsTimed ps [] tt);
  }

  pub filled-timed : All (λ e. e.0.sender_time ≢ 0) filled.items
  unfolding newest
  filled-timed =
      All-drop (λ e. e.0.sender_time ≢ 0) (length (store_all [] ps) - n) (store_all [] ps)
        (Regular-timed origin (store_all [] ps) (store_all-keeps origin ps [] regular tt tt).0)

  -- What a client finds behind any sequence of puts.
  pub puts-pages :
      (q : ArchiveQuery)
      → length q.criteria.content_topics ≤ 10
      → (d : QueueDriver) × (rs : List ArchiveResponse) × (puts set (new n) ps ≡ some d)
        × (pages whole_cursor (suc (length d.items)) d (record q { cursor = none }) ≡ some rs)
        × (gathered q.ascending rs
            ≡ map hash_of
                (keep (matches_query q.criteria) (walk q.ascending (newest n (store_all [] ps)))))
  puts-pages q few =
      let (rs, all, found) =
        pages-gathered whole_cursor filled q
          (whole_cursor-Resumes filled q.ascending filled-IsStored) few in
      (filled, rs, puts-newest origin set n positive ps regular, all, found)
