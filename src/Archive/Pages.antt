-- ===== src/Archive/Pages.antt =====
-- waku/waku_archive/driver/queue_driver/queue_driver.nim: the search for a page of messages. A walk
-- over the set is the list of the items that are still to come, the newest first if it goes backward.
use nwaku.Base.{
  ℕ, zero, suc, ◌+◌, ◌-◌, ◌≡◌, ◌∙◌, ap, refl, arith, Bool, true, false, not, ◌&&◌, ◌||◌, ltb,
  if◌then◌else◌, Option, none, some, List, [], ◌∷◌, length, take, map, has, codes, Bool-cases, inl,
  inr,
}
use mathlib.Core.List.{reverse}
use nwaku.Message.{WakuMessage}
use nwaku.Archive.Index.{Index, eq_index, same_text}
use nwaku.Archive.Queue.{Item, QueueDriver, Outcome, ok, err}

pub record ArchiveRow : Type 0 where
  pub pubsub_topic : List ℕ
  pub message : WakuMessage
  pub digest : ℕ
  pub store_time : ℕ
  pub hash : ℕ

abbrev pub row_of : Item → ArchiveRow
row_of (key, msg) = record {
  pubsub_topic = key.pubsub_topic;
  message = msg;
  digest = key.digest;
  store_time = key.receiver_time;
  hash = key.hash;
}

abbrev pub walk : Bool → List Item → List Item
walk true items = items
walk false items = reverse items

-- What is behind the first item whose key is the cursor.
unfoldable pub walk_to_cursor : Index → List Item → Option (List Item)
walk_to_cursor cursor [] = none
walk_to_cursor cursor ((k, m) ∷ r) =
    let rest = walk_to_cursor cursor r in if eq_index k cursor then some r else rest

-- The loop of `getPage`, with the number of items so far.
unfoldable pub fill : ℕ → ℕ → (Item → Bool) → List Item → List ArchiveRow
fill count page_size predicate [] = []
fill count page_size predicate (e ∷ r) =
    let hit = predicate e in
    let rest = fill (if hit then count + 1 else count) page_size predicate r in
    if ltb count page_size then (if hit then row_of e ∷ rest else rest) else []

abbrev pub page_behind : ℕ → (Item → Bool) → Option (List Item) → Outcome (List ArchiveRow)
page_behind page_size predicate none = err (codes "invalid_cursor")
page_behind page_size predicate (some rest) = ok (fill 0 page_size predicate rest)

abbrev pub start_of : Bool → Option Index → List Item → Option (List Item)
start_of forward none items = some (walk forward items)
start_of forward (some cursor) items = walk_to_cursor cursor (walk forward items)

unfoldable pub get_page :
    QueueDriver → ℕ → Bool → Option Index → (Item → Bool) → Outcome (List ArchiveRow)
get_page d page_size forward cursor predicate =
    page_behind page_size predicate (start_of forward cursor d.items)

unfoldable pub has_text : List ℕ → List (List ℕ) → Bool
has_text s [] = false
has_text s (t ∷ ts) = same_text t s || has_text s ts

-- The criteria of a query.
pub record Criteria : Type 0 where
  pub content_topics : List (List ℕ)
  pub pubsub_topic : Option (List ℕ)
  pub start_time : Option ℕ
  pub end_time : Option ℕ
  pub hashes : List ℕ

abbrev pub other_topic : Option (List ℕ) → Index → Bool
other_topic none index = false
other_topic (some topic) index = not (same_text index.pubsub_topic topic)

abbrev pub too_early : Option ℕ → ℕ → Bool
too_early none t = false
too_early (some start) t = ltb t start

abbrev pub too_late : Option ℕ → ℕ → Bool
too_late none t = false
too_late (some end) t = ltb end t

unfoldable pub matches_query : Criteria → Item → Bool
unfolding has_text
matches_query q (index, msg) =
    if other_topic q.pubsub_topic index
    then false
    else (if ltb 0 (length q.content_topics) && not (has_text msg.content_topic q.content_topics)
        then false
        else (if too_early q.start_time msg.timestamp
            then false
            else (if too_late q.end_time msg.timestamp
                then false
                else (if ltb 0 (length q.hashes) && not (has index.hash q.hashes)
                    then false
                    else true))))

unfoldable pub get_messages :
    QueueDriver → Criteria → Option Index → ℕ → Bool → Outcome (List ArchiveRow)
get_messages d q cursor max_page_size ascending =
    get_page d max_page_size ascending cursor (matches_query q)

-- The items with a property, in their order.
unfoldable pub keep : (Item → Bool) → List Item → List Item
keep p [] = []
keep p (e ∷ r) = let rest = keep p r in if p e then e ∷ rest else rest

take-nil {ℓ} : {A : Type ℓ} (n : ℕ) → take {A = A} n [] ≡ []
take-nil zero = refl
take-nil (suc n) = refl

-- The loop gives the first items with the property, up to the size of the page.
fill_lem :
    (count page_size : ℕ) (p : Item → Bool) (l : List Item)
    → fill count page_size p l ≡ map row_of (take (page_size - count) (keep p l))
unfolding fill keep
fill_lem count page_size p [] = rw take-nil
fill_lem count page_size p (e ∷ r) = elim (Bool-cases (ltb count page_size)) [
  | inl room ↦
      let one_less : page_size - count ≡ suc (page_size - (count + 1)) = ground (arith, room) in
      elim (Bool-cases (p e)) [
        | inl hit ↦ rw (room, hit, one_less, fill_lem (count + 1) page_size p r)
        | inr miss ↦ rw (room, miss, fill_lem count page_size p r)
      ]
  | inr full ↦ let none_left : page_size - count ≡ 0 = ground (arith, full) in rw (full, none_left)
]

pub fill_first :
    (page_size : ℕ) (p : Item → Bool) (l : List Item)
    → fill 0 page_size p l ≡ map row_of (take page_size (keep p l))
fill_first page_size p l =
    let whole : page_size - 0 ≡ page_size = omega arith in
    fill_lem 0 page_size p l ∙ ap (λ n. map row_of (take n (keep p l))) whole
