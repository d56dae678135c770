-- ===== src/Store/Aligned.antt =====
-- waku/waku_store: the archive's answers have no more messages than hashes, and as many topics as
-- messages, so that their translation is never out of range.
use nwaku.Base.{
  ℕ, ◌-◌, ◌≤◌, ◌≡◌, ◌∙◌, refl, sym, ap, arith, Bool, true, false, Option, none, some, List, [], ◌∷◌,
  length, take, map, get_elem?, min, ltb, length-map, length-append, Bool-cases, inl, inr,
  if◌then◌else◌,
}
use mathlib.Core.List.{reverse, reverse-cons}
use nwaku.Message.{WakuMessage}
use nwaku.Archive.Queue.{QueueDriver, Outcome, ok, err, crashed}
use nwaku.Archive.Pages.{ArchiveRow}
use nwaku.Archive.Find.{
  ArchiveCursor, ArchiveQuery, ArchiveResponse, ArchiveResult, response, driver_error,
  invalid_query, crashed_query, cursor_of, in_time, respond, respond_more, respond_rows,
  respond_driver, find_messages, max_page_size,
}
use nwaku.Store.{WakuMessageKeyValue, key_value, with_data}

abbrev pub Aligned : ArchiveResponse → Type 0
Aligned r = (length r.messages ≤ length r.hashes) × (length r.topics ≡ length r.messages)

abbrev pub AlignedResult : ArchiveResult → Type 0
AlignedResult (response r) = Aligned r
AlignedResult (driver_error e) = Unit
AlignedResult (invalid_query e) = Unit
AlignedResult crashed_query = Unit

length-reverse {ℓ} : {A : Type ℓ} (xs : List A) → length (reverse xs) ≡ length xs
length-reverse [] = refl
length-reverse (x ∷ xs) =
    rw reverse-cons (omega (arith, length-append (reverse xs) (x ∷ []), length-reverse xs))

length-in_time {ℓ} :
    {A : Type ℓ} (forward : Bool) (xs : List A) → length (in_time forward xs) ≡ length xs
length-in_time true xs = refl
length-in_time false xs = length-reverse xs

data_lengths :
    (include_data : Bool) (page : List ArchiveRow)
    → (length (if include_data then map ArchiveRow.message page else [])
        ≤ length (map ArchiveRow.hash page))
      × (length (if include_data then map ArchiveRow.pubsub_topic page else [])
          ≡ length (if include_data then map ArchiveRow.message page else []))
data_lengths true page =
    let hashes = length-map ArchiveRow.hash page in
    let messages = length-map ArchiveRow.message page in
    let topics = length-map ArchiveRow.pubsub_topic page in
    (omega (arith, hashes, messages), topics ∙ sym messages)
data_lengths false page = (omega arith, refl)

respond-Aligned :
    (q : ArchiveQuery) (page : List ArchiveRow) (cursor : Option ArchiveCursor)
    → AlignedResult (respond q page cursor)
respond-Aligned q page cursor =
    let lengths = data_lengths q.include_data page in
    let hashes = length-in_time q.ascending (map ArchiveRow.hash page) in
    let messages =
      length-in_time q.ascending (if q.include_data then map ArchiveRow.message page else []) in
    let topics =
      length-in_time q.ascending
        (if q.include_data then map ArchiveRow.pubsub_topic page else []) in
    (omega (arith, lengths.0, hashes, messages), topics ∙ lengths.1 ∙ sym messages)

respond_more-Aligned :
    (q : ArchiveQuery) (page : List ArchiveRow) (row : Option ArchiveRow)
    → AlignedResult (respond_more q page row)
respond_more-Aligned q page none = tt
respond_more-Aligned q page (some row) = respond-Aligned q page (some (cursor_of row))

respond_rows-Aligned :
    (q : ArchiveQuery) (size : ℕ) (rows : List ArchiveRow)
    → AlignedResult (respond_rows q size rows)
respond_rows-Aligned q size [] = (omega arith, refl)
respond_rows-Aligned q size (r ∷ rs) =
    let rows = r ∷ rs in
    let page = take (min (length rows) size) rows in
    elim (Bool-cases (ltb size (length rows))) [
      | inl more ↦ rw more (respond_more-Aligned q page (get_elem? rows (length rows - 2)))
      | inr all ↦ rw all (respond-Aligned q page none)
    ]

respond_driver-Aligned :
    (q : ArchiveQuery) (size : ℕ) (rows : Outcome (List ArchiveRow))
    → AlignedResult (respond_driver q size rows)
respond_driver-Aligned q size (ok rows) = respond_rows-Aligned q size rows
respond_driver-Aligned q size (err e) = tt
respond_driver-Aligned q size crashed = tt

pub find_messages-Aligned : (d : QueueDriver) (q : ArchiveQuery) → AlignedResult (find_messages d q)
unfolding find_messages
find_messages-Aligned d q = elim (Bool-cases (ltb 10 (length q.criteria.content_topics))) [
  | inl many ↦ rw many tt
  | inr few ↦ rw few (respond_driver-Aligned q (max_page_size q.page_size) _)
]

-- The translation has a pair for each hash, in their order.
pub with_data-hashes :
    (kvs : List WakuMessageKeyValue) (ms : List WakuMessage) (ts : List (List ℕ))
    → length ms ≤ length kvs
    → length ts ≡ length ms
    → (r : List WakuMessageKeyValue) × (with_data kvs ms ts ≡ some r)
      × (map WakuMessageKeyValue.message_hash r ≡ map WakuMessageKeyValue.message_hash kvs)
unfolding with_data
with_data-hashes kvs [] ts h k = (kvs, refl, refl)
with_data-hashes [] (m ∷ ms) ts h k = absurd (omega (arith, h))
with_data-hashes (kv ∷ kvs) (m ∷ ms) [] h k = absurd (omega (arith, k))
with_data-hashes (kv ∷ kvs) (m ∷ ms) (t ∷ ts) h k =
    let (r, written, same) = with_data-hashes kvs ms ts (omega (arith, h)) (omega (arith, k)) in
    (
      record kv { message = some m; pubsub_topic = some t } ∷ r,
      rw written refl,
      ap (◌∷◌ kv.message_hash) same,
    )

pub map-key_value :
    (hashes : List ℕ) → map WakuMessageKeyValue.message_hash (map key_value hashes) ≡ hashes
map-key_value [] = refl
map-key_value (h ∷ hs) = ap (◌∷◌ h) (map-key_value hs)
