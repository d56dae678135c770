-- ===== src/Archive/Find.antt =====
-- waku/waku_archive/archive.nim and waku/waku_archive/common.nim: `findMessages` on the driver that
-- keeps the messages in memory. A cursor's hash has 32 bytes by its type, so that the test of its
-- length never fails. Metrics are left out.
use nwaku.Base.{
  ℕ, ◌+◌, ◌-◌, Bool, true, false, ltb, leb, if◌then◌else◌, Option, none, some, List, [], ◌∷◌,
  length, take, map, get_elem?, codes, min,
}
use mathlib.Core.List.{reverse}
use nwaku.Message.{WakuMessage}
use nwaku.Archive.Index.{Index}
use nwaku.Archive.Queue.{QueueDriver, Outcome, ok, err, crashed}
use nwaku.Archive.Pages.{ArchiveRow, Criteria, get_messages}

pub record ArchiveCursor : Type 0 where
  pub digest : ℕ
  pub store_time : ℕ
  pub sender_time : ℕ
  pub pubsub_topic : List ℕ
  pub hash : ℕ

pub record ArchiveQuery : Type 0 where
  pub include_data : Bool
  pub criteria : Criteria
  pub cursor : Option ArchiveCursor
  pub page_size : ℕ
  pub ascending : Bool

pub record ArchiveResponse : Type 0 where
  pub hashes : List ℕ
  pub messages : List WakuMessage
  pub topics : List (List ℕ)
  pub cursor : Option ArchiveCursor

-- A response, the two kinds of errors, or a Defect.
pub data ArchiveResult : Type 0 where
  response : ArchiveResponse → ArchiveResult
  driver_error : List ℕ → ArchiveResult
  invalid_query : List ℕ → ArchiveResult
  crashed_query : ArchiveResult

abbrev pub to_index : ArchiveCursor → Index
to_index c = record {
  pubsub_topic = c.pubsub_topic;
  sender_time = c.sender_time;
  receiver_time = c.store_time;
  digest = c.digest;
  hash = c.hash;
}

abbrev pub map_cursor : Option ArchiveCursor → Option Index
map_cursor none = none
map_cursor (some c) = some (to_index c)

abbrev pub cursor_of : ArchiveRow → ArchiveCursor
cursor_of r = record {
  digest = r.digest;
  store_time = r.store_time;
  sender_time = r.message.timestamp;
  pubsub_topic = r.pubsub_topic;
  hash = r.hash;
}

abbrev pub max_page_size : ℕ → ℕ
max_page_size size = if leb size 0 then 20 else min size 100

abbrev pub in_time {ℓ} : {A : Type ℓ} → Bool → List A → List A
in_time true xs = xs
in_time false xs = reverse xs

-- The first rows, in chronological order.
abbrev pub respond : ArchiveQuery → List ArchiveRow → Option ArchiveCursor → ArchiveResult
respond q page cursor = response (record {
  hashes = in_time q.ascending (map ArchiveRow.hash page);
  messages = in_time q.ascending (if q.include_data then map ArchiveRow.message page else []);
  topics = in_time q.ascending (if q.include_data then map ArchiveRow.pubsub_topic page else []);
  cursor = cursor;
})

-- The last row but one, the last of the page, gives the cursor.
abbrev pub respond_more : ArchiveQuery → List ArchiveRow → Option ArchiveRow → ArchiveResult
respond_more q page none = crashed_query
respond_more q page (some row) = respond q page (some (cursor_of row))

abbrev pub respond_rows : ArchiveQuery → ℕ → List ArchiveRow → ArchiveResult
respond_rows q size [] =
    response (record { hashes = []; messages = []; topics = []; cursor = none })
respond_rows q size (r ∷ rs) =
    let rows = r ∷ rs in
    let page = take (min (length rows) size) rows in
    if ltb size (length rows)
    then respond_more q page (get_elem? rows (length rows - 2))
    else respond q page none

abbrev pub respond_driver : ArchiveQuery → ℕ → Outcome (List ArchiveRow) → ArchiveResult
respond_driver q size (ok rows) = respond_rows q size rows
respond_driver q size (err e) = driver_error e
respond_driver q size crashed = crashed_query

unfoldable pub find_messages : QueueDriver → ArchiveQuery → ArchiveResult
find_messages d q =
    let size = max_page_size q.page_size in
    if ltb 10 (length q.criteria.content_topics)
    then invalid_query (codes "too many content topics")
    else respond_driver q size
        (get_messages d q.criteria (map_cursor q.cursor) (size + 1) q.ascending)
