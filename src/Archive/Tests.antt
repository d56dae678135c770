-- ===== src/Archive/Tests.antt =====
-- Concrete messages in the archive, and the theorems at concrete inputs.
use Prim.Native.Nat.{eq, lt}
use nwaku.Base.{
  ℕ, suc, ◌≡◌, refl, arith, Bool, true, false, none, some, List, [], ◌∷◌, All, length, map, codes,
}
use nwaku.Message.{WakuMessage}
use nwaku.Archive.Order.{compare_text}
use nwaku.Archive.ListSet.{set}
use nwaku.Archive.SortedSet.{contains_key, insert_item}
use nwaku.Archive.Index.{Index, Key, cmp, eq_index, IsRegular, cmp-untimed}
use nwaku.Archive.Queue.{QueueDriver, new, Put, index_of, puts}
use nwaku.Archive.Unbounded.{newest, store_all, store_item}
use nwaku.Archive.Bounded.{puts-newest}
use nwaku.Archive.Pages.{walk, keep, matches_query, has_text}
use nwaku.Archive.Find.{ArchiveQuery, ArchiveResponse}
use nwaku.Archive.Responses.{hash_of}
use nwaku.Archive.Resuming.{whole_cursor}
use nwaku.Archive.Paging.{pages, gathered}
use nwaku.Archive.Handle.{Hashes, IsAdmissible}
use nwaku.Archive.Handled.{Arrival, handles, IsAdmitted, nothing, admit, pass_over, handles-pages}
use nwaku.Base.{◌≤◌, inr}

abbrev message : ℕ → WakuMessage
message time = record {
  payload = [];
  content_topic = codes "/a/1/b/c";
  meta = [];
  version = 0;
  timestamp = time;
  ephemeral = false;
  proof = [];
}

-- A message with its time for digest and hash.
abbrev put_at : ℕ → Put
put_at time = record {
  pubsub_topic = codes "/waku/2/rs/1/0";
  message = message time;
  digest = time;
  message_hash = time;
  received_time = time;
}

abbrev origin : ℕ → Key
origin h = (h, (h, codes "/waku/2/rs/1/0"))

abbrev messages : List Put
messages = put_at 30 ∷ put_at 10 ∷ put_at 40 ∷ put_at 20 ∷ put_at 30 ∷ put_at 50 ∷ []

messages-IsRegular : All (λ p. IsRegular origin (index_of p)) messages
messages-IsRegular = (
  record { timed = omega arith; known = refl },
  (
    record { timed = omega arith; known = refl },
    (
      record { timed = omega arith; known = refl },
      (
        record { timed = omega arith; known = refl },
        (
          record { timed = omega arith; known = refl },
          (record { timed = omega arith; known = refl }, tt),
        ),
      ),
    ),
  ),
)

abbrev query : Bool → ArchiveQuery
query ascending = record {
  include_data = true;
  criteria = record {
    content_topics = codes "/a/1/b/c" ∷ [];
    pubsub_topic = some (codes "/waku/2/rs/1/0");
    start_time = some 15;
    end_time = some 45;
    hashes = [];
  };
  cursor = none;
  page_size = 2;
  ascending = ascending;
}

-- Of six messages, one of them twice, a queue of four has the newest four, in order.
queue_filled : map hash_of (newest 4 (store_all [] messages)) ≡ 20 ∷ 30 ∷ 40 ∷ 50 ∷ []
unfolding newest store_all store_item contains_key insert_item cmp eq_index compare_text
queue_filled = refl

matching_backward :
    map hash_of
      (keep (matches_query (query false).criteria) (walk false (newest 4 (store_all [] messages))))
    ≡ 40 ∷ 30 ∷ 20 ∷ []
unfolding keep matches_query newest store_all store_item contains_key insert_item cmp eq_index
    compare_text has_text
matching_backward = refl

puts-newest_example :
    puts set (new 4) messages
    ≡ some (record { items = newest 4 (store_all [] messages); capacity = 4 })
puts-newest_example = puts-newest origin set 4 (omega arith) messages messages-IsRegular

abbrev hashes : Hashes
hashes = record {
  compute_digest = WakuMessage.timestamp;
  compute_message_hash = λ topic m. m.timestamp;
}

abbrev arrival_at : ℕ → WakuMessage → Arrival
arrival_at now m = record { topic = codes "/waku/2/rs/1/0"; message = m; now = now; later = now }

-- Two of the messages are not admitted: one is ephemeral, and one too old.
abbrev arrivals : List Arrival
arrivals =
    arrival_at 31 (message 30)
    ∷ arrival_at 32 (record (message 35) { ephemeral = true })
    ∷ arrival_at 33 (message 10)
    ∷ arrival_at 34 (message 40)
    ∷ arrival_at 30000000000 (message 45)
    ∷ arrival_at 35 (message 20)
    ∷ arrival_at 36 (message 30)
    ∷ arrival_at 37 (message 50)
    ∷ []

too_old : ¬ IsAdmissible 30000000000 (message 45)
too_old h = ground (arith, h)

admissible : (now time : ℕ) → time ≤ 100 → now ≤ 100 → IsAdmissible now (message time)
admissible now time h k = (refl, inr (omega (arith, h, k), omega (arith, h, k)))

arrivals-IsAdmitted : IsAdmitted set hashes arrivals messages
arrivals-IsAdmitted = admit (admissible 31 30 (omega arith) (omega arith)) (
    pass_over (λ h. cc h.0)
      (admit (admissible 33 10 (omega arith) (omega arith)) (
        admit (admissible 34 40 (omega arith) (omega arith)) (
          pass_over {a = arrival_at 30000000000 (message 45)} too_old (
            admit (admissible 35 20 (omega arith) (omega arith)) (
              admit (admissible 36 30 (omega arith) (omega arith))
                (admit (admissible 37 50 (omega arith) (omega arith)) nothing)))))))

handles-pages_example :
    (d : QueueDriver) × (rs : List ArchiveResponse) × (handles set hashes (new 4) arrivals ≡ some d)
    × (pages whole_cursor (suc (length d.items)) d (query false) ≡ some rs)
    × (gathered false rs
        ≡ map hash_of (
            keep
              (matches_query (query false).criteria)
              (walk false (newest 4 (store_all [] messages)))))
handles-pages_example =
    handles-pages set hashes origin 4 arrivals messages (query false) (omega arith)
      arrivals-IsAdmitted messages-IsRegular (omega arith)

abbrev untimed : ℕ → ℕ → Index
untimed received hash = record {
  pubsub_topic = [];
  sender_time = 0;
  receiver_time = received;
  digest = 7;
  hash = hash;
}

abbrev timed : Index
timed = record { pubsub_topic = []; sender_time = 15; receiver_time = 15; digest = 8; hash = 3 }

cmp-untimed_example :
    (cmp (untimed 10 1) (untimed 20 1) ≡ eq)
    × (cmp (untimed 10 1) timed ≡ lt)
    × (cmp timed (untimed 20 1) ≡ lt)
cmp-untimed_example =
    cmp-untimed (untimed 10 1) (untimed 20 1) timed refl refl refl refl (omega arith) (omega arith)
      (omega arith) (omega arith)
