-- ===== src/Archive/Counts.antt =====
-- waku/waku_archive/driver/queue_driver/queue_driver.nim: what the driver says of itself.
use nwaku.Base.{ℕ, ◌≤◌, ◌≡◌, some, List, [], ◌∷◌, All, length, codes, true, false}
use nwaku.Message.{WakuMessage}
use nwaku.Archive.SortedSet.{SortedSet}
use nwaku.Archive.Index.{Index, Key, cmp, IsRegular}
use nwaku.Archive.Queue.{Item, QueueDriver, new, Put, index_of, puts, Outcome, ok, err, crashed}
use nwaku.Archive.Unbounded.{store_all, length-newest_le}
use nwaku.Archive.Bounded.{puts-newest}
use nwaku.Archive.Pages.{walk}

-- The first key of a walk.
abbrev first_key : List Item → Outcome Index
first_key [] = err (codes "Not found")
first_key ((k, m) ∷ r) = ok k

abbrev first : QueueDriver → Outcome Index
first d = first_key (walk true d.items)

abbrev last : QueueDriver → Outcome Index
last d = first_key (walk false d.items)

abbrev arrival : Outcome Index → Outcome ℕ
arrival (ok k) = ok k.receiver_time
arrival (err e) = err e
arrival crashed = crashed

abbrev get_oldest_message_timestamp : QueueDriver → Outcome ℕ
get_oldest_message_timestamp d = arrival (first d)

abbrev get_newest_message_timestamp : QueueDriver → Outcome ℕ
get_newest_message_timestamp d = arrival (last d)

-- Also the number of pages, their size and the size of the database.
abbrev get_messages_count : QueueDriver → Outcome ℕ
get_messages_count d = ok (length d.items)

-- Behind any puts there are no more messages than the capacity.
puts-length :
    (origin : ℕ → Key) (set : SortedSet Index WakuMessage cmp) (n : ℕ)
    → 1 ≤ n
    → (ps : List Put) → All (λ p. IsRegular origin (index_of p)) ps
    → (d : QueueDriver) × (puts set (new n) ps ≡ some d) × (length d.items ≤ n)
puts-length origin set n positive ps h =
    (_, puts-newest origin set n positive ps h, length-newest_le n (store_all [] ps))
