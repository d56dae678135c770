-- ===== src/Archive/Queue.antt =====
-- waku/waku_archive/driver/queue_driver/queue_driver.nim: a sorted set of bounded size, and what is
-- added to it. The set is a library, and a parameter.
use Prim.Native.Nat.{Ordering, lt, eq, gt}
use nwaku.Base.{
  ◌>>=◌, ℕ, Bool, true, false, leb, if◌then◌else◌, Option, none, some, List, [], ◌∷◌, length, codes,
}
use nwaku.Message.{WakuMessage}
use nwaku.Archive.Index.{Index, cmp}
use nwaku.Archive.SortedSet.{SortedSet}

abbrev pub Item : Type 0
Item = Index × WakuMessage

pub record QueueDriver : Type 0 where
  pub items : List Item
  pub capacity : ℕ

abbrev pub new : ℕ → QueueDriver
new capacity = record { items = []; capacity = capacity }

-- A result, the text of an error, or a Defect, which ends the program.
pub data Outcome (A : Type 0) : Type 0 where
  ok : A → Outcome A
  err : List ℕ → Outcome A
  crashed : Outcome A

abbrev pub is_lt : Ordering → Bool
is_lt lt = true
is_lt eq = false
is_lt gt = false

-- The arguments of `put`.
pub record Put : Type 0 where
  pub pubsub_topic : List ℕ
  pub message : WakuMessage
  pub digest : ℕ
  pub message_hash : ℕ
  pub received_time : ℕ

abbrev pub index_of : Put → Index
index_of p = record {
  pubsub_topic = p.pubsub_topic;
  sender_time = p.message.timestamp;
  receiver_time = p.received_time;
  digest = p.digest;
  hash = p.message_hash;
}

-- The queue after an attempt: an error leaves it as it was.
abbrev pub kept : QueueDriver → Outcome QueueDriver → Option QueueDriver
kept d (ok d') = some d'
kept d (err e) = some d
kept d crashed = none

module _ (set : SortedSet Index WakuMessage cmp) where
  -- Where the queue is full; the first item of an empty one is a Defect.
  abbrev pub replace_oldest : QueueDriver → Index → WakuMessage → List Item → Outcome QueueDriver
  replace_oldest d index msg [] = crashed
  replace_oldest d index msg ((oldest, m) ∷ r) =
      if is_lt (cmp index oldest)
      then err (codes "too_old")
      else ok (record d { items = set.insert index msg (set.delete oldest d.items) })

  unfoldable pub add : QueueDriver → Index → WakuMessage → Outcome QueueDriver
  add d index msg =
      if set.contains index d.items
      then err (codes "duplicate")
      else (if leb d.capacity (length d.items)
          then replace_oldest d index msg d.items
          else ok (record d { items = set.insert index msg d.items }))

  unfoldable pub put : QueueDriver → Put → Outcome QueueDriver
  put d p = add d (index_of p) p.message

  unfoldable pub puts : QueueDriver → List Put → Option QueueDriver
  puts d [] = some d
  puts d (p ∷ ps) = kept d (put d p) >>= λ d'. puts d' ps
