-- ===== src/Archive/Handle.antt =====
-- waku/waku_archive/archive.nim: `validate` and `handleMessage`, with the readings of the clock as
-- arguments. The digest and the hash of a message are libraries' functions, and parameters. A plain
-- `return` from `validate` leaves a result that is an error with no text.
use nwaku.Base.{
  ℕ, ◌+◌, ◌*◌, ◌≤◌, ◌≡◌, ◌↔◌, ◌⊎◌, refl, arith, false, ltb, ◌==◌, if◌then◌else◌, Option, some, List,
  [], codes, inl, inr,
}
use nwaku.Message.{WakuMessage}
use nwaku.Archive.SortedSet.{SortedSet}
use nwaku.Archive.Index.{Index, cmp}
use nwaku.Archive.Queue.{QueueDriver, Put, put, kept}

-- 20 seconds in nanoseconds.
abbrev pub max_message_timestamp_variance : ℕ
max_message_timestamp_variance = 20 * 1000000000

pub data Validated : Type 0 where
  accepted : Validated
  refused : List ℕ → Validated

unfoldable pub validate : ℕ → WakuMessage → Validated
validate now msg =
    if msg.ephemeral
    then refused []
    else (if msg.timestamp == 0
        then accepted
        else (if ltb (msg.timestamp + max_message_timestamp_variance) now
            then refused (codes "invalid_message_too_old")
            else (if ltb (now + max_message_timestamp_variance) msg.timestamp
                then refused (codes "invalid_message_future_timestamp")
                else accepted)))

pub Validated-cases : (v : Validated) → (v ≡ accepted) ⊎ ((e : List ℕ) × (v ≡ refused e))
Validated-cases accepted = inl refl
Validated-cases (refused e) = inr (e, refl)

abbrev pub IsAdmissible : ℕ → WakuMessage → Type 0
IsAdmissible now msg =
    (msg.ephemeral ≡ false)
    × ((msg.timestamp ≡ 0)
        ⊎ ((now ≤ msg.timestamp + max_message_timestamp_variance)
            × (msg.timestamp ≤ now + max_message_timestamp_variance)))

-- Exactly the messages that are not ephemeral, and have no time or one near the clock's, are valid.
pub validate_iff :
    (now : ℕ) (msg : WakuMessage) → (validate now msg ≡ accepted) ↔ IsAdmissible now msg
unfolding validate
validate_iff now msg = ground arith

pub record Hashes : Type 0 where
  pub compute_digest : WakuMessage → ℕ
  pub compute_message_hash : List ℕ → WakuMessage → ℕ

module _ (set : SortedSet Index WakuMessage cmp) (hashes : Hashes) where
  abbrev pub put_of : List ℕ → WakuMessage → ℕ → Put
  put_of topic msg later = record {
    pubsub_topic = topic;
    message = msg;
    digest = hashes.compute_digest msg;
    message_hash = hashes.compute_message_hash topic msg;
    received_time = if ltb 0 msg.timestamp then msg.timestamp else later;
  }

  abbrev pub store_valid : QueueDriver → List ℕ → WakuMessage → ℕ → Validated → Option QueueDriver
  store_valid d topic msg later accepted = kept d (put set d (put_of topic msg later))
  store_valid d topic msg later (refused e) = some d

  -- Two readings of the clock, for the check and for a message without a time.
  unfoldable pub handle_message : QueueDriver → List ℕ → WakuMessage → ℕ → ℕ → Option QueueDriver
  handle_message d topic msg now later = store_valid d topic msg later (validate now msg)
