-- ===== src/Filter/Runs.antt =====
-- waku/waku_filter_v2/protocol.nim: a service node over any sequence of requests and of rounds of
-- its maintenance.
use nwaku.Base.{
  ◌^◌, ℕ, ◌≤◌, ◌<◌, ◌≡◌, refl, arith, Bool, ◌==◌, ltb, Option, none, some, List, [], ◌∷◌, length,
  All, Bool-cases, Option-cases, inl, inr,
}
use nwaku.Filter.Tables.{PeerId, PubsubTopic, ContentTopic, FilterCriterion, find_peer}
use nwaku.Filter.Subscriptions.{
  FilterSubscriptions, Outcome, ok, err, init, is_subscribed, remove_peer, remove_peers,
  refresh_subscription, add_subscription, remove_subscription,
}
use nwaku.Filter.Protocol.{
  FilterSubscribeRequest, FilterSubscribeResponse, FilterSubscribeType, subscriber_ping, subscribe,
  unsubscribe, unsubscribe_all, SubscribeResult, rejected, FilterSubscribeError, Readings, criteria,
  checked, added, removed, ping_subscriber, subscribe_peer, unsubscribe_peer, unsubscribe_all_of,
  handle_type, response, handle_subscribe_request, peers_lost, maintain_subscriptions,
}
use nwaku.Filter.Counts.{sub_count}
use nwaku.Filter.Valid.Tables.{criteria_of, Unique}
use nwaku.Filter.Valid.Invariant.{Sound, Limits}
use nwaku.Filter.Valid.Add.{
  max_peers-add_subscription, max_criteria-add_subscription, add_subscription-IsValid,
}
use nwaku.Filter.Valid.Remove.{remove_subscription_total, set_peer-IsValid}
use nwaku.Filter.Valid.Clean.{
  clean_up-Sound, IsValid-IsLoose, remove_peer-IsLoose, remove_peers-IsLoose,
}

length-criteria :
    (pubsub : PubsubTopic) (seen topics : List ContentTopic)
    → length (criteria pubsub seen topics) ≤ length topics
unfolding criteria
length-criteria pubsub seen [] = omega arith
length-criteria pubsub seen (t ∷ ts) = ground (arith, length-criteria pubsub (t ∷ seen) ts)

-- A property of what `checked` gives, for criteria of an admitted number.
checked_elim {ℓ κ} :
    {A : Type ℓ} (P : A → Type κ) (reject : FilterSubscribeError → A)
    (run : List FilterCriterion → A) (pubsub : Option PubsubTopic) (topics : List ContentTopic)
    → ((e : FilterSubscribeError) → P (reject e))
    → ((cs : List FilterCriterion) → length cs ≤ 100 → P (run cs))
    → P (checked reject run pubsub topics)
checked_elim P reject run none topics no_run yes_run = no_run _
checked_elim P reject run (some pubsub) topics no_run yes_run =
    elim (Bool-cases (length topics == 0)) [
      | inl empty ↦ rw empty (no_run _)
      | inr given ↦ elim (Bool-cases (ltb 100 (length topics))) [
        | inl long ↦ rw (given, long) (no_run _)
        | inr short ↦
            rw (given, short)
              (yes_run (criteria pubsub [] topics)
                (ground (arith, length-criteria pubsub [] topics)))
      ]
    ]

-- A result, with a sound state.
abbrev SoundResult : Limits → {A : Type 0} → Option (FilterSubscriptions × A) → Type 0
SoundResult limits none = ⊥
SoundResult limits (some (s, a)) = Sound limits s

SoundResult-some :
    {limits : Limits} {A : Type 0} (o : Option (FilterSubscriptions × A))
    → SoundResult limits o
    → (s : FilterSubscriptions) × (a : A) × (o ≡ some (s, a)) × Sound limits s
SoundResult-some none h = absurd h
SoundResult-some (some (s, a)) h = (s, a, refl, h)

refresh_subscription-Sound :
    {limits : Limits} (s : FilterSubscriptions) (p : PeerId) (now : ℕ)
    → Sound limits s
    → Sound limits (refresh_subscription s p now)
unfolding refresh_subscription
refresh_subscription-Sound s p now (v, config) =
    elim (Option-cases (find_peer p s.peers_subscribed)) [
      | inl missing ↦ rw missing (v, config)
      | inr (d, known) ↦ rw known (
        set_peer-IsValid s p d (record d { last_seen = now }) known refl v,
        record {
          peers = config.peers;
          criteria = config.criteria;
          uint32 = config.uint32;
          largest = config.largest;
        },
      )
    ]

added-Sound :
    {limits : Limits} (x : FilterSubscriptions × Outcome)
    → Sound limits x.0
    → SoundResult limits (some (added x))
added-Sound (s, ok) h = h
added-Sound (s, err c) h = h

removed-Sound :
    (limits : Limits) (o : Option (FilterSubscriptions × Outcome))
    → SoundResult limits o
    → SoundResult limits (removed o)
removed-Sound limits none h = h
removed-Sound limits (some (s, ok)) h = h
removed-Sound limits (some (s, err c)) h = h

module _ {limits : Limits} (s : FilterSubscriptions) (p : PeerId) (t : Readings)
    (sound : Sound limits s) where
  ping_subscriber-Sound : Sound limits (ping_subscriber s p t).0
  unfolding ping_subscriber
  ping_subscriber-Sound = elim (Bool-cases (is_subscribed s p t.first)) [
    | inl fresh ↦ rw fresh (refresh_subscription-Sound s p t.second sound)
    | inr old ↦ rw old sound
  ]

  subscribe_peer-Sound :
      (pubsub : Option PubsubTopic) (topics : List ContentTopic)
      → SoundResult limits (some (subscribe_peer s p pubsub topics t))
  unfolding subscribe_peer
  subscribe_peer-Sound pubsub topics =
      checked_elim (λ (x : FilterSubscriptions × SubscribeResult). SoundResult limits (some x))
        (λ e. (s, rejected e)) (λ cs. added (add_subscription s p cs t.first)) pubsub topics
        (λ e. sound)
        (λ cs short.
          let limit = max_criteria-add_subscription s p cs t.first in
          added-Sound (add_subscription s p cs t.first) (
            add_subscription-IsValid s p cs t.first sound.0 sound.1 short,
            record {
              peers = rw (max_peers-add_subscription s p cs t.first) sound.1.peers;
              criteria = rw limit sound.1.criteria;
              uint32 = rw limit sound.1.uint32;
              largest = rw limit sound.1.largest;
            },
          ))

  unsubscribe_peer-Sound :
      (pubsub : Option PubsubTopic) (topics : List ContentTopic)
      → SoundResult limits (unsubscribe_peer s p pubsub topics t)
  unfolding unsubscribe_peer
  unsubscribe_peer-Sound pubsub topics =
      checked_elim (SoundResult limits) (λ e. some (s, rejected e))
        (λ cs. removed (remove_subscription s p cs t.first)) pubsub topics (λ e. sound)
        (λ cs short.
          let (s', o, is, sound') = remove_subscription_total p cs t.first s sound in
          removed-Sound limits (remove_subscription s p cs t.first) (rw is sound'))

  unsubscribe_all_of-Sound : t.second ≡ t.third → Sound limits (unsubscribe_all_of s p t).0
  unfolding unsubscribe_all_of
  unsubscribe_all_of-Sound same = elim (Bool-cases (is_subscribed s p t.first)) [
    | inl fresh ↦ rw fresh (
        clean_up-Sound (remove_peer s p) t.second t.third (remove_peer-IsLoose s p sound.0)
          (unfold remove_peer in
            record {
              peers = sound.1.peers;
              criteria = sound.1.criteria;
              uint32 = sound.1.uint32;
              largest = sound.1.largest;
            })
          same)
    | inr old ↦ rw old sound
  ]

  handle_type-Sound :
      (r : FilterSubscribeRequest) (type : FilterSubscribeType)
      → t.second ≡ t.third
      → SoundResult limits (handle_type s p r t type)
  unfolding handle_type
  handle_type-Sound r subscriber_ping same = ping_subscriber-Sound
  handle_type-Sound r subscribe same = subscribe_peer-Sound r.pubsub_topic r.content_topics
  handle_type-Sound r unsubscribe same = unsubscribe_peer-Sound r.pubsub_topic r.content_topics
  handle_type-Sound r unsubscribe_all same = unsubscribe_all_of-Sound same

  -- From a sound state, and a clock that stands still while `cleanUp` runs: a request of any type is
  -- answered, with nothing undefined on the way, and leaves a sound state.
  pub handle_subscribe_request_total :
      (r : FilterSubscribeRequest)
      → t.second ≡ t.third
      → (s' : FilterSubscriptions) × (answer : FilterSubscribeResponse) × (handle_subscribe_request
            s p r t
          ≡ some (s', answer))
        × Sound limits s'
  unfolding handle_subscribe_request
  handle_subscribe_request_total r same =
      let (s', result, is, sound') =
        SoundResult-some (handle_type s p r t r.filter_subscribe_type)
          (handle_type-Sound r r.filter_subscribe_type same) in
      (s', response r.request_id result, rw is, sound')

maintain_subscriptions-Sound :
    {limits : Limits} (s : FilterSubscriptions) (in_store : PeerId → Bool) (t : Readings)
    → Sound limits s
    → t.first ≡ t.second
    → Sound limits (maintain_subscriptions s in_store t)
unfolding maintain_subscriptions
maintain_subscriptions-Sound s in_store t sound same =
    let lost = peers_lost in_store s.peers_subscribed in
    elim (Bool-cases (ltb 0 (length lost))) [
      | inl some_lost ↦ rw some_lost (
          clean_up-Sound (remove_peers s lost) t.first t.second
            (remove_peers-IsLoose s lost sound.0)
            (unfold remove_peers in
              record {
                peers = sound.1.peers;
                criteria = sound.1.criteria;
                uint32 = sound.1.uint32;
                largest = sound.1.largest;
              })
            same)
      | inr none_lost ↦
          rw none_lost (clean_up-Sound s t.first t.second (IsValid-IsLoose s sound.0) sound.1 same)
    ]

-- What happens to a node, with the readings of the clock.
pub data Event : Type 0 where
  request : PeerId → FilterSubscribeRequest → Readings → Event
  maintenance : (PeerId → Bool) → Readings → Event

-- The clock stands still while `cleanUp` runs.
abbrev pub Settled : Event → Type 0
Settled (request p r t) = t.second ≡ t.third
Settled (maintenance in_store t) = t.first ≡ t.second

unfoldable pub run : List Event → FilterSubscriptions → Option FilterSubscriptions
run [] s = some s
run (request p r t ∷ es) s = elim (handle_subscribe_request s p r t) [
  | none ↦ none
  | some (s', answer) ↦ run es s'
]
run (maintenance in_store t ∷ es) s = run es (maintain_subscriptions s in_store t)

run-Sound :
    {limits : Limits} (es : List Event) (s : FilterSubscriptions)
    → Sound limits s
    → All Settled es
    → (s' : FilterSubscriptions) × (run es s ≡ some s') × Sound limits s'
unfolding run
run-Sound [] s sound settled = (s, refl, sound)
run-Sound (request p r t ∷ es) s sound settled =
    let (s', answer, is, sound') = handle_subscribe_request_total s p t sound r settled.0 in
    let (s'', ran, sound'') = run-Sound es s' sound' settled.1 in (s'', rw (is, run) ran, sound'')
run-Sound (maintenance in_store t ∷ es) s sound settled =
    run-Sound es (maintain_subscriptions s in_store t)
      (maintain_subscriptions-Sound s in_store t sound settled.0) settled.1

-- From the start, with a limit of 100 to 2^32 - 1 criteria for a peer, any sequence of requests and
-- rounds of maintenance runs to its end, with no write through a dangling pointer; then the counter
-- of each peer is the number of criteria whose set has it, and at most the limit, no peer has two
-- entries, and there are no more peers than the limit. The clock is taken to stand still while
-- `cleanUp` runs.
pub run-init-IsValid :
    (timeout max_peers max_criteria : ℕ) (es : List Event)
    → 100 ≤ max_criteria
    → max_criteria < 2 ^ 32
    → All Settled es
    → (s : FilterSubscriptions) × (run es (init timeout max_peers max_criteria) ≡ some s)
      × ((p : PeerId)
          → (criteria_of p s.peers_subscribed ≡ sub_count p s.subscriptions)
            × (criteria_of p s.peers_subscribed ≤ max_criteria))
      × Unique s.peers_subscribed
      × (length s.peers_subscribed ≤ max_peers)
run-init-IsValid timeout max_peers max_criteria es low high settled =
    let (s, ran, (v, config)) =
      run-Sound {limits = record { peers = max_peers; criteria = max_criteria }} es
        (init timeout max_peers max_criteria)
        (unfold init find_peer sub_count in
          (
            record {
              counted = λ p. refl;
              unique = tt;
              one_set = tt;
              within = λ p. omega arith;
              room = omega arith;
            },
            record { peers = refl; criteria = refl; uint32 = high; largest = low },
          ))
        settled in
    (
      s,
      ran,
      λ p. (v.counted p, omega (arith, v.within p, config.criteria)),
      v.unique,
      omega (arith, v.room, config.peers),
    )
