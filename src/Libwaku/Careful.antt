-- ===== src/Libwaku/Careful.antt =====
-- library/libwaku.nim: calls that the library can take, and what a node that is there answers.
use nwaku.Base.{zero, suc, ℕ, ◌≡◌, refl, true, Option, none, some, List, [], ◌∷◌, ◌++◌}
use nwaku.Base.Program.{◌>>=◌, Returns, if_elim}
use nwaku.Message.{WakuMessage}
use nwaku.CClient.Requests.{
  ctx, Request, start, stop, destroy, version, set_event_callback, default_pubsub_topic,
  listen_addresses, content_topic, relay_publish, named_pubsub_topic, relay_subscribe,
  relay_unsubscribe, connect, Reply,
}
use nwaku.Libwaku.Requests.{
  Answer, ok, err, NodeRequest, create_node, start_node, stop_node, listening_addresses, connect_to,
  subscribe, unsubscribe, publish, Outcome, WakuNode, process, created, published,
}
use nwaku.Libwaku.Json.{Codecs, parsed, JsonMessage}
use nwaku.Libwaku.State.{shared_message, Lib, L, text_or_error, only_error}
use nwaku.Libwaku.Api.{send, publish_built}
use nwaku.Libwaku.Json.{from_json_node, JsonField}
use nwaku.Libwaku.Calls.{ApiCall}

module _ {N : Type 0} (node : WakuNode N) where
  -- The texts that a callback can be told are not empty.
  pub record HasTexts : Type 0 where
    pub addresses : (n : N) → ¬ (node.listen_addresses n ≡ [])
    pub hashes : (topic : List ℕ) (msg : WakuMessage) → ¬ (node.message_hash topic msg ≡ [])

module _ (codecs : Codecs) where
  abbrev pub IsReadable : List ℕ → Type 0
  IsReadable json =
      (fields : List ℕ → Option JsonField) × (codecs.parse_json json ≡ parsed fields)
      × (m : JsonMessage) × (from_json_node fields ≡ some m)

  -- A call that stays within what the library can take.
  abbrev pub IsCareful : Request → Type 0
  IsCareful start = Unit
  IsCareful stop = Unit
  IsCareful destroy = ⊥
  IsCareful version = Unit
  IsCareful set_event_callback = Unit
  IsCareful default_pubsub_topic = Unit
  IsCareful listen_addresses = Unit
  IsCareful (content_topic app n name encoding) = Unit
  IsCareful (relay_publish topic json timeout) = IsReadable json
  IsCareful (named_pubsub_topic name) = Unit
  IsCareful (relay_subscribe topic) = Unit
  IsCareful (relay_unsubscribe topic) = Unit
  IsCareful (connect peers timeout) = Unit

  abbrev pub IsCarefulCall : ApiCall → Type 0
  IsCarefulCall c = (c.context ≡ ctx) × (c.callback ≡ true) × IsCareful c.request

module _ {N : Type 0} where
  -- There is a context, and a node behind it.
  abbrev pub IsReady : Lib N → Type 0
  IsReady s = (s.created ≡ true) × (n : N) × (s.waku ≡ some n)

  abbrev pub Ready : Reply → Lib N → Type 0
  Ready reply t = IsReady t

-- An answer that can be told: an error, or a text that is not empty.
abbrev pub IsTellable : Answer (List ℕ) → Type 0
IsTellable (ok []) = ⊥
IsTellable (ok (char ∷ text)) = Unit
IsTellable (err e) = Unit

-- What is told with its text.
abbrev pub HasText : NodeRequest → Answer (List ℕ) → Type 0
HasText (create_node json) a = Unit
HasText start_node a = Unit
HasText stop_node a = Unit
HasText listening_addresses a = IsTellable a
HasText (connect_to peers timeout) a = Unit
HasText (subscribe topic) a = Unit
HasText (unsubscribe topic) a = Unit
HasText (publish topic msg) a = IsTellable a

module _ {N : Type 0} (node : WakuNode N) (codecs : Codecs) (texts : HasTexts node) where
  -- A node that is there answers, and is there afterwards.
  abbrev Answers : NodeRequest → Outcome N → Type 0
  Answers r none = ⊥
  Answers r (some (none, a)) = ⊥
  Answers r (some (some n, a)) = HasText r a

  text_is : (text : List ℕ) → ¬ (text ≡ []) → IsTellable (ok text)
  text_is [] some_text = absurd (some_text refl)
  text_is (char ∷ text) some_text = tt

  created-Answers :
      (json : List ℕ) (n : N) (a : Answer N) → Answers (create_node json) (created (some n) a)
  created-Answers json n (ok k) = tt
  created-Answers json n (err e) = tt

  published-Answers :
      (topic : List ℕ) (msg : WakuMessage) (k : N × ℕ)
      → Answers (publish topic msg) (published (node.message_hash topic msg) k)
  published-Answers topic msg (k, zero) = tt
  published-Answers topic msg (k, suc peers) = text_is _ (texts.hashes topic msg)

  process-Answers : (r : NodeRequest) (n : N) → Answers r (process node r (some n))
  unfolding process
  process-Answers (create_node json) n = created-Answers json n (node.create_waku json)
  process-Answers start_node n = tt
  process-Answers stop_node n = tt
  process-Answers listening_addresses n = text_is _ (texts.addresses n)
  process-Answers (connect_to peers timeout) n = tt
  process-Answers (subscribe topic) n = if_elim (Answers (subscribe topic)) (node.has_relay n) tt tt
  process-Answers (unsubscribe topic) n =
      if_elim (Answers (unsubscribe topic)) (node.has_relay n) tt tt
  process-Answers (publish topic msg) n =
      if_elim (Answers (publish topic msg)) (node.has_relay n) (published-Answers topic msg _) tt

  Answers-cases :
      (r : NodeRequest) (o : Outcome N)
      → Answers r o
      → (k : N) × (a : Answer (List ℕ)) × (o ≡ some (some k, a)) × HasText r a
  Answers-cases r none h = absurd h
  Answers-cases r (some (none, a)) h = absurd h
  Answers-cases r (some (some k, a)) h = (k, a, refl, h)

  -- The state behind a request, but for the number of blocks.
  abbrev pub sent_to : NodeRequest → N → ℕ → Lib N → Lib N
  sent_to r k b s = record s { waku = some k; sent = s.sent ++ r ∷ []; blocks = b }

  pub send-Ready :
      (r : NodeRequest) (f : Answer (List ℕ) → L N Reply) (s : Lib N)
      → IsReady s
      → ((k : N) (a : Answer (List ℕ)) (b : ℕ)
          → HasText r a
          → Returns Ready (f a (sent_to r k b s)))
      → Returns Ready ((send node codecs r >>= f) s)
  unfolding send
  send-Ready r f s (made, n, there) h =
      let (k, a, answered, text) = Answers-cases r _ (process-Answers r n) in
      rw there (rw answered (h k a _ text))

  pub tellable-Ready :
      (a : Answer (List ℕ)) (t : Lib N)
      → IsTellable a
      → IsReady t
      → Returns Ready (text_or_error true a t)
  tellable-Ready (ok []) t h ready = absurd h
  tellable-Ready (ok (char ∷ text)) t h ready = ready
  tellable-Ready (err e) t h ready = ready

  pub error-Ready :
      (a : Answer (List ℕ)) (t : Lib N) → IsReady t → Returns Ready (only_error true a t)
  error-Ready (ok text) t ready = ready
  error-Ready (err e) t ready = ready

  pub built-Ready :
      (topic : List ℕ) (msg : Answer WakuMessage) (t : Lib N)
      → IsReady t
      → Returns Ready (publish_built node codecs topic msg t)
  built-Ready topic (err e) t ready = ready
  built-Ready topic (ok msg) t ready =
      send-Ready (publish topic (shared_message msg)) _ _ ready
        λ k a b text. tellable-Ready a _ text (ready.0, k, refl)
