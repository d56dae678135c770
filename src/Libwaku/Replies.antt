-- ===== src/Libwaku/Replies.antt =====
-- library/libwaku.nim: what each call returns, sends and leaves behind.
use nwaku.Base.{
  ℕ, ◌+◌, ◌≡◌, ap, refl, Bool, true, false, Option, List, [], ◌∷◌, ◌++◌, arith, Option-cases, inl,
  inr,
}
use nwaku.Base.Program.{Ensures}
use nwaku.Message.{WakuMessage}
use nwaku.CClient.Requests.{
  Context, Request, start, stop, destroy, version, set_event_callback, default_pubsub_topic,
  listen_addresses, content_topic, relay_publish, named_pubsub_topic, relay_subscribe,
  relay_unsubscribe, connect, Reply,
}
use nwaku.Libwaku.Requests.{
  Answer, ok, err, start_node, stop_node, listening_addresses, connect_to, subscribe, publish,
  WakuNode,
}
use nwaku.Libwaku.Json.{Codecs, JsonContent, malformed, parsed, to_waku_message}
use nwaku.Libwaku.State.{shared_message, Lib, L, with_callback, text_or_error, only_error}
use nwaku.Libwaku.Api.{
  waku_version, waku_set_event_callback, waku_content_topic, waku_pubsub_topic,
  waku_default_pubsub_topic, publish_built, publish_content, waku_relay_publish, waku_start,
  waku_stop, waku_relay_subscribe, waku_relay_unsubscribe, waku_connect, waku_listen_addresses,
  waku_destroy, serve,
}
use nwaku.Libwaku.Json.{from_json_node}
use nwaku.Libwaku.Calls.{
  missing, silent, value, error, nothing, destroyed, one, Keeps, Effect, use_ctx_lem,
  set_user_data_lem, send_lem,
}

module _ {N : Type 0} (u : Option ℕ) (s : Lib N) where
  only_error_lem :
      (callback : Bool) (answer : Answer (List ℕ)) (t : Lib N)
      → Keeps u s t
      → Ensures (Effect callback u s) (only_error callback answer t)
  only_error_lem callback (ok text) t k = (silent, k)
  only_error_lem true (err e) t k = (error, k)
  only_error_lem false (err e) t k = tt

  text_or_error_lem :
      (callback : Bool) (answer : Answer (List ℕ)) (t : Lib N)
      → Keeps u s t
      → Ensures (Effect callback u s) (text_or_error callback answer t)
  text_or_error_lem callback (ok []) t k = tt
  text_or_error_lem true (ok (char ∷ text)) t k = (value, k)
  text_or_error_lem false (ok (char ∷ text)) t k = tt
  text_or_error_lem true (err e) t k = (error, k)
  text_or_error_lem false (err e) t k = tt

  with_callback_lem :
      (callback : Bool) (m : L N Reply) (t : Lib N)
      → Keeps u s t
      → Ensures (Effect true u s) (m t)
      → Ensures (Effect callback u s) (with_callback callback m t)
  with_callback_lem true m t k h = h
  with_callback_lem false m t k h = (missing, k)

module _ {N : Type 0} (node : WakuNode N) (codecs : Codecs) (u : Option ℕ) (s : Lib N) where
  publish_built_lem :
      (topic : List ℕ) (msg : Answer WakuMessage) (t : Lib N)
      → t.sent ≡ s.sent
      → t.created ≡ s.created
      → t.blocks ≡ s.blocks
      → t.event_user_data ≡ s.event_user_data
      → Ensures (Effect true u s) (publish_built node codecs topic msg t)
  publish_built_lem topic (err e) t sent created blocks event =
      (error, (nothing sent created blocks, inl event))
  publish_built_lem topic (ok msg) t sent created blocks event =
      send_lem node codecs (Effect true u s) (publish topic (shared_message msg)) _ _ (λ w a e.
        text_or_error_lem u s true a _ (
          one (publish topic (shared_message msg)) (λ x. x)
              (ap (λ rs. rs ++ publish topic (shared_message msg) ∷ []) sent) created
              (omega (arith, blocks)),
          inl event,
        ))

  publish_content_lem :
      (topic : List ℕ) (content : JsonContent) (t : Lib N)
      → t.sent ≡ s.sent
      → t.created ≡ s.created
      → t.blocks ≡ s.blocks + 1
      → t.event_user_data ≡ s.event_user_data
      → Ensures (Effect true u s) (publish_content node codecs topic content t)
  publish_content_lem topic (malformed e) t sent created blocks event = tt
  publish_content_lem topic (parsed fields) t sent created blocks event =
      elim (Option-cases (from_json_node fields)) [
        | inl lacking ↦ rw lacking tt
        | inr (m, there) ↦ rw there (
            publish_built_lem topic (to_waku_message codecs m) _ sent created
              (omega (arith, blocks)) event)
      ]

  pub serve-Effect :
      (c : Context) (q : Request) (callback : Bool)
      → Ensures (Effect callback u s) (serve node codecs c q callback u s)
  unfolding serve waku_start waku_stop waku_destroy waku_version waku_set_event_callback
      waku_default_pubsub_topic waku_listen_addresses waku_content_topic waku_relay_publish
      waku_pubsub_topic waku_relay_subscribe waku_relay_unsubscribe waku_connect
  serve-Effect c start callback = set_user_data_lem (Effect callback u s) c u _ s (
      send_lem node codecs (Effect callback u s) start_node _ _
        (λ w a e. (silent, (one start_node (λ x. x) refl refl (omega arith), inl refl))))
  serve-Effect c stop callback = set_user_data_lem (Effect callback u s) c u _ s (
      send_lem node codecs (Effect callback u s) stop_node _ _
        (λ w a e. (silent, (one stop_node (λ x. x) refl refl (omega arith), inl refl))))
  serve-Effect c destroy true =
      use_ctx_lem (Effect true u s) c _ s
        λ there. (silent, (destroyed refl there refl refl, inl refl))
  serve-Effect c destroy false = (missing, (nothing refl refl refl, inl refl))
  serve-Effect c version callback = set_user_data_lem (Effect callback u s) c u _ s (
      with_callback_lem u s callback _ _ (nothing refl refl refl, inl refl)
        (value, (nothing refl refl refl, inl refl)))
  serve-Effect c set_event_callback callback =
      use_ctx_lem (Effect callback u s) c _ s λ there. (silent, (nothing refl refl refl, inr refl))
  serve-Effect c default_pubsub_topic callback = set_user_data_lem (Effect callback u s) c u _ s (
      with_callback_lem u s callback _ _ (nothing refl refl refl, inl refl)
        (value, (nothing refl refl refl, inl refl)))
  serve-Effect c listen_addresses callback = set_user_data_lem (Effect callback u s) c u _ s (
      send_lem node codecs (Effect callback u s) listening_addresses _ _ (λ w a e.
        text_or_error_lem u s callback a _
          (one listening_addresses (λ x. x) refl refl (omega arith), inl refl)))
  serve-Effect c (content_topic app n name encoding) callback =
      set_user_data_lem (Effect callback u s) c u _ s (
        with_callback_lem u s callback _ _ (nothing refl refl refl, inl refl)
          (value, (nothing refl refl (omega arith), inl refl)))
  serve-Effect c (relay_publish topic json timeout) callback =
      set_user_data_lem (Effect callback u s) c u _ s (
        with_callback_lem u s callback _ _ (nothing refl refl refl, inl refl)
          (publish_content_lem topic (codecs.parse_json json) _ refl refl refl refl))
  serve-Effect c (named_pubsub_topic name) callback =
      set_user_data_lem (Effect callback u s) c u _ s (
        with_callback_lem u s callback _ _ (nothing refl refl refl, inl refl)
          (value, (nothing refl refl (omega arith), inl refl)))
  serve-Effect c (relay_subscribe topic) callback =
      set_user_data_lem (Effect callback u s) c u _ s (
        send_lem node codecs (Effect callback u s) (subscribe topic) _ _ (λ w a e.
          only_error_lem u s callback a _
            (one (subscribe topic) (λ x. x) refl refl (omega arith), inl refl)))
  serve-Effect c (relay_unsubscribe topic) callback =
      set_user_data_lem (Effect callback u s) c u _ s (
        send_lem node codecs (Effect callback u s) (subscribe topic) _ _ (λ w a e.
          only_error_lem u s callback a _
            (one (subscribe topic) (λ x. x) refl refl (omega arith), inl refl)))
  serve-Effect c (connect peers timeout) callback =
      set_user_data_lem (Effect callback u s) c u _ s (
        send_lem node codecs (Effect callback u s) (connect_to peers timeout) _ _ (λ w a e.
          only_error_lem u s callback a _
            (one (connect_to peers timeout) (λ x. x) refl refl (omega arith), inl refl)))
