-- ===== src/Libwaku/Api.antt =====
-- library/libwaku.nim: the functions that C programs call. A context is where a program's first
-- argument points to; a callback is there or nil; `none` is a user data of null. There is one
-- context at most, and the two threads are taken as one call of `process` for each request, and to
-- start and to stop as asked.
use nwaku.Base.{ℕ, ◌+◌, if◌then◌else◌, Bool, true, false, Option, none, some, List, [], ◌++◌, codes}
use nwaku.Base.Decimal.{print}
use nwaku.Base.Program.{pure, fault, exit, modify, ◌>>=◌, ◌>>◌}
use nwaku.Message.{WakuMessage}
use nwaku.CClient.Requests.{
  Context, Request, start, stop, destroy, version, set_event_callback, default_pubsub_topic,
  listen_addresses, content_topic, relay_publish, named_pubsub_topic, relay_subscribe,
  relay_unsubscribe, connect, Event, Reply, ret_ok, ret_err,
}
use nwaku.Libwaku.Requests.{
  Answer, ok, err, NodeRequest, create_node, start_node, stop_node, listening_addresses, connect_to,
  subscribe, publish, WakuNode, process,
}
use nwaku.Libwaku.Json.{
  Codecs, JsonContent, malformed, parsed, JsonMessage, from_json_node, to_waku_message,
}
use nwaku.Libwaku.State.{
  Lib, L, allocate, release, shared_message, request_blocks, destroyed_blocks, outcome, use_ctx,
  set_user_data, returns, replies, with_callback, text_or_error, only_error, event_with,
}

module _ {N : Type 0} (node : WakuNode N) (codecs : Codecs) where
  -- `sendRequestToWakuThread`, and the answer's two blocks.
  unfoldable pub send : NodeRequest → L N (Answer (List ℕ))
  send r = do
    allocate (request_blocks r + 1)
    answer ← λ s. outcome r s (process node r s.waku) s
    release (destroyed_blocks r + 1)
    allocate 2
    release 2
    pure answer

  unfoldable pub waku_version : Context → Bool → Option ℕ → L N Reply
  waku_version c callback user_data = do
    set_user_data c user_data
    with_callback callback (replies ret_ok codecs.version_string)

  -- It returns nothing, for which a zero stands.
  unfoldable pub waku_set_event_callback : Context → Bool → Option ℕ → L N Reply
  waku_set_event_callback c callback user_data = do
    use_ctx c
    modify (λ s. record s { event_callback = callback; event_user_data = user_data })
    returns ret_ok

  unfoldable pub waku_content_topic :
      Context → List ℕ → ℕ → List ℕ → List ℕ → Bool → Option ℕ → L N Reply
  waku_content_topic c app app_version name encoding callback user_data = do
    set_user_data c user_data
    with_callback callback (do
      allocate 3
      reply ← replies ret_ok (
          codes "/"
          ++ (app
              ++ (codes "/"
                  ++ (print app_version ++ (codes "/" ++ (name ++ (codes "/" ++ encoding)))))))
      release 3
      pure reply)

  unfoldable pub waku_pubsub_topic : Context → List ℕ → Bool → Option ℕ → L N Reply
  waku_pubsub_topic c name callback user_data = do
    set_user_data c user_data
    with_callback callback
        (do allocate 1; reply ← replies ret_ok (codes "/waku/2/" ++ name); release 1; pure reply)

  unfoldable pub waku_default_pubsub_topic : Context → Bool → Option ℕ → L N Reply
  waku_default_pubsub_topic c callback user_data = do
    set_user_data c user_data
    with_callback callback (replies ret_ok (codes "/waku/2/default-waku/proto"))

  abbrev pub publish_built : List ℕ → Answer WakuMessage → L N Reply
  publish_built topic (err e) = replies ret_err (codes "Problem building the WakuMessage: " ++ e)
  publish_built topic (ok msg) = do
    allocate 1
    answer ← send (publish topic (shared_message msg))
    release 1
    text_or_error true answer

  -- Nothing catches the exception of a key that is missing.
  abbrev pub publish_read : List ℕ → Option JsonMessage → L N Reply
  publish_read topic none = exit
  publish_read topic (some m) = release 1 >> publish_built topic (to_waku_message codecs m)

  -- A text that cannot be parsed is freed by `except` and again by `finally`.
  abbrev pub publish_content : List ℕ → JsonContent → L N Reply
  publish_content topic (malformed e) = fault
  publish_content topic (parsed fields) = publish_read topic (from_json_node fields)

  unfoldable pub waku_relay_publish : Context → List ℕ → List ℕ → Bool → Option ℕ → L N Reply
  waku_relay_publish c topic json callback user_data = do
    set_user_data c user_data
    with_callback callback (allocate 1 >> publish_content topic (codecs.parse_json json))

  -- This and `waku_stop` do not set the result, which is zero, and do not call the callback.
  unfoldable pub waku_start : Context → Option ℕ → L N Reply
  waku_start c user_data = do set_user_data c user_data; _ ← send start_node; returns ret_ok

  unfoldable pub waku_stop : Context → Option ℕ → L N Reply
  waku_stop c user_data = do set_user_data c user_data; _ ← send stop_node; returns ret_ok

  unfoldable pub waku_relay_subscribe : Context → List ℕ → Bool → Option ℕ → L N Reply
  waku_relay_subscribe c topic callback user_data = do
    set_user_data c user_data
    allocate 1
    answer ← send (subscribe topic)
    release 1
    only_error callback answer

  unfoldable pub waku_relay_unsubscribe : Context → List ℕ → Bool → Option ℕ → L N Reply
  waku_relay_unsubscribe c topic callback user_data = do
    set_user_data c user_data
    allocate 1
    answer ← send (subscribe topic)
    release 1
    only_error callback answer

  unfoldable pub waku_connect : Context → List ℕ → ℕ → Bool → Option ℕ → L N Reply
  waku_connect c peers timeout callback user_data = do
    set_user_data c user_data
    answer ← send (connect_to peers timeout)
    only_error callback answer

  unfoldable pub waku_listen_addresses : Context → Bool → Option ℕ → L N Reply
  waku_listen_addresses c callback user_data = do
    set_user_data c user_data
    answer ← send listening_addresses
    text_or_error callback answer

  unfoldable pub waku_destroy : Context → Bool → L N Reply
  waku_destroy c callback =
      with_callback callback
        (do use_ctx c; modify (λ s. record s { created = false }); release 1; returns ret_ok)

  -- The functions with a context, by the request.
  unfoldable pub serve : Context → Request → Bool → Option ℕ → L N Reply
  serve c start callback u = waku_start c u
  serve c stop callback u = waku_stop c u
  serve c destroy callback u = waku_destroy c callback
  serve c version callback u = waku_version c callback u
  serve c set_event_callback callback u = waku_set_event_callback c callback u
  serve c default_pubsub_topic callback u = waku_default_pubsub_topic c callback u
  serve c listen_addresses callback u = waku_listen_addresses c callback u
  serve c (content_topic app n name encoding) callback u =
      waku_content_topic c app n name encoding callback u
  serve c (relay_publish topic json timeout) callback u = waku_relay_publish c topic json callback u
  serve c (named_pubsub_topic name) callback u = waku_pubsub_topic c name callback u
  serve c (relay_subscribe topic) callback u = waku_relay_subscribe c topic callback u
  serve c (relay_unsubscribe topic) callback u = waku_relay_unsubscribe c topic callback u
  serve c (connect peers timeout) callback u = waku_connect c peers timeout callback u

  -- An error leaves the context behind.
  abbrev pub created_or_error : Answer (List ℕ) → L N Reply
  created_or_error (ok text) = returns ret_ok
  created_or_error (err e) = modify (λ s. record s { created = false }) >> replies ret_err e

  -- The pointer that it returns is the context, if that is there afterwards, and else nil.
  unfoldable pub waku_new : List ℕ → Bool → Option ℕ → L N Reply
  waku_new json callback user_data =
      if callback
      then (do
        modify (λ s. record s {
          created = true;
          user_data = user_data;
          event_callback = false;
          event_user_data = none;
          waku = none;
          blocks = s.blocks + 1;
        })
        answer ← send (create_node json)
        created_or_error answer)
      else returns ret_ok

  -- `relayEventCallback`: a message that the relay hands over.
  abbrev pub relay_event : Lib N → List ℕ → WakuMessage → List Event
  relay_event s topic msg =
      if s.event_callback then event_with s.event_user_data (codecs.message_event topic msg) else []
