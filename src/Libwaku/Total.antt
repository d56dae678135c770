-- ===== src/Libwaku/Total.antt =====
-- library/libwaku.nim: when all the calls of a program return.
use nwaku.Base.{All, ℕ, ◌+◌, ◌≡◌, sym, subst, refl, if◌then◌else◌, true, Option, List, [], ◌∷◌}
use nwaku.Base.Program.{
  Returns-then_run, Result, done, undefined, exited, ◌>>◌, then_run, Ensures, Returns, modify,
}
use nwaku.CClient.Requests.{
  ctx, Request, start, stop, destroy, version, set_event_callback, default_pubsub_topic,
  listen_addresses, content_topic, relay_publish, named_pubsub_topic, relay_subscribe,
  relay_unsubscribe, connect, Reply,
}
use nwaku.Libwaku.Requests.{
  start_node, stop_node, listening_addresses, connect_to, subscribe, WakuNode,
}
use nwaku.Libwaku.Json.{Codecs, to_waku_message}
use nwaku.Libwaku.State.{allocate, Lib, L, use_ctx, set_user_data}
use nwaku.Libwaku.Api.{
  waku_version, waku_set_event_callback, waku_content_topic, waku_pubsub_topic,
  waku_default_pubsub_topic, publish_content, waku_relay_publish, waku_start, waku_stop,
  waku_relay_subscribe, waku_relay_unsubscribe, waku_connect, waku_listen_addresses, serve,
}
use nwaku.Libwaku.Calls.{ApiCall}
use nwaku.Libwaku.Runs.{Answered, Ran, run_calls, run_calls-Ran}
use nwaku.Libwaku.Careful.{
  HasTexts, IsReadable, IsCareful, IsCarefulCall, IsReady, Ready, send-Ready, tellable-Ready,
  error-Ready, built-Ready,
}

Ensures-Returns {ℓ} :
    {S : Type 0} {A : Type ℓ} (P : A → S → Type 0) (Q : A → S → Type 0) (R : A → S → Type 0)
    (r : Result S A)
    → Ensures P r
    → Returns Q r
    → ((a : A) (s : S) → P a s → Q a s → R a s)
    → Returns R r
Ensures-Returns P Q R (done a s) h k f = f a s h k
Ensures-Returns P Q R (exited s) h k f = absurd k
Ensures-Returns P Q R undefined h k f = absurd k

module _ {N : Type 0} (node : WakuNode N) (codecs : Codecs) (texts : HasTexts node) where
  use-Ready :
      (k : L N Reply) (s : Lib N)
      → s.created ≡ true
      → Returns Ready (k s)
      → Returns Ready ((use_ctx ctx >> k) s)
  use-Ready k s made h =
      subst (λ b. Returns Ready (then_run (if b then done tt s else undefined) (λ _. k))) (sym made)
        h

  user_data-Ready :
      (u : Option ℕ) (k : L N Reply) (s : Lib N)
      → s.created ≡ true
      → Returns Ready (k (record s { user_data = u }))
      → Returns Ready ((set_user_data ctx u >> k) s)
  user_data-Ready u k s made h =
      subst
        (λ b. Returns Ready (
          then_run
            (then_run (if b then done tt s else undefined)
              (λ _. modify (λ s. record s { user_data = u })))
            (λ _. k)))
        (sym made) h

  publish-Ready :
      (topic json : List ℕ) (s : Lib N)
      → IsReadable codecs json
      → IsReady s
      → Returns Ready ((allocate 1 >> publish_content node codecs topic (codecs.parse_json json)) s)
  publish-Ready topic json s (fields, is_json, m, complete) ready =
      rw is_json
        (rw complete (built-Ready node codecs texts topic (to_waku_message codecs m) _ ready))

  serve-Ready :
      (q : Request) (u : Option ℕ) (s : Lib N)
      → IsCareful codecs q
      → IsReady s
      → Returns Ready (serve node codecs ctx q true u s)
  unfolding serve waku_start waku_stop waku_version waku_set_event_callback
      waku_default_pubsub_topic waku_listen_addresses waku_content_topic waku_relay_publish
      waku_pubsub_topic waku_relay_subscribe waku_relay_unsubscribe waku_connect
  serve-Ready destroy u s careful ready = absurd careful
  serve-Ready set_event_callback u s careful ready = use-Ready _ s ready.0 ready
  serve-Ready start u s careful ready = user_data-Ready u _ s ready.0 (
      send-Ready node codecs texts start_node _ (record s { user_data = u }) ready
        λ k a b text. (ready.0, k, refl))
  serve-Ready stop u s careful ready = user_data-Ready u _ s ready.0 (
      send-Ready node codecs texts stop_node _ (record s { user_data = u }) ready
        λ k a b text. (ready.0, k, refl))
  serve-Ready version u s careful ready = user_data-Ready u _ s ready.0 ready
  serve-Ready default_pubsub_topic u s careful ready = user_data-Ready u _ s ready.0 ready
  serve-Ready listen_addresses u s careful ready = user_data-Ready u _ s ready.0 (
      send-Ready node codecs texts listening_addresses _ (record s { user_data = u }) ready
        λ k a b text. tellable-Ready node codecs texts a _ text (ready.0, k, refl))
  serve-Ready (content_topic app n name encoding) u s careful ready =
      user_data-Ready u _ s ready.0 ready
  serve-Ready (relay_publish topic json timeout) u s careful ready =
      user_data-Ready u _ s ready.0
        (publish-Ready topic json (record s { user_data = u }) careful ready)
  serve-Ready (named_pubsub_topic name) u s careful ready = user_data-Ready u _ s ready.0 ready
  serve-Ready (relay_subscribe topic) u s careful ready = user_data-Ready u _ s ready.0 (
      send-Ready node codecs texts (subscribe topic) _
        (record s { user_data = u; blocks = s.blocks + 1 }) ready
        λ k a b text. error-Ready node codecs texts a _ (ready.0, k, refl))
  serve-Ready (relay_unsubscribe topic) u s careful ready = user_data-Ready u _ s ready.0 (
      send-Ready node codecs texts (subscribe topic) _
        (record s { user_data = u; blocks = s.blocks + 1 }) ready
        λ k a b text. error-Ready node codecs texts a _ (ready.0, k, refl))
  serve-Ready (connect peers timeout) u s careful ready = user_data-Ready u _ s ready.0 (
      send-Ready node codecs texts (connect_to peers timeout) _ (record s { user_data = u }) ready
        λ k a b text. error-Ready node codecs texts a _ (ready.0, k, refl))

  call-Ready :
      (c : ApiCall) (s : Lib N)
      → IsCarefulCall codecs c
      → IsReady s
      → Returns Ready (serve node codecs c.context c.request c.callback c.user_data s)
  call-Ready c s (through, called, careful) ready =
      rw through (rw called (serve-Ready c.request c.user_data s careful ready))

  run_calls-IsReady :
      (cs : List ApiCall) (s : Lib N)
      → All (IsCarefulCall codecs) cs
      → IsReady s
      → Returns (λ replies t. IsReady t) (run_calls node codecs cs s)
  unfolding run_calls
  run_calls-IsReady [] s careful ready = ready
  run_calls-IsReady (c ∷ cs) s careful ready =
      Returns-then_run Ready _ _ _ (call-Ready c s careful.0 ready) λ reply t ready.
        Returns-then_run (λ replies t. IsReady t) _ _ _ (run_calls-IsReady cs t careful.1 ready)
          λ replies v ready. ready

  -- Where there is a context and a node behind it, and neither a hash nor what a node says of its
  -- addresses is empty: calls in any order and number through that context, each with a callback, none
  -- of them to `waku_destroy`, and each text in JSON one that can be read, all return. The context and
  -- the node are there then, and there is a reply for each call, as its callback demands.
  pub run_calls-Returns :
      (calls : List ApiCall) (s : Lib N)
      → All (IsCarefulCall codecs) calls
      → IsReady s
      → Returns (λ replies t. IsReady t × Answered calls replies) (run_calls node codecs calls s)
  run_calls-Returns calls s careful ready =
      Ensures-Returns (Ran node codecs calls s) (λ replies t. IsReady t) _ _
        (run_calls-Ran node codecs calls s) (run_calls-IsReady calls s careful ready)
        λ replies t ran ready. (ready, ran.answered)
