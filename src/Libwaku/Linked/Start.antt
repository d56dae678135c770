-- ===== src/Libwaku/Linked/Start.antt =====
-- examples/cbindings/waku_example.c linked with library/libwaku.nim: main up to its loop.
use nwaku.Base.{Bool, map, codes, ℕ, ◌≡◌, refl, true, false, none, some, List, [], ◌∷◌}
use nwaku.Base.Program.{done, Returns, Returns-map}
use nwaku.Base64.{null}
use nwaku.CClient.{ConfigNode, json_config}
use nwaku.CClient.Main.{default_topic}
use nwaku.CClient.Main
use nwaku.CClient.Requests.{
  ctx, listen_addresses, connect, relay_subscribe, default_pubsub_topic, version,
  set_event_callback, start, new, request, Client, waku_call, printf, event_handler,
  print_default_pubsub_topic, print_waku_version,
}
use nwaku.Libwaku.Requests.{
  ok, NodeRequest, create_node, start_node, listening_addresses, connect_to, subscribe, WakuNode,
  process,
}
use nwaku.Topics.Text.{split}
use nwaku.Libwaku.Published.{told}
use nwaku.Libwaku.Json.{Codecs}
use nwaku.Libwaku.State.{Lib}
use nwaku.Libwaku.Api.{
  send, waku_new, serve, waku_start, waku_default_pubsub_topic, waku_version,
  waku_set_event_callback, waku_listen_addresses, waku_connect, waku_relay_subscribe,
}
use nwaku.Message.{WakuMessage}
use nwaku.CClient.{ArgpCall, parse_opts, default_config, format_config}
use nwaku.CClient.Config.{json_config_complete}
use nwaku.Libwaku.Api.{relay_event}
use nwaku.Libwaku.Linked.{
  unused, answer_call, behind_calls, linked, At, ignored_then, called_then, waku_call-Returns,
  event_handler-IsHandler, print_default_pubsub_topic-IsHandler, print_waku_version-IsHandler,
}

abbrev pub all_sent : List ℕ → List ℕ → List NodeRequest
all_sent json peers =
    create_node json
    ∷ start_node
    ∷ listening_addresses
    ∷ connect_to peers 10000
    ∷ subscribe default_topic
    ∷ []

-- Before its first call.
abbrev pub new_client : Client
new_client = record {
  content_topic_text = null;
  publish_response = null;
  blocks = 0;
  calls = [];
  output = [];
}

module _ {N : Type 0} (node : WakuNode N) (codecs : Codecs) where
  abbrev linked_state : N → Bool → ℕ → List NodeRequest → Lib N
  linked_state k event b sent = record {
    created = true;
    user_data = none;
    event_callback = event;
    event_user_data = none;
    waku = some k;
    blocks = b;
    sent = sent;
  }

  -- A node that starts from what the client configures, connects to all peers, has a relay, and says
  -- these are its addresses.
  pub record Serves (json : List ℕ) : Type 0 where
    pub n : N
    pub creates : node.create_waku json ≡ ok n
    pub connects : (ps : List (List ℕ)) (k : N) → (node.connect_to_nodes ps k).1 ≡ true
    pub relays : (k : N) → node.has_relay k ≡ true
    pub first : N → ℕ
    pub rest : N → List ℕ
    pub addresses : (k : N) → node.listen_addresses k ≡ first k ∷ rest k

  -- The calls that the client has made all return, and have sent these requests; a callback for events
  -- is set, and is told of no message.
  abbrev pub IsInLoop : List ℕ → List ℕ → Unit {0} → Client → Type 0
  IsInLoop json peers u client =
      (t : Lib N) × (behind_calls node codecs client.calls unused ≡ some t)
      × (t.sent ≡ all_sent json peers)
      × (t.event_callback ≡ true)
      × ((topic : List ℕ) (msg : WakuMessage) → relay_event node codecs t topic msg ≡ [])

  module _ (json peers : List ℕ) (serves : Serves json) where
    abbrev started_node : N
    started_node = (node.start_waku serves.n).0

    abbrev connected_node : N
    connected_node = (node.connect_to_nodes (map node.strip (split b',' peers)) started_node).0

    abbrev subscribed_node : N
    subscribed_node = node.relay_subscribe default_topic connected_node

    new_lem :
        answer_call node codecs (new json) unused
        ≡ done
            (record { ret = 0; events = [] })
            (linked_state serves.n false 1 (create_node json ∷ []))
    unfolding waku_new send process
    new_lem = let creates = serves.creates in rw creates refl

    listen_lem :
        answer_call node codecs
          (request ctx listen_addresses)
          (linked_state started_node true 1 (create_node json ∷ start_node ∷ []))
        ≡ done (told (serves.first started_node ∷ serves.rest started_node)) (
            linked_state started_node true 1
              (create_node json ∷ start_node ∷ listening_addresses ∷ []))
    unfolding serve waku_listen_addresses send process
    listen_lem = let addresses = serves.addresses in rw (addresses started_node) refl

    connect_lem :
        answer_call node codecs (request ctx (connect peers 10000)) (
          linked_state started_node true 1
            (create_node json ∷ start_node ∷ listening_addresses ∷ []))
        ≡ done
            (record { ret = 0; events = [] })
            (linked_state connected_node true 1
              (create_node json ∷ start_node ∷ listening_addresses ∷ connect_to peers 10000 ∷ []))
    unfolding serve waku_connect send process
    connect_lem =
        let connects = serves.connects in
        rw (connects (map node.strip (split b',' peers)) started_node) refl

    subscribe_lem :
        answer_call node codecs (request ctx (relay_subscribe default_topic)) (
          linked_state connected_node true 1
            (create_node json ∷ start_node ∷ listening_addresses ∷ connect_to peers 10000 ∷ []))
        ≡ done
            (record { ret = 0; events = [] })
            (linked_state subscribed_node true 2 (
              create_node json
              ∷ start_node
              ∷ listening_addresses
              ∷ connect_to peers 10000
              ∷ subscribe default_topic
              ∷ []))
    unfolding serve waku_relay_subscribe send process
    subscribe_lem = let relays = serves.relays in rw (relays connected_node) refl

    begin_lem : At node codecs unused new_client
    unfolding behind_calls
    begin_lem = refl

    topic_lem :
        (b : Bool) (sent : List NodeRequest)
        → answer_call node codecs
            (request ctx default_pubsub_topic)
            (linked_state serves.n b 1 sent)
          ≡ done (told (codes "/waku/2/default-waku/proto")) (linked_state serves.n b 1 sent)
    unfolding serve waku_default_pubsub_topic
    topic_lem b sent = refl

    version_lem :
        (b : Bool) (sent : List NodeRequest)
        → answer_call node codecs (request ctx version) (linked_state serves.n b 1 sent)
          ≡ done (told codecs.version_string) (linked_state serves.n b 1 sent)
    unfolding serve waku_version
    version_lem b sent = refl

    event_lem :
        (sent : List NodeRequest)
        → answer_call node codecs
            (request ctx set_event_callback)
            (linked_state serves.n false 1 sent)
          ≡ done (record { ret = 0; events = [] }) (linked_state serves.n true 1 sent)
    unfolding serve waku_set_event_callback
    event_lem sent = refl

    start_lem :
        answer_call node codecs
          (request ctx start)
          (linked_state serves.n true 1 (create_node json ∷ []))
        ≡ done
            (record { ret = 0; events = [] })
            (linked_state started_node true 1 (create_node json ∷ start_node ∷ []))
    unfolding serve waku_start send process
    start_lem = refl

    started :
        (cfg : ConfigNode)
        → json_config cfg ≡ some json
        → cfg.peers ≡ some peers
        → Returns
            (IsInLoop json peers)
            (nwaku.CClient.Main.start_node (linked node codecs) cfg new_client)
    unfolding nwaku.CClient.Main.start_node printf
    started cfg written given = rw written (
        rw given (
          ignored_then node codecs (new json) event_handler (IsInLoop json peers) _ new_client
            unused _ _ (event_handler-IsHandler node codecs) begin_lem new_lem tt
            λ c1 at1.
              called_then node codecs default_pubsub_topic print_default_pubsub_topic
                (IsInLoop json peers) _ c1 _ _ _ (print_default_pubsub_topic-IsHandler node codecs)
                at1 (topic_lem _ _) (refl, tt) refl
                λ c2 at2.
                  called_then node codecs version print_waku_version (IsInLoop json peers) _ c2 _ _
                    _ (print_waku_version-IsHandler node codecs) at2 (version_lem _ _) (refl, tt)
                    refl
                    λ c3 at3.
                      ignored_then node codecs (request ctx set_event_callback) event_handler
                        (IsInLoop json peers) _ _ _ _ _ (event_handler-IsHandler node codecs) at3
                        (event_lem _) tt
                        λ c4 at4.
                          ignored_then node codecs (request ctx start) event_handler
                            (IsInLoop json peers) _ c4 _ _ _ (event_handler-IsHandler node codecs)
                            at4 start_lem tt
                            λ c5 at5.
                              ignored_then node codecs (request ctx listen_addresses) event_handler
                                (IsInLoop json peers) _ c5 _ _ _
                                (event_handler-IsHandler node codecs) at5 listen_lem (refl, tt)
                                λ c6 at6.
                                  called_then node codecs (connect peers 10000) event_handler
                                    (IsInLoop json peers) _ _ _ _ _
                                    (event_handler-IsHandler node codecs) at6 connect_lem tt refl
                                    λ c7 at7.
                                      Returns-map (λ u client. At node codecs _ client)
                                        (IsInLoop json peers)
                                        (waku_call (linked node codecs) ctx
                                          (relay_subscribe default_topic) event_handler c7)
                                        (λ u client at8. (_, at8, refl, refl, λ topic msg. refl))
                                        (waku_call-Returns node codecs ctx
                                          (relay_subscribe default_topic) event_handler c7 _ _ _
                                          (event_handler-IsHandler node codecs) at7 subscribe_lem tt
                                          refl)))

  -- Of options that are accepted, one is the key and one the peers. If the node can be created from the
  -- text that main makes of them, connects to all peers, has a relay, and has addresses: main, linked
  -- with libwaku, comes to its loop. Its calls have all returned. The requests sent are to create and
  -- to start the node, for its addresses, to connect, and to subscribe to the default topic. Its
  -- handler is set for events, but no message that the relay hands over comes to it.
  pub start_node-linked :
      (options : List ArgpCall) (cfg : ConfigNode) (key peers : List ℕ)
      → parse_opts options default_config ≡ done tt cfg
      → cfg.key ≡ some key
      → cfg.peers ≡ some peers
      → (serves : Serves (format_config cfg key))
      → Returns
          (IsInLoop (format_config cfg key) peers)
          (nwaku.CClient.Main.start_node (linked node codecs) cfg new_client)
  start_node-linked options cfg key peers accepted has_key has_peers serves =
      started (format_config cfg key) peers serves cfg
        (json_config_complete options cfg key accepted has_key).0 has_peers
