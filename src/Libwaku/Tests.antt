-- ===== src/Libwaku/Tests.antt =====
-- Runs of library/libwaku.nim and library/waku_thread, with a node that counts.
use nwaku.Base.{
  ℕ, ◌+◌, ◌<◌, ◌≤◌, ◌≡◌, refl, true, false, Option, none, some, List, [], ◌∷◌, ◌++◌, All,
}
use nwaku.Base.Program.{done, Ensures, Returns}
use nwaku.Message.{WakuMessage}
use nwaku.CClient.{ArgpCall, ConfigNode, default_config, format_config, parse_opt, parse_opts}
use nwaku.CClient.Main
use nwaku.Libwaku.Linked.{linked}
use nwaku.Libwaku.Linked.Start.{Serves, IsInLoop, new_client, start_node-linked}
use nwaku.CClient.Requests.{
  ctx, Request, start, listen_addresses, relay_publish, relay_subscribe, relay_unsubscribe,
}
use nwaku.Libwaku.Thread.{
  Shared, System, system, idle, posted, checking, sleeping, Step, post, refuse, fire, wake, receive,
  check, notice, work, answer, signal, Reach, start, next,
}
use nwaku.Libwaku.Thread.Valid.{Sequential}
use nwaku.Libwaku.Thread.Answers.{calls-Sequential}
use nwaku.Libwaku.Thread.Rank.{rank}
use nwaku.Libwaku.Thread.Progress.{Moves, calls-end}
use nwaku.Libwaku.Thread.Faults.{refusals, here, later, lost_signal}
use nwaku.Libwaku.Requests.{
  ok, NodeRequest, create_node, start_node, listening_addresses, subscribe, publish, WakuNode,
  process,
}
use nwaku.Libwaku.Json.{Codecs, parsed, to_waku_message}
use nwaku.Libwaku.State.{Lib}
use nwaku.Libwaku.Api.{
  send, serve, relay_event, waku_new, waku_start, waku_relay_subscribe, waku_relay_unsubscribe,
  waku_listen_addresses, waku_relay_publish,
}
use nwaku.Libwaku.Calls.{ApiCall, IsUnsubscribe}
use nwaku.Libwaku.Runs.{Answered, leaks, run_calls}
use nwaku.Libwaku.Program.{
  context_left, session, session-leaks, session-relay_event, session-Returns,
}
use nwaku.Libwaku.Published.{told, IsPublished, waku_relay_publish_iff}
use nwaku.Libwaku.Careful.{HasTexts, IsReady}

-- A node whose state is a sum, which each request adds to and has for an answer.
abbrev add_request : ℕ → ℕ → ℕ × ℕ
add_request r n = (n + r, n)

abbrev holding : Option ℕ → Shared ℕ ℕ
holding req = record {
  req_channel = req;
  req_signal = false;
  resp_channel = none;
  resp_signal = false;
  running = true;
}

abbrev posted_five : Reach add_request 0 (system (posted 5) sleeping (holding (some 5)) 0 [])
posted_five = next (next start (check refl)) (post 5 refl)

abbrev answered_five :
    Reach add_request 0 (system idle checking (holding none) 5 ((5, some 0) ∷ []))
answered_five =
    next
      (next
        (next (next (next (next (next posted_five fire) (notice refl)) (work 5 refl)) (answer refl))
          signal)
        (wake refl))
      (receive 0 refl)

calls-Sequential_example : Sequential add_request 0 ((5, some 0) ∷ []) 5
calls-Sequential_example = calls-Sequential add_request 0 answered_five

calls-end_example :
    Moves add_request 0 (system (posted 5) sleeping (holding (some 5)) 0 [])
    × ((t : System ℕ ℕ ℕ)
        → Step add_request (system (posted 5) sleeping (holding (some 5)) 0 []) t
        → rank t < 10)
    × (10 ≤ 11)
calls-end_example = calls-end add_request 0 _ posted_five tt

lost_signal_example :
    (◌≡◌ {A = ℕ} 0 0)
    × ((qs : List ℕ) × (◌≡◌ {A = List (ℕ × Option ℕ)}
          ((7, none) ∷ (5, none) ∷ [])
          (refusals {A = ℕ} qs ++ (5, none) ∷ [])))
lost_signal_example = lost_signal add_request 0 5 posted_five (later here (refuse 7 5 refl))

-- A node that counts its starts, with a relay that has one peer.
abbrev counting_node : WakuNode ℕ
counting_node = record {
  create_waku = λ json. ok 0;
  start_waku = λ n. (n + 1, ok tt);
  stop = λ n. (n, ok tt);
  connect_to_nodes = λ peers n. (n, true);
  has_relay = λ n. true;
  relay_subscribe = λ topic n. n;
  relay_unsubscribe_all = λ topic n. n;
  relay_publish = λ topic msg n. (n, 1);
  message_hash = λ topic msg. 72 ∷ [];
  listen_addresses = λ n. 65 ∷ [];
  strip = λ text. text;
}

-- Every key has the text itself, which stands for its own encoding.
abbrev any_key : Codecs
any_key = record {
  parse_json = λ text. parsed (λ key. some (record { str = text; int = 0; bool = false }));
  decode = λ text. ok text;
  message_event = λ topic msg. topic;
  version_string = 86 ∷ [];
}

abbrev ready : Lib ℕ
ready = record {
  created = true;
  user_data = none;
  event_callback = true;
  event_user_data = none;
  waku = some 0;
  blocks = 0;
  sent = [];
}

abbrev call_of : Request → ApiCall
call_of q = record { context = ctx; request = q; callback = true; user_data = none }

abbrev some_calls : List ApiCall
some_calls =
    call_of start
    ∷ call_of (relay_subscribe (84 ∷ []))
    ∷ call_of (relay_publish (84 ∷ []) (77 ∷ []) 1)
    ∷ call_of (relay_unsubscribe (84 ∷ []))
    ∷ call_of listen_addresses
    ∷ []

some_calls_sent :
    Returns
      (λ replies t.
        (t.sent
          ≡ create_node []
            ∷ start_node
            ∷ subscribe (84 ∷ [])
            ∷ publish (84 ∷ []) (record {
              payload = 77 ∷ [];
              content_topic = 77 ∷ [];
              meta = 77 ∷ [];
              version = 0;
              timestamp = 0;
              ephemeral = false;
              proof = [];
            })
            ∷ subscribe (84 ∷ [])
            ∷ listening_addresses
            ∷ [])
        × (t.blocks ≡ 4))
      (session counting_node any_key [] none some_calls ready)
unfolding session waku_new run_calls serve waku_start waku_relay_subscribe waku_relay_unsubscribe
    waku_listen_addresses waku_relay_publish send process to_waku_message
some_calls_sent = (refl, refl)

counting_texts : HasTexts counting_node
counting_texts = record { addresses = λ n e. cc; hashes = λ topic msg e. cc }

waku_relay_publish_iff_example :
    Ensures
      (λ reply t.
        reply.ret ≡ 0
        → (char : ℕ) × (text : List ℕ) × IsPublished counting_node any_key
            (84 ∷ [])
            (77 ∷ [])
            (some 0)
            char
            text
          × (reply ≡ told (char ∷ text)))
      (waku_relay_publish counting_node any_key ctx (84 ∷ []) (77 ∷ []) true none ready)
    × ((char : ℕ) (text : List ℕ)
        → ready.created ≡ true
        → IsPublished counting_node any_key (84 ∷ []) (77 ∷ []) (some 0) char text
        → Returns
            (λ reply t. reply ≡ told (char ∷ text))
            (waku_relay_publish counting_node any_key ctx (84 ∷ []) (77 ∷ []) true none ready))
waku_relay_publish_iff_example =
    waku_relay_publish_iff counting_node any_key (84 ∷ []) (77 ∷ []) ctx true none ready

session-leaks_example :
    Ensures
      (λ replies t.
        (requests : List NodeRequest) × (t.sent ≡ [] ++ create_node [] ∷ requests)
        × (t.blocks ≡ 0 + context_left (counting_node.create_waku []) t.created + leaks requests)
        × All (λ r. IsUnsubscribe r → ⊥) requests)
      (session counting_node any_key [] none some_calls ready)
session-leaks_example = session-leaks counting_node any_key [] none some_calls ready

session-relay_event_example :
    Ensures
      (λ replies t.
        (topic : List ℕ) (msg : WakuMessage) → relay_event counting_node any_key t topic msg ≡ [])
      (session counting_node any_key [] none some_calls ready)
session-relay_event_example =
    session-relay_event counting_node any_key [] none some_calls ready
      (refl, (refl, (refl, (refl, (refl, tt)))))

session-Returns_example :
    Returns
      (λ replies t. IsReady t × Answered some_calls replies)
      (session counting_node any_key [] none some_calls ready)
session-Returns_example =
    session-Returns counting_node any_key [] none counting_texts some_calls ready 0 refl (
      (refl, refl, tt),
      (
        (refl, refl, tt),
        ((refl, refl, (_, refl, _, refl)), ((refl, refl, tt), ((refl, refl, tt), tt))),
      ),
    )

abbrev options : List ArgpCall
options =
    record { key = b'k'; arg = 49 ∷ []; arg_num = 0 }
    ∷ record { key = b'a'; arg = 47 ∷ []; arg_num = 0 }
    ∷ []

abbrev configured : ConfigNode
configured = record default_config { key = some (49 ∷ []); peers = some (47 ∷ []) }

options_parsed : parse_opts options default_config ≡ done tt configured
unfolding parse_opts parse_opt
options_parsed = refl

abbrev counting_serves : Serves counting_node any_key (format_config configured (49 ∷ []))
counting_serves = record {
  n = 0;
  creates = refl;
  connects = λ ps k. refl;
  relays = λ k. refl;
  first = λ k. 65;
  rest = λ k. [];
  addresses = λ k. refl;
}

start_node-linked_example :
    Returns
      (IsInLoop counting_node any_key (format_config configured (49 ∷ [])) (47 ∷ []))
      (nwaku.CClient.Main.start_node (linked counting_node any_key) configured new_client)
start_node-linked_example =
    start_node-linked counting_node any_key options configured (49 ∷ []) (47 ∷ []) options_parsed
      refl refl counting_serves
