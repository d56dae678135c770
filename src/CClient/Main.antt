-- ===== src/CClient/Main.antt =====
-- examples/cbindings/waku_example.c: `main` behind the configuration, up to its loop.
use nwaku.Base.{ℕ, if◌then◌else◌, Option, none, some, List, ◌++◌, codes}
use nwaku.Base.Int.{pos, eq_ℤ}
use nwaku.Base.Program.{done, undefined, then_run, ◌>>=◌, ◌>>◌}
use nwaku.CClient.{ConfigNode, json_config, print_int}
use nwaku.CClient.Requests.{
  Library, C, Call, ctx, default_pubsub_topic, version, set_event_callback, start, listen_addresses,
  connect, relay_subscribe, new, request, invoke, waku_call, printf, event_handler,
  print_default_pubsub_topic, print_waku_version,
}

abbrev pub default_topic : List ℕ
default_topic = codes "/waku/2/default-waku/proto"

-- A read of an array that may not be written yet.
abbrev pub written : Option (List ℕ) → C (List ℕ)
written none s = undefined
written (some text) s = done text s

module _ (lib : Library) where
  -- A call whose result the program drops.
  abbrev ignore : Call → C (Unit {0})
  ignore call s = then_run (invoke lib call event_handler s) λ _ t. done tt t

  unfoldable pub start_node : ConfigNode → C (Unit {0})
  unfolding waku_call invoke printf
  start_node cfg = do
    json ← written (json_config cfg)
    ignore (new json)
    waku_call lib ctx default_pubsub_topic print_default_pubsub_topic
    waku_call lib ctx version print_waku_version
    printf (codes "Bind addr: " ++ (cfg.host ++ (codes ":" ++ print_int cfg.port)))
    printf (
        codes "Waku Relay enabled: "
        ++ (if eq_ℤ cfg.relay (pos 1) then codes "YES" else codes "NO"))
    ignore (request ctx set_event_callback)
    ignore (request ctx start)
    ignore (request ctx listen_addresses)
    peers ← written cfg.peers
    printf (codes "Establishing connection with: " ++ peers)
    waku_call lib ctx (connect peers 10000) event_handler
    waku_call lib ctx (relay_subscribe default_topic) event_handler
