-- ===== src/CppClient/Main.antt =====
-- examples/cpp/waku.cpp: `main` behind the configuration, up to its loop.
pub mod Calls
use nwaku.Base.{
  ℕ, Bool, true, false, suc, ◌-◌, ◌^◌, ◌≡◌, refl, if◌then◌else◌, Option, none, some, List, [], ◌∷◌,
  ◌++◌, codes,
}
use mathlib.Core.List.{append_assoc}
use nwaku.Base.Int.{ℤ, pos, negsuc, eq_ℤ}
use nwaku.Base.Decimal.{print}
use nwaku.Base.Program.{Returns, done, undefined, ◌>>=◌, ◌>>◌}
use nwaku.CppClient.{ConfigNode, json_config}
use nwaku.CppClient.Requests.{
  Library, Client, C, Call, get, new, default_pubsub_topic, version, set_event_callback, start,
  pubsub_topic, connect, relay_subscribe, invoke, waku_call, run_events, printf, event_handler,
  handle_error, set_default_topic, set_custom_topic, print_version,
}

-- `%u` of an `int`.
pub print_unsigned : ℤ → List ℕ
print_unsigned (pos n) = print n
print_unsigned (negsuc n) = print (2 ^ 32 - suc n)

-- A read of an array that may not be written yet.
abbrev pub written : Option (List ℕ) → C (List ℕ)
written none s = undefined
written (some text) s = done text s

module _ (lib : Library) where
  -- `waku_start` is called without a callback: what is reported meanwhile goes to the one for events.
  unfoldable pub start_node : ConfigNode → C (Unit {0})
  unfolding waku_call invoke printf
  start_node cfg = do
    waku_call lib (new (json_config cfg)) handle_error
    waku_call lib default_pubsub_topic set_default_topic
    s ← get
    printf (codes "Default pubsub topic: " ++ (s.default_topic ++ codes "\n"))
    waku_call lib version print_version
    printf (
        codes "Bind addr: " ++ (cfg.host ++ (codes ":" ++ (print_unsigned cfg.port ++ codes "\n"))))
    printf (
        codes "Waku Relay enabled: "
        ++ (if eq_ℤ cfg.relay (pos 1) then codes "YES\n" else codes "NO\n"))
    waku_call lib (pubsub_topic (codes "example")) set_custom_topic
    t ← get
    printf (codes "Custom pubsub topic: " ++ (t.custom_topic ++ codes "\n"))
    _ ← invoke lib set_event_callback event_handler
    _ ← invoke lib start event_handler
    peers ← written cfg.peers
    waku_call lib (connect peers 10000) handle_error
    u ← get
    waku_call lib (relay_subscribe u.default_topic) handle_error
    printf (codes "Establishing connection with: " ++ (peers ++ codes "\n"))
    waku_call lib (connect peers 10000) handle_error
