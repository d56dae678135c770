-- ===== src/CppClient/Tests.antt =====
-- Concrete runs of the client in C++, and its theorems at concrete inputs.
use nwaku.Base.{◌≡◌, refl, some, [], ◌∷◌, ◌++◌, codes, replicate}
use nwaku.Base.Program.{undefined}
use nwaku.Base.Int.{pos}
use nwaku.CClient.{atoi}
use nwaku.CClient.Menu.{command}
use nwaku.CClient.Requests.{c_string}
use nwaku.CppClient.{ConfigNode, default_config, json_config}
use nwaku.CppClient.Requests.{
  Library, Client, Call, Reply, default_pubsub_topic, version, pubsub_topic,
}
use nwaku.CppClient.Main.{start_node}
use nwaku.CppClient.Main.Calls.{Ends, ErrorTold, IsInLoop, start_node-calls}
use nwaku.CppClient.Menu.{handle_user_input, publish_undefined}

abbrev configured : ConfigNode
configured = record default_config {
  host = replicate 127 b'x';
  peers = some (codes "/ip4/1.2.3.4");
}

-- A library that reports the default topic "d", its version and a name, and accepts everything.
abbrev answer : Call → Reply
answer default_pubsub_topic = record { ret = 0; events = codes "d" ∷ [] }
answer version = record { ret = 0; events = codes "v" ∷ [] }
answer (pubsub_topic name) = record { ret = 0; events = (codes "/waku/2/" ++ name) ∷ [] }
answer call = record { ret = 0; events = [] }

abbrev reporting : Library
reporting calls call = answer call

abbrev idle : Client
idle = record { default_topic = []; custom_topic = []; calls = []; output = [] }

start_node-calls_example :
    Ends
      (ErrorTold reporting)
      (IsInLoop (json_config configured) (codes "/ip4/1.2.3.4") (codes "d") [])
      (start_node reporting configured idle)
start_node-calls_example = start_node-calls reporting configured (codes "/ip4/1.2.3.4") idle refl

publish_chosen : command (codes "3\n") ≡ some (pos 3)
unfolding command atoi c_string
publish_chosen = refl

publish_undefined_example :
    handle_user_input (record { line = some (codes "3\n"); rest = codes "\n/a/b hello" }) idle
    ≡ undefined
publish_undefined_example =
    publish_undefined (codes "3\n") (codes "\n/a/b hello") idle publish_chosen
