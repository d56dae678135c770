-- ===== src/CClient/Tests.antt =====
-- Concrete runs of the client, and its theorems at concrete inputs.
use nwaku.Base.{ℕ, ◌<◌, ◌≡◌, refl, Option, some, List, [], ◌∷◌, codes, replicate, length}
use nwaku.Base.Int.{pos}
use nwaku.Base.Program.{done, Ensures}
use nwaku.Base64.{null}
use nwaku.CClient.{
  ConfigNode, ArgpCall, parse_opt, parse_opts, default_config, json_config, format_config, atoi,
}
use nwaku.CClient.Config.{json_config_complete}
use nwaku.CClient.Requests.{Library, Client, Call, Reply, request, content_topic}
use nwaku.CClient.Menu.{Input, run_rounds}
use nwaku.CClient.Leaks.{Owned, run_rounds-Owned}

abbrev options : List ArgpCall
options =
    record { key = b'k'; arg = codes "364d"; arg_num = 0 }
    ∷ record { key = b'h'; arg = replicate 200 b'x'; arg_num = 0 }
    ∷ []

abbrev configured : ConfigNode
configured = record default_config { key = some (codes "364d"); host = replicate 127 b'x' }

options_parsed : parse_opts options default_config ≡ done tt configured
unfolding parse_opts parse_opt
options_parsed = refl

atoi_port : atoi (codes " 60001/tcp") ≡ some (pos 60001)
unfolding atoi
atoi_port = refl

json_config_complete_example :
    (json_config configured ≡ some (format_config configured (codes "364d")))
    × (length (format_config configured (codes "364d")) < 2048)
json_config_complete_example =
    json_config_complete options configured (codes "364d") options_parsed refl

-- A library that reports the content topic `t` and accepts everything.
abbrev answer : Call → Reply
answer (request c (content_topic name v n e)) = record {
  ret = 0;
  events = record { caller_ret = 0; msg = codes "t"; len = 1 } ∷ [];
}
answer call = record { ret = 0; events = [] }

abbrev accepting : Library
accepting calls call = answer call

abbrev heap : ℕ → Option (List ℕ)
heap n = some (replicate n 7)

abbrev idle : Client
idle = record {
  content_topic_text = null;
  publish_response = null;
  blocks = 0;
  calls = [];
  output = [];
}

abbrev rounds : List Input
rounds =
    record { line = some (codes "3\n"); rest = codes "\n/a/b hello" }
    ∷ record { line = some (codes "1\n"); rest = codes "\n/a/b\n" }
    ∷ []

run_rounds-Owned_example : Ensures (λ _ t. Owned 0 t) (run_rounds heap accepting rounds idle)
run_rounds-Owned_example = run_rounds-Owned heap accepting rounds idle refl
