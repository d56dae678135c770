-- ===== src/CppClient.antt =====
-- examples/cpp/waku.cpp: the client in C++. Its configuration and the text that it passes to
-- `waku_new` are here, the calls of the library in the children. A text is the list of its bytes.
pub mod Config
pub mod Requests
pub mod Main
pub mod Menu
mod Tests
use nwaku.Base.{
  ℕ, ◌-◌, ◌==◌, leb, if◌then◌else◌, Option, none, some, List, [], ◌∷◌, ◌++◌, codes, replicate,
}
use nwaku.Base.Int.{ℤ, pos}
use nwaku.Base.Program.{Result, done, exited, undefined, then_run}
use nwaku.CClient.{
  snprintf, atoi, print_int, truth, join, argp_key_arg, argp_key_end, argp_err_unknown, ArgpCall,
}

-- `none` is the array that nothing has written.
pub record ConfigNode : Type 0 where
  pub host : List ℕ
  pub port : ℤ
  pub key : List ℕ
  pub relay : ℤ
  pub peers : Option (List ℕ)

-- The default values that `main` sets.
abbrev pub default_config : ConfigNode
default_config = record {
  host = codes "0.0.0.0";
  port = pos 60000;
  key = codes "364d111d729a6eb6d2e6113e163f017b5ef03a6f94c9b5b7bb1bb36fa5cb07a9";
  relay = pos 1;
  peers = none;
}

-- An `int` that `atoi` sets.
abbrev pub set_int : ConfigNode → Option ℤ → (ℤ → ConfigNode) → Result ConfigNode ℕ
set_int cfg none update = undefined
set_int cfg (some n) update = done 0 (update n)

-- `argp_usage` ends the process.
pub parse_opt : ℕ → List ℕ → ℕ → ConfigNode → Result ConfigNode ℕ
parse_opt key arg arg_num cfg =
    if key == b'h'
    then done 0 (record cfg { host = snprintf 128 arg })
    else (if key == b'p'
        then set_int cfg (atoi arg) (λ n. record cfg { port = n })
        else (if key == b'k'
            then done 0 (record cfg { key = snprintf 128 arg })
            else (if key == b'r'
                then set_int cfg (atoi arg) (λ n. record cfg { relay = n })
                else (if key == b'a'
                    then done 0 (record cfg { peers = some (snprintf 2048 arg) })
                    else (if key == argp_key_arg
                        then (if leb 1 arg_num then exited cfg else done 0 cfg)
                        else (if key == argp_key_end
                            then done 0 cfg
                            else done argp_err_unknown cfg))))))

-- The calls of the argument parser one after the other, until one ends the process.
pub parse_opts : List ArgpCall → ConfigNode → Result ConfigNode (Unit {0})
parse_opts [] cfg = done tt cfg
parse_opts (c ∷ cs) cfg = then_run (parse_opt c.key c.arg c.arg_num cfg) (λ status. parse_opts cs)

-- What the format of `main` is filled with, its blanks as long as in the source.
abbrev pub config_parts : ConfigNode → List (List ℕ)
config_parts cfg =
    (codes "{" ++ (replicate 37 32 ++ codes "\"host\": \""))
    ∷ cfg.host
    ∷ (codes "\"," ++ (replicate 39 32 ++ codes "\"port\": "))
    ∷ print_int cfg.port
    ∷ (codes "," ++ (replicate 43 32 ++ codes "\"key\": \""))
    ∷ cfg.key
    ∷ (codes "\"," ++ (replicate 40 32 ++ codes "\"relay\": "))
    ∷ truth cfg.relay
    ∷ (codes ","
        ++ (replicate 42 32 ++ (codes "\"logLevel\": \"DEBUG\"" ++ (replicate 33 32 ++ codes "}"))))
    ∷ []

pub format_config : ConfigNode → List ℕ
format_config cfg = join (config_parts cfg)

pub json_config : ConfigNode → List ℕ
json_config cfg = snprintf 1024 (format_config cfg)
