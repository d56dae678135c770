-- ===== src/CppClient/Config.antt =====
-- examples/cpp/waku.cpp: the configuration under any sequence of options.
use nwaku.Base.{
  ℕ, inl, inr, ◌<◌, ◌≡◌, refl, arith, List, [], ◌∷◌, length, length-take, take-all, ◌==◌, leb,
}
use nwaku.Base.Int.{ℤ}
use nwaku.Base.Program.{Result, done, Ensures, Ensures-then_run, if_elim}
use nwaku.CClient.{ArgpCall, atoi, argp_key_arg, argp_key_end}
use nwaku.CClient.Config.{IsInt, atoi-cases, length-print_int, length-truth, length-join}
use nwaku.CppClient.{
  ConfigNode, parse_opt, parse_opts, set_int, default_config, format_config, json_config,
  config_parts,
}

-- The texts have room for their terminating zeros, and the port is an `int`.
pub record FitsArrays (cfg : ConfigNode) : Type 0 where
  pub host : length cfg.host < 128
  pub key : length cfg.key < 128
  pub port : IsInt cfg.port

set_int-Fits :
    (cfg : ConfigNode) (text : List ℕ) (update : ℤ → ConfigNode)
    → ((n : ℤ) → IsInt n → FitsArrays (update n))
    → Ensures (λ (_ : ℕ) cfg'. FitsArrays cfg') (set_int cfg (atoi text) update)
set_int-Fits cfg text update keep = elim (atoi-cases text) [
  | inl e ↦ rw e tt
  | inr (n, e, int) ↦ rw e (keep n int)
]

parse_opt-Fits :
    (key : ℕ) (arg : List ℕ) (arg_num : ℕ) (cfg : ConfigNode)
    → FitsArrays cfg
    → Ensures (λ (_ : ℕ) cfg'. FitsArrays cfg') (parse_opt key arg arg_num cfg)
unfolding parse_opt
parse_opt-Fits key arg arg_num cfg f =
    let E = λ (r : Result ConfigNode ℕ). Ensures (λ (_ : ℕ) cfg'. FitsArrays cfg') r in
    if_elim E (key == b'h') (ground (arith, length-take 127 arg)) (
      if_elim E (key == b'p') (set_int-Fits cfg arg _ (λ n int. ground arith)) (
        if_elim E (key == b'k') (ground (arith, length-take 127 arg)) (
          if_elim E (key == b'r') (set_int-Fits cfg arg _ (λ n int. ground arith)) (
            if_elim E (key == b'a') (ground arith) (
              if_elim E (key == argp_key_arg) (if_elim E (leb 1 arg_num) tt f)
                (if_elim E (key == argp_key_end) f f))))))

parse_opts-Fits :
    (calls : List ArgpCall) (cfg : ConfigNode)
    → FitsArrays cfg
    → Ensures (λ _ cfg'. FitsArrays cfg') (parse_opts calls cfg)
unfolding parse_opts
parse_opts-Fits [] cfg f = f
parse_opts-Fits (c ∷ cs) cfg f =
    Ensures-then_run (λ (_ : ℕ) cfg'. FitsArrays cfg') (λ _ cfg'. FitsArrays cfg')
      (parse_opt c.key c.arg c.arg_num cfg) _ (parse_opt-Fits c.key c.arg c.arg_num cfg f)
      (λ status cfg' f'. parse_opts-Fits cs cfg' f')

length-format_config : (cfg : ConfigNode) → FitsArrays cfg → length (format_config cfg) < 1024
unfolding format_config
length-format_config cfg f =
    let fill : List ℕ = 47 ∷ 127 ∷ 49 ∷ 11 ∷ 52 ∷ 127 ∷ 51 ∷ 5 ∷ 96 ∷ [] in
    omega (
      arith,
      length-join (config_parts cfg) fill
          (omega (arith, f.host, f.key, length-print_int cfg.port f.port, length-truth cfg.relay)),
    )

-- Whatever options are given, `jsonConfig` is the whole text that the format describes: it is shorter
-- than its array, and `snprintf` cuts nothing off.
json_config_whole :
    (calls : List ArgpCall) (cfg : ConfigNode)
    → parse_opts calls default_config ≡ done tt cfg
    → (json_config cfg ≡ format_config cfg) × (length (format_config cfg) < 1024)
unfolding json_config
json_config_whole calls cfg parsed =
    let defaults : FitsArrays default_config = record {
      host = omega arith;
      key = omega arith;
      port = refl;
    } in
    let fits : FitsArrays cfg = rw parsed at (parse_opts-Fits calls default_config defaults) in
    let bound = length-format_config cfg fits in
    (take-all 1023 (format_config cfg) (omega (arith, bound)), bound)
