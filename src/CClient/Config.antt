-- ===== src/CClient/Config.antt =====
-- The configuration under any sequence of options: its arrays stay within their sizes, and the
-- text for `waku_new` is complete.
use nwaku.Base.{
  ℕ, ◌⊎◌, zero, suc, ◌+◌, ◌≤◌, ◌<◌, ◌≡◌, ◌≢◌, refl, ap, arith, Option, none, some, List, [], ◌∷◌,
  length, length-append, length-take, take-all, All, true, false, Bool-cases, inl, inr, subst,
  Option-cases, ◌==◌, leb,
}
use nwaku.Base.Int.{ℤ, pos, negsuc}
use nwaku.Base.Decimal.{length-print}
use mathlib.Core.Option.{some-injective}
use nwaku.Base.Program.{Result, done, Ensures, Ensures-then_run, if_elim}
use nwaku.CClient.{
  ConfigNode, ArgpCall, parse_opt, parse_opts, set_int, default_config, argp_key_arg, argp_key_end,
  atoi, signed_value, skip_space, in_int, print_int, truth, format_config, json_config, join,
  config_parts,
}

abbrev pub IsInt : ℤ → Type 0
IsInt n = in_int n ≡ true

-- An array of `n` bytes that is not written yet, or has room for its terminating zero.
abbrev Within : ℕ → Option (List ℕ) → Type 0
Within n none = Unit {0}
Within n (some text) = length text < n

pub record FitsArrays (cfg : ConfigNode) : Type 0 where
  pub host : length cfg.host < 128
  pub key : Within 128 cfg.key
  pub peers : Within 2048 cfg.peers
  pub store_db_url : length cfg.store_db_url < 256
  pub store_retention_policy : length cfg.store_retention_policy < 64
  pub port : IsInt cfg.port
  pub store_max_num_db_connections : IsInt cfg.store_max_num_db_connections

default_config-FitsArrays : FitsArrays default_config
default_config-FitsArrays = record {
  host = omega arith;
  key = tt;
  peers = tt;
  store_db_url = omega arith;
  store_retention_policy = omega arith;
  port = refl;
  store_max_num_db_connections = refl;
}

atoi-IsInt : (text : List ℕ) (n : ℤ) → atoi text ≡ some n → IsInt n
unfolding atoi
atoi-IsInt text n e = elim (Bool-cases (in_int (signed_value (skip_space text)))) [
  | inl fits ↦
      let same : some (signed_value (skip_space text)) ≡ some n = rw fits at e in
      subst IsInt (some-injective _ _ same) fits
  | inr big ↦ absurd (cc (rw big at e))
]

pub atoi-cases : (text : List ℕ) → (atoi text ≡ none) ⊎ ((n : ℤ) × (atoi text ≡ some n) × IsInt n)
atoi-cases text = elim (Option-cases (atoi text)) [
  | inl e ↦ inl e
  | inr (n, e) ↦ inr (n, e, atoi-IsInt text n e)
]

abbrev Fits : ℕ → ConfigNode → Type 0
Fits status cfg = FitsArrays cfg

-- `atoi` into a field.
set_int-Fits :
    (cfg : ConfigNode) (text : List ℕ) (update : ℤ → ConfigNode)
    → ((n : ℤ) → IsInt n → FitsArrays (update n))
    → Ensures Fits (set_int cfg (atoi text) update)
set_int-Fits cfg text update keep = elim (atoi-cases text) [
  | inl e ↦ rw e tt
  | inr (n, e, int) ↦ rw e (keep n int)
]

-- One option.
parse_opt-Fits :
    (key : ℕ) (arg : List ℕ) (arg_num : ℕ) (cfg : ConfigNode)
    → FitsArrays cfg
    → Ensures Fits (parse_opt key arg arg_num cfg)
unfolding parse_opt
parse_opt-Fits key arg arg_num cfg f =
    let E = λ (r : Result ConfigNode ℕ). Ensures Fits r in
    if_elim E (key == b'h') (ground (arith, length-take 127 arg)) (
      if_elim E (key == b'p') (set_int-Fits cfg arg _ (λ n int. ground arith)) (
        if_elim E (key == b'k') (ground (arith, length-take 127 arg)) (
          if_elim E (key == b'r') (set_int-Fits cfg arg _ (λ n int. ground arith)) (
            if_elim E (key == b'a') (ground (arith, length-take 2047 arg)) (
              if_elim E (key == argp_key_arg) (if_elim E (leb 1 arg_num) tt f)
                (if_elim E (key == argp_key_end) f f))))))

-- Whatever options the argument parser reports, in whatever order, the texts stay within their
-- arrays, their terminating zeros included, and the numbers within `int`.
parse_opts-FitsArrays :
    (calls : List ArgpCall) (cfg : ConfigNode)
    → FitsArrays cfg
    → Ensures (λ _ cfg'. FitsArrays cfg') (parse_opts calls cfg)
unfolding parse_opts
parse_opts-FitsArrays [] cfg f = f
parse_opts-FitsArrays (c ∷ cs) cfg f =
    Ensures-then_run Fits (λ _ cfg'. FitsArrays cfg') (parse_opt c.key c.arg c.arg_num cfg) _
      (parse_opt-Fits c.key c.arg c.arg_num cfg f)
      (λ status cfg' f'. parse_opts-FitsArrays cs cfg' f')

pub length-print_int : (n : ℤ) → IsInt n → length (print_int n) ≤ 11
unfolding print_int
length-print_int (pos n) h = omega (arith, length-print 9 n (ground arith))
length-print_int (negsuc n) h = omega (arith, length-print 9 (suc n) (ground arith))

pub length-truth : (n : ℤ) → length (truth n) ≤ 5
length-truth (pos zero) = omega arith
length-truth (pos (suc n)) = omega arith
length-truth (negsuc n) = omega arith

-- Texts with a bound for each.
abbrev pub AtMost : List (List ℕ) → List ℕ → Type 0
AtMost [] [] = Unit {0}
AtMost (part ∷ parts) (b ∷ bs) = (length part ≤ b) × AtMost parts bs
AtMost parts bs = ⊥

abbrev pub total : List ℕ → ℕ
total [] = 0
total (b ∷ bs) = b + total bs

pub length-join :
    (parts : List (List ℕ)) (bs : List ℕ) → AtMost parts bs → length (join parts) ≤ total bs
unfolding join
length-join [] [] h = omega arith
length-join (part ∷ parts) (b ∷ bs) h =
    omega (arith, length-append part (join parts), length-join parts bs h.1)
length-join [] (b ∷ bs) h = absurd h
length-join (part ∷ parts) [] h = absurd h

length-format_config :
    (cfg : ConfigNode) (key : List ℕ)
    → FitsArrays cfg
    → length key < 128
    → length (format_config cfg key) < 2048
unfolding format_config
length-format_config cfg key f k =
    let fill : List ℕ =
      56 ∷ 127 ∷ 53 ∷ 11 ∷ 57 ∷ 127 ∷ 52 ∷ 5 ∷ 53 ∷ 5 ∷ 66 ∷ 255 ∷ 72 ∷ 63 ∷ 68 ∷ 11 ∷ 92 ∷ [] in
    omega (
      arith,
      length-join (config_parts cfg key) fill (
          omega (
            arith,
            f.host,
            length-print_int cfg.port f.port,
            length-print_int cfg.store_max_num_db_connections f.store_max_num_db_connections,
            length-truth cfg.relay,
            length-truth cfg.store,
          )),
    )

-- Whatever options are given, `jsonConfig` is the whole text that the format describes: `snprintf`
-- cuts nothing off. This needs a key, since `main` sets none.
pub json_config_complete :
    (calls : List ArgpCall) (cfg : ConfigNode) (key : List ℕ)
    → parse_opts calls default_config ≡ done tt cfg
    → cfg.key ≡ some key
    → (json_config cfg ≡ some (format_config cfg key)) × (length (format_config cfg key) < 2048)
unfolding json_config
json_config_complete calls cfg key parsed has_key =
    let fits : FitsArrays cfg =
      rw parsed at (parse_opts-FitsArrays calls default_config default_config-FitsArrays) in
    let short : length key < 128 = rw has_key at (FitsArrays.key fits) in
    let bound = length-format_config cfg key fits short in
    (simp has_key (ap some (take-all 2047 (format_config cfg key) (omega arith))), bound)

abbrev NoKey : ConfigNode → Type 0
NoKey cfg = cfg.key ≡ none

set_int-NoKey :
    (cfg : ConfigNode) (n : Option ℤ) (update : ℤ → ConfigNode)
    → ((m : ℤ) → NoKey (update m))
    → Ensures (λ (status : ℕ) cfg'. NoKey cfg') (set_int cfg n update)
set_int-NoKey cfg none update keep = tt
set_int-NoKey cfg (some n) update keep = keep n

parse_opt-NoKey :
    (key : ℕ) (arg : List ℕ) (arg_num : ℕ) (cfg : ConfigNode)
    → key ≢ b'k'
    → NoKey cfg
    → Ensures (λ (status : ℕ) cfg'. NoKey cfg') (parse_opt key arg arg_num cfg)
unfolding parse_opt
parse_opt-NoKey key arg arg_num cfg other h =
    let E = λ (r : Result ConfigNode ℕ). Ensures (λ (status : ℕ) cfg'. NoKey cfg') r in
    let not_k : (key == b'k') ≡ false = ground arith in
    rw not_k (
      if_elim E (key == b'h') h (
        if_elim E (key == b'p') (set_int-NoKey cfg (atoi arg) _ (λ n. h)) (
          if_elim E (key == b'r') (set_int-NoKey cfg (atoi arg) _ (λ n. h)) (
            if_elim E (key == b'a') h (
              if_elim E (key == argp_key_arg) (if_elim E (leb 1 arg_num) tt h)
                (if_elim E (key == argp_key_end) h h))))))

parse_opts-NoKey :
    (calls : List ArgpCall) (cfg : ConfigNode)
    → All (λ c. ArgpCall.key c ≢ b'k') calls
    → NoKey cfg
    → Ensures (λ (_ : Unit {0}) cfg'. NoKey cfg') (parse_opts calls cfg)
unfolding parse_opts
parse_opts-NoKey [] cfg other h = h
parse_opts-NoKey (c ∷ cs) cfg other h =
    Ensures-then_run (λ (status : ℕ) cfg'. NoKey cfg') (λ _ cfg'. NoKey cfg')
      (parse_opt c.key c.arg c.arg_num cfg) _ (parse_opt-NoKey c.key c.arg c.arg_num cfg other.0 h)
      (λ status cfg' h'. parse_opts-NoKey cs cfg' other.1 h')

-- Without the option `--key` the text is read from an array that nothing has written.
json_config-no_key :
    (calls : List ArgpCall) (cfg : ConfigNode)
    → All (λ c. ArgpCall.key c ≢ b'k') calls
    → parse_opts calls default_config ≡ done tt cfg
    → json_config cfg ≡ none
unfolding json_config
json_config-no_key calls cfg other parsed =
    let unset : NoKey cfg = rw parsed at (parse_opts-NoKey calls default_config other refl) in
    rw unset
