-- ===== src/Libwaku/Thread/Rank.antt =====
-- library/waku_thread/waku_thread.nim: each step of a call in progress lowers a rank.
use nwaku.Base.{ℕ, ◌<◌, ◌≤◌, ◌≡◌, Bool, true, false, some, if◌then◌else◌, arith}
use nwaku.Libwaku.Thread.{
  Main, idle, halting, stopping, stopped, posted, waiting, received, Worker, checking, sleeping,
  awake, signalling, ended, answering, Shared, Log, System, system, Step, post, refuse, fire, wake,
  receive, miss, stop, alarm, join, check, finish, notice, work, pass, answer, discard, signal,
}
use nwaku.Libwaku.Thread.Valid.{
  IsResting, IsQuiet, asked, answered, WhileWaiting, WhileHalting, IsValid,
}

-- A bound on the steps until the call returns.
abbrev pub rank_of : {R A : Type 0} → Main R → Worker A → Bool → ℕ
rank_of idle w resp = 0
rank_of stopped w resp = 0
rank_of (posted r) checking resp = 11
rank_of (posted r) sleeping resp = 10
rank_of (posted r) awake resp = 0
rank_of (posted r) (answering a) resp = 0
rank_of (posted r) signalling resp = 0
rank_of (posted r) ended resp = 0
rank_of (waiting r) checking resp = if resp then 4 else 9
rank_of (waiting r) sleeping resp = if resp then 3 else 8
rank_of (waiting r) awake resp = 7
rank_of (waiting r) (answering a) resp = 6
rank_of (waiting r) signalling resp = 5
rank_of (waiting r) ended resp = 0
rank_of (received r) checking resp = 2
rank_of (received r) sleeping resp = 1
rank_of (received r) awake resp = 0
rank_of (received r) (answering a) resp = 0
rank_of (received r) signalling resp = 0
rank_of (received r) ended resp = 0
rank_of halting checking resp = 6
rank_of halting sleeping resp = 5
rank_of halting awake resp = 0
rank_of halting (answering a) resp = 0
rank_of halting signalling resp = 0
rank_of halting ended resp = 2
rank_of stopping checking resp = 2
rank_of stopping sleeping resp = 4
rank_of stopping awake resp = 3
rank_of stopping (answering a) resp = 0
rank_of stopping signalling resp = 0
rank_of stopping ended resp = 1

pub rank_of_le : {R A : Type 0} (m : Main R) (w : Worker A) (resp : Bool) → rank_of m w resp ≤ 11
rank_of_le idle w resp = omega arith
rank_of_le stopped w resp = omega arith
rank_of_le (waiting r) checking resp = ground arith
rank_of_le (waiting r) sleeping resp = ground arith
rank_of_le (waiting r) _ resp = omega arith
rank_of_le (posted r) checking resp = omega arith
rank_of_le (posted r) _ resp = omega arith
rank_of_le (received r) checking resp = omega arith
rank_of_le (received r) _ resp = omega arith
rank_of_le halting checking resp = omega arith
rank_of_le halting _ resp = omega arith
rank_of_le stopping checking resp = omega arith
rank_of_le stopping _ resp = omega arith

module _ {N R A : Type 0} where
  abbrev pub rank : System N R A → ℕ
  rank (system m w sh n l) = rank_of m w sh.resp_signal

  -- A call is in progress.
  abbrev pub IsBusy : System N R A → Type 0
  IsBusy (system idle w sh n l) = ⊥
  IsBusy (system stopped w sh n l) = ⊥
  IsBusy (system halting w sh n l) = Unit
  IsBusy (system stopping w sh n l) = Unit
  IsBusy (system (posted r) w sh n l) = Unit
  IsBusy (system (waiting r) w sh n l) = Unit
  IsBusy (system (received r) w sh n l) = Unit

module _ {N R A : Type 0} (process : R → N → N × A) (n₀ : N) where
  rank-fire :
      (r : R) (w : Worker A) (sh : Shared R A)
      → IsResting w
      → IsQuiet (some r) sh
      → rank_of (waiting r) w sh.resp_signal < rank_of (posted r) w sh.resp_signal
  rank-fire r checking sh rest q = let silent = q.silent in rw silent (omega arith)
  rank-fire r sleeping sh rest q = let silent = q.silent in rw silent (omega arith)
  rank-fire r awake sh rest q = absurd rest
  rank-fire r signalling sh rest q = absurd rest
  rank-fire r ended sh rest q = absurd rest
  rank-fire r (answering a) sh rest q = absurd rest

  rank-wake :
      (r : R) (w : Worker A) (sh : Shared R A) (n : N) (l : Log R A)
      → sh.resp_signal ≡ true
      → WhileWaiting process n₀ w r sh n l
      → rank_of (received r) w false < rank_of (waiting r) w sh.resp_signal
  rank-wake r checking sh n l fired v = rw fired (omega arith)
  rank-wake r sleeping sh n l fired v = rw fired (omega arith)
  rank-wake r awake sh n l fired v = omega arith
  rank-wake r signalling sh n l fired v = omega arith
  rank-wake r ended sh n l fired v = absurd v
  rank-wake r (answering a) sh n l fired v = omega arith

  rank-receive :
      (r : R) (w : Worker A) (resp : Bool) → IsResting w → 0 < rank_of (received r) w resp
  rank-receive r checking resp rest = omega arith
  rank-receive r sleeping resp rest = omega arith
  rank-receive r awake resp rest = absurd rest
  rank-receive r signalling resp rest = absurd rest
  rank-receive r ended resp rest = absurd rest
  rank-receive r (answering a) resp rest = absurd rest

  rank-alarm :
      (w : Worker A) (sh : Shared R A) (resp : Bool)
      → WhileHalting w sh
      → rank_of {R = R} stopping w resp < rank_of {R = R} halting w resp
  rank-alarm checking sh resp v = omega arith
  rank-alarm sleeping sh resp v = omega arith
  rank-alarm awake sh resp v = absurd v
  rank-alarm signalling sh resp v = absurd v
  rank-alarm ended sh resp v = omega arith
  rank-alarm (answering a) sh resp v = absurd v

  if_lt : (b : Bool) (i j k l : ℕ) → i < j → k < l → (if b then i else k) < (if b then j else l)
  if_lt true i j k l h h' = h
  if_lt false i j k l h h' = h'

  pub Step-rank :
      {s t : System N R A} → Step process s t → IsValid process n₀ s → IsBusy s → rank t < rank s
  Step-rank (post r free) v b = absurd b
  Step-rank (refuse r q full) v b = absurd b
  Step-rank stop v b = absurd b
  Step-rank (fire {r} {w} {sh}) v b = rank-fire r w sh v.0 v.1
  Step-rank (wake {r} {w} {sh} {n} {l} fired) v b = rank-wake r w sh n l fired v
  Step-rank (receive {r} {w} {sh} a there) v b = rank-receive r w sh.resp_signal v.0
  Step-rank (miss {r} {w} {sh} lost) v b = rank-receive r w sh.resp_signal v.0
  Step-rank (alarm {w} {sh}) v b = rank-alarm w sh sh.resp_signal v.0
  Step-rank join v b = omega arith
  Step-rank (check {m = idle} runs) v b = absurd b
  Step-rank (check {m = stopped} runs) v b = absurd b
  Step-rank (check {m = halting} runs) v b = let stops = v.0.0.stops in cc
  Step-rank (check {m = stopping} runs) v b = let stops = v.0.stops in cc
  Step-rank (check {m = posted r} runs) v b = omega arith
  Step-rank (check {m = waiting r} {sh} runs) v b =
      if_lt sh.resp_signal 3 4 8 9 (omega arith) (omega arith)
  Step-rank (check {m = received r} runs) v b = omega arith
  Step-rank (finish {m = idle} stops) v b = absurd b
  Step-rank (finish {m = stopped} stops) v b = absurd b
  Step-rank (finish {m = halting} stops) v b = omega arith
  Step-rank (finish {m = stopping} stops) v b = omega arith
  Step-rank (finish {m = posted r} stops) v b = omega arith
  Step-rank (finish {m = waiting r} {sh} stops) v b = ground arith
  Step-rank (finish {m = received r} stops) v b = omega arith
  Step-rank (notice {m = idle} fired) v b = absurd b
  Step-rank (notice {m = stopped} fired) v b = absurd b
  Step-rank (notice {m = halting} fired) v b = let quiet = v.0.1 in cc
  Step-rank (notice {m = stopping} fired) v b = omega arith
  Step-rank (notice {m = posted r} fired) v b = omega arith
  Step-rank (notice {m = waiting r} fired) (asked p q u d e s) b = rw d (omega arith)
  Step-rank (notice {m = waiting r} fired) (answered p q u d s) b = cc
  Step-rank (notice {m = received r} fired) v b = omega arith
  Step-rank (work {m = idle} r there) v b = absurd b
  Step-rank (work {m = stopped} r there) v b = absurd b
  Step-rank (work {m = halting} r there) v b = absurd v.0
  Step-rank (work {m = stopping} r there) v b = omega arith
  Step-rank (work {m = posted q} r there) v b = absurd v.0
  Step-rank (work {m = waiting q} r there) v b = omega arith
  Step-rank (work {m = received q} r there) v b = absurd v.0
  Step-rank (pass {m = idle} free) v b = absurd b
  Step-rank (pass {m = stopped} free) v b = absurd b
  Step-rank (pass {m = halting} free) v b = absurd v.0
  Step-rank (pass {m = stopping} free) v b = omega arith
  Step-rank (pass {m = posted q} free) v b = absurd v.0
  Step-rank (pass {m = waiting q} free) v b = let full = v.0.request in cc
  Step-rank (pass {m = received q} free) v b = absurd v.0
  Step-rank (answer {m = idle} free) v b = absurd b
  Step-rank (answer {m = stopped} free) v b = absurd b
  Step-rank (answer {m = halting} free) v b = absurd v.0
  Step-rank (answer {m = stopping} free) v b = absurd v.0
  Step-rank (answer {m = posted q} free) v b = absurd v.0
  Step-rank (answer {m = waiting q} free) v b = omega arith
  Step-rank (answer {m = received q} free) v b = absurd v.0
  Step-rank (discard {m = idle} x full) v b = absurd b
  Step-rank (discard {m = stopped} x full) v b = absurd b
  Step-rank (discard {m = halting} x full) v b = absurd v.0
  Step-rank (discard {m = stopping} x full) v b = absurd v.0
  Step-rank (discard {m = posted q} x full) v b = absurd v.0
  Step-rank (discard {m = waiting q} x full) v b = omega arith
  Step-rank (discard {m = received q} x full) v b = absurd v.0
  Step-rank (signal {m = idle}) v b = absurd b
  Step-rank (signal {m = stopped}) v b = absurd b
  Step-rank (signal {m = halting}) v b = absurd v.0
  Step-rank (signal {m = stopping}) v b = absurd v.0
  Step-rank (signal {m = posted q}) v b = absurd v.0
  Step-rank (signal {m = waiting q}) v b = omega arith
  Step-rank (signal {m = received q}) v b = absurd v.0
