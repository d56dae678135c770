-- ===== src/Libwaku/Thread/Faults.antt =====
-- library/waku_thread/waku_thread.nim: what a call leaves behind whose signal cannot be fired.
use nwaku.Base.{◌≡◌, refl, ap, none, some, List, [], ◌∷◌, ◌++◌, map}
use nwaku.Libwaku.Thread.{
  Main, idle, halting, stopping, stopped, posted, waiting, received, Worker, Shared, Log, System,
  system, Step, post, refuse, fire, wake, receive, miss, stop, alarm, join, check, finish, notice,
  work, pass, answer, discard, signal, Reach,
}
use nwaku.Libwaku.Thread.Valid.{IsResting, IsQuiet}
use nwaku.Libwaku.Thread.Answers.{Reach-IsValid}

-- `fireSync` fails behind `trySend`: the call returns an error.
abbrev pub lose : {N R A : Type 0} → R → Worker A → Shared R A → N → Log R A → System N R A
lose r w sh n l = system idle w sh n ((r, none) ∷ l)

abbrev pub refusals : {R A : Type 0} → List R → Log R A
refusals qs = map (λ q. (q, none)) qs

-- A property while no request is on its way, up to a call to stop.
abbrev WhileIdle : {R : Type 0} → Main R → Type 0 → Type 0
WhileIdle idle P = P
WhileIdle halting P = Unit
WhileIdle stopping P = Unit
WhileIdle stopped P = Unit
WhileIdle (posted q) P = ⊥
WhileIdle (waiting q) P = ⊥
WhileIdle (received q) P = ⊥

while_idle : {R P Q : Type 0} (m : Main R) → (P → Q) → WhileIdle m P → WhileIdle m Q
while_idle idle f v = f v
while_idle halting f v = tt
while_idle stopping f v = tt
while_idle stopped f v = tt
while_idle (posted q) f v = absurd v
while_idle (waiting q) f v = absurd v
while_idle (received q) f v = absurd v

module _ {N R A : Type 0} (process : R → N → N × A) where
  pub data Run (s : System N R A) : System N R A → Type 0 where
    here : Run s s
    later : {t u : System N R A} → Run s t → Step process t u → Run s u

  module _ (r : R) (n : N) (l : Log R A) where
    -- Up to a call to stop: the request is in the channel, and nobody looks for it.
    abbrev IsStuckAt : Worker A → Shared R A → N → Log R A → Type 0
    IsStuckAt w sh k l' =
        IsResting w × IsQuiet (some r) sh × (k ≡ n) × ((qs : List R) × (l' ≡ refusals qs ++ l))

    abbrev IsStuck : System N R A → Type 0
    IsStuck (system m w sh k l') = WhileIdle m (IsStuckAt w sh k l')

    Step-IsStuck : {s t : System N R A} → Step process s t → IsStuck s → IsStuck t
    Step-IsStuck (post q free) (rest, quiet, k, l') = let full = quiet.request in cc
    Step-IsStuck (refuse q x full) (rest, quiet, k, (qs, l')) =
        (rest, quiet, k, (q ∷ qs, ap (◌∷◌ (q, none)) l'))
    Step-IsStuck fire v = absurd v
    Step-IsStuck (wake fired) v = absurd v
    Step-IsStuck (receive a there) v = absurd v
    Step-IsStuck (miss lost) v = absurd v
    Step-IsStuck stop v = tt
    Step-IsStuck alarm v = tt
    Step-IsStuck join v = tt
    Step-IsStuck (check {m} runs) v = while_idle m (λ v. (tt, v.1, v.2, v.3)) v
    Step-IsStuck (finish {m} stops) v = while_idle m (λ v. let runs = v.1.runs in cc) v
    Step-IsStuck (notice {m} fired) v = while_idle m (λ v. let quiet = v.1.unsignalled in cc) v
    Step-IsStuck (work {m} q there) v = while_idle m (λ v. absurd v.0) v
    Step-IsStuck (pass {m} free) v = while_idle m (λ v. absurd v.0) v
    Step-IsStuck (answer {m} free) v = while_idle m (λ v. absurd v.0) v
    Step-IsStuck (discard {m} b full) v = while_idle m (λ v. absurd v.0) v
    Step-IsStuck (signal {m}) v = while_idle m (λ v. absurd v.0) v

    Run-IsStuck : {s t : System N R A} → Run s t → IsStuck s → IsStuck t
    Run-IsStuck here v = v
    Run-IsStuck (later run step) v = Step-IsStuck step (Run-IsStuck run v)

  -- If the signal for a request cannot be fired once, the request stays in the channel. From then on,
  -- up to the call to stop, and whatever the order of the steps, each call returns an error, and the
  -- node processes nothing.
  pub lost_signal :
      (n₀ : N) (r : R) {w : Worker A} {sh : Shared R A} {n : N} {l : Log R A}
      → Reach process n₀ (system (posted r) w sh n l)
      → {w' : Worker A} {sh' : Shared R A} {n' : N} {l' : Log R A}
      → Run (lose r w sh n l) (system idle w' sh' n' l')
      → (n' ≡ n) × ((qs : List R) × (l' ≡ refusals qs ++ (r, none) ∷ l))
  lost_signal n₀ r {w} {sh} {n} {l} reach run =
      let v = Reach-IsValid process n₀ reach in
      let stuck = Run-IsStuck r n ((r, none) ∷ l) run (v.0, v.1, refl, ([], refl)) in
      (stuck.2, stuck.3)
