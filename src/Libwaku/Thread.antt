-- ===== src/Libwaku/Thread.antt =====
-- library/waku_thread/waku_thread.nim: the caller's thread and the thread of the node, a shared
-- access at a time, in any order. A channel has room for one item, and a signal that is fired is kept
-- until one wait takes it, as their libraries say. What the node makes of a request is a parameter.
pub mod Valid
pub mod Caller
pub mod Attending
pub mod Answers
pub mod Rank
pub mod Progress
pub mod Faults
use nwaku.Base.{ℕ, ◌≡◌, Bool, true, false, Option, none, some, List, [], ◌∷◌}

-- Where the caller stands: in `sendRequestToWakuThread` with a request, or in `stopWakuThread`.
pub data Main (R : Type 0) : Type 0 where
  idle halting stopping stopped : Main R
  posted waiting received : R → Main R

-- Where `run` stands: before its test, before and behind its wait, and with an answer.
pub data Worker (A : Type 0) : Type 0 where
  checking sleeping awake signalling ended : Worker A
  answering : A → Worker A

pub record Shared (R A : Type 0) : Type 0 where
  pub req_channel : Option R
  pub req_signal : Bool
  pub resp_channel : Option A
  pub resp_signal : Bool
  pub running : Bool

-- The results that calls have returned, the last one first; `none` is an error of the call itself.
abbrev pub Log : Type 0 → Type 0 → Type 0
Log R A = List (R × Option A)

pub data System (N R A : Type 0) : Type 0 where
  system : Main R → Worker A → Shared R A → N → Log R A → System N R A

module _ {N R A : Type 0} (process : R → N → N × A) where
  -- `fireSync` succeeds in each of these steps.
  pub data Step : System N R A → System N R A → Type 0 where
    post :
        {w : Worker A} {sh : Shared R A} {n : N} {l : Log R A} (r : R)
        → sh.req_channel ≡ none
        → Step (system idle w sh n l) (system (posted r) w (record sh { req_channel = some r }) n l)
    refuse :
        {w : Worker A} {sh : Shared R A} {n : N} {l : Log R A} (r q : R)
        → sh.req_channel ≡ some q
        → Step (system idle w sh n l) (system idle w sh n ((r, none) ∷ l))
    fire :
        {r : R} {w : Worker A} {sh : Shared R A} {n : N} {l : Log R A}
        → Step
            (system (posted r) w sh n l)
            (system (waiting r) w (record sh { req_signal = true }) n l)
    wake :
        {r : R} {w : Worker A} {sh : Shared R A} {n : N} {l : Log R A}
        → sh.resp_signal ≡ true
        → Step
            (system (waiting r) w sh n l)
            (system (received r) w (record sh { resp_signal = false }) n l)
    receive :
        {r : R} {w : Worker A} {sh : Shared R A} {n : N} {l : Log R A} (a : A)
        → sh.resp_channel ≡ some a
        → Step
            (system (received r) w sh n l)
            (system idle w (record sh { resp_channel = none }) n ((r, some a) ∷ l))
    miss :
        {r : R} {w : Worker A} {sh : Shared R A} {n : N} {l : Log R A}
        → sh.resp_channel ≡ none
        → Step (system (received r) w sh n l) (system idle w sh n ((r, none) ∷ l))
    stop :
        {w : Worker A} {sh : Shared R A} {n : N} {l : Log R A}
        → Step (system idle w sh n l) (system halting w (record sh { running = false }) n l)
    alarm :
        {w : Worker A} {sh : Shared R A} {n : N} {l : Log R A}
        → Step (system halting w sh n l) (system stopping w (record sh { req_signal = true }) n l)
    join :
        {sh : Shared R A} {n : N} {l : Log R A}
        → Step (system stopping ended sh n l) (system stopped ended sh n l)
    check :
        {m : Main R} {sh : Shared R A} {n : N} {l : Log R A}
        → sh.running ≡ true
        → Step (system m checking sh n l) (system m sleeping sh n l)
    finish :
        {m : Main R} {sh : Shared R A} {n : N} {l : Log R A}
        → sh.running ≡ false
        → Step (system m checking sh n l) (system m ended sh n l)
    notice :
        {m : Main R} {sh : Shared R A} {n : N} {l : Log R A}
        → sh.req_signal ≡ true
        → Step (system m sleeping sh n l) (system m awake (record sh { req_signal = false }) n l)
    work :
        {m : Main R} {sh : Shared R A} {n : N} {l : Log R A} (r : R)
        → sh.req_channel ≡ some r
        → Step (system m awake sh n l) (
            system m
              (answering (process r n).1)
              (record sh { req_channel = none })
              (process r n).0
              l)
    pass :
        {m : Main R} {sh : Shared R A} {n : N} {l : Log R A}
        → sh.req_channel ≡ none
        → Step (system m awake sh n l) (system m checking sh n l)
    answer :
        {m : Main R} {sh : Shared R A} {n : N} {l : Log R A} {a : A}
        → sh.resp_channel ≡ none
        → Step
            (system m (answering a) sh n l)
            (system m signalling (record sh { resp_channel = some a }) n l)
    discard :
        {m : Main R} {sh : Shared R A} {n : N} {l : Log R A} {a : A} (b : A)
        → sh.resp_channel ≡ some b
        → Step (system m (answering a) sh n l) (system m signalling sh n l)
    signal :
        {m : Main R} {sh : Shared R A} {n : N} {l : Log R A}
        → Step
            (system m signalling sh n l)
            (system m checking (record sh { resp_signal = true }) n l)

  -- `createWakuThread`
  abbrev pub created : N → System N R A
  created n =
      system idle checking
        (record {
          req_channel = none;
          req_signal = false;
          resp_channel = none;
          resp_signal = false;
          running = true;
        })
        n []

  pub data Reach (n : N) : System N R A → Type 0 where
    start : Reach n (created n)
    next : {s t : System N R A} → Reach n s → Step s t → Reach n t
