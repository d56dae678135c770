-- ===== src/Libwaku/Thread/Valid.antt =====
-- library/waku_thread/waku_thread.nim: where the two threads can stand, and what the channels and
-- signals hold there.
use nwaku.Base.{◌≡◌, true, false, Option, none, some, [], ◌∷◌}
use nwaku.Libwaku.Thread.{
  idle, halting, stopping, stopped, posted, waiting, received, Worker, checking, sleeping, awake,
  signalling, ended, answering, Shared, Log, System, system,
}

abbrev pub IsResting : {A : Type 0} → Worker A → Type 0
IsResting checking = Unit
IsResting sleeping = Unit
IsResting awake = ⊥
IsResting signalling = ⊥
IsResting ended = ⊥
IsResting (answering a) = ⊥

module _ {R A : Type 0} where
  pub record IsQuiet (req : Option R) (sh : Shared R A) : Type 0 where
    pub request : sh.req_channel ≡ req
    pub unsignalled : sh.req_signal ≡ false
    pub unanswered : sh.resp_channel ≡ none
    pub silent : sh.resp_signal ≡ false
    pub runs : sh.running ≡ true

  pub record IsStopping (sh : Shared R A) : Type 0 where
    pub empty : sh.req_channel ≡ none
    pub unanswered : sh.resp_channel ≡ none
    pub silent : sh.resp_signal ≡ false
    pub stops : sh.running ≡ false

  abbrev pub WhileHalting : Worker A → Shared R A → Type 0
  WhileHalting checking sh = IsStopping sh × (sh.req_signal ≡ false)
  WhileHalting sleeping sh = IsStopping sh × (sh.req_signal ≡ false)
  WhileHalting awake sh = ⊥
  WhileHalting (answering a) sh = ⊥
  WhileHalting signalling sh = ⊥
  WhileHalting ended sh = IsStopping sh × (sh.req_signal ≡ false)

  abbrev pub WhileStopping : Worker A → Shared R A → Type 0
  WhileStopping checking sh = IsStopping sh
  WhileStopping sleeping sh = IsStopping sh × (sh.req_signal ≡ true)
  WhileStopping awake sh = IsStopping sh
  WhileStopping (answering a) sh = ⊥
  WhileStopping signalling sh = ⊥
  WhileStopping ended sh = IsStopping sh

module _ {N R A : Type 0} (process : R → N → N × A) (n₀ : N) where
  -- Sequential processing: from the node `n₀`, the requests of the log leave the node `n`, and have the
  -- results of the log.
  abbrev pub Sequential : Log R A → N → Type 0
  Sequential [] n = n ≡ n₀
  Sequential ((r, result) ∷ l) n =
      (m : N) × Sequential l m × (n ≡ (process r m).0) × (result ≡ some (process r m).1)

  -- The node has processed one request more, with this answer.
  abbrev pub Processed : R → Option A → Log R A → N → Type 0
  Processed r result l n = Sequential ((r, result) ∷ l) n

  -- A request is signalled, or its answer.
  pub data IsPending (r : R) (sh : Shared R A) (n : N) (l : Log R A) : Type 0 where
    asked :
        sh.req_channel ≡ some r
        → sh.req_signal ≡ true
        → sh.resp_channel ≡ none
        → sh.resp_signal ≡ false
        → sh.running ≡ true
        → Sequential l n
        → IsPending r sh n l
    answered :
        sh.req_channel ≡ none
        → sh.req_signal ≡ false
        → sh.resp_signal ≡ true
        → sh.running ≡ true
        → Processed r sh.resp_channel l n
        → IsPending r sh n l

  pub record IsAnswered (r : R) (sh : Shared R A) (n : N) (l : Log R A) : Type 0 where
    pub empty : sh.req_channel ≡ none
    pub unsignalled : sh.req_signal ≡ false
    pub silent : sh.resp_signal ≡ false
    pub runs : sh.running ≡ true
    pub processed : Processed r sh.resp_channel l n

  abbrev pub WhileWaiting : Worker A → R → Shared R A → N → Log R A → Type 0
  WhileWaiting checking r sh n l = IsPending r sh n l
  WhileWaiting sleeping r sh n l = IsPending r sh n l
  WhileWaiting awake r sh n l = IsQuiet (some r) sh × Sequential l n
  WhileWaiting (answering a) r sh n l = IsQuiet none sh × Processed r (some a) l n
  WhileWaiting signalling r sh n l = IsAnswered r sh n l
  WhileWaiting ended r sh n l = ⊥

  abbrev pub IsValid : System N R A → Type 0
  IsValid (system idle w sh n l) = IsResting w × IsQuiet none sh × Sequential l n
  IsValid (system (posted r) w sh n l) = IsResting w × IsQuiet (some r) sh × Sequential l n
  IsValid (system (waiting r) w sh n l) = WhileWaiting w r sh n l
  IsValid (system (received r) w sh n l) = IsResting w × IsAnswered r sh n l
  IsValid (system halting w sh n l) = WhileHalting w sh × Sequential l n
  IsValid (system stopping w sh n l) = WhileStopping w sh × Sequential l n
  IsValid (system stopped w sh n l) = (w ≡ ended) × Sequential l n
