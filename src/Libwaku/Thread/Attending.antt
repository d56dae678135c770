-- ===== src/Libwaku/Thread/Attending.antt =====
-- library/waku_thread/waku_thread.nim: the steps of the node's thread keep the system valid.
use nwaku.Base.{◌≡◌, ◌∙◌, ap, refl, sym, true, false, none, some}
use nwaku.Libwaku.Thread.{
  Main, idle, halting, stopping, stopped, posted, waiting, received, checking, sleeping, awake,
  signalling, ended, answering, Shared, Log, system,
}
use nwaku.Libwaku.Thread.Valid.{Sequential, IsQuiet, IsPending, asked, answered, IsValid}

module _ {N R A : Type 0} (process : R → N → N × A) (n₀ : N) where
  module _ (sh : Shared R A) (n : N) (l : Log R A) where
    pub check-IsValid :
        (m : Main R)
        → sh.running ≡ true
        → IsValid process n₀ (system m checking sh n l)
        → IsValid process n₀ (system m sleeping sh n l)
    check-IsValid idle runs v = v
    check-IsValid halting runs v = let stops = v.0.0.stops in cc
    check-IsValid stopping runs v = let stops = v.0.stops in cc
    check-IsValid stopped runs v = cc (v.0)
    check-IsValid (posted r) runs v = v
    check-IsValid (waiting r) runs v = v
    check-IsValid (received r) runs v = v

    pending-runs : (r : R) → IsPending process n₀ r sh n l → sh.running ≡ true
    pending-runs r (asked a b c d e s) = e
    pending-runs r (answered a b c d p) = d

    pub finish-IsValid :
        (m : Main R)
        → sh.running ≡ false
        → IsValid process n₀ (system m checking sh n l)
        → IsValid process n₀ (system m ended sh n l)
    finish-IsValid idle stops v = let runs = v.1.runs in cc
    finish-IsValid halting stops v = v
    finish-IsValid stopping stops v = v
    finish-IsValid stopped stops v = (refl, v.1)
    finish-IsValid (posted r) stops v = let runs = v.1.runs in cc
    finish-IsValid (waiting r) stops v = let runs = pending-runs r v in cc
    finish-IsValid (received r) stops v = let runs = v.1.runs in cc

    pending-IsQuiet :
        (r : R)
        → sh.req_signal ≡ true
        → IsPending process n₀ r sh n l
        → IsQuiet (some r) (record sh { req_signal = false }) × Sequential process n₀ l n
    pending-IsQuiet r fired (asked a b c d e s) =
        (record { request = a; unsignalled = refl; unanswered = c; silent = d; runs = e }, s)
    pending-IsQuiet r fired (answered a b c d p) = cc

    pub notice-IsValid :
        (m : Main R)
        → sh.req_signal ≡ true
        → IsValid process n₀ (system m sleeping sh n l)
        → IsValid process n₀ (system m awake (record sh { req_signal = false }) n l)
    notice-IsValid idle fired v = let quiet = v.1.unsignalled in cc
    notice-IsValid halting fired v = let quiet = v.0.1 in cc
    notice-IsValid stopping fired v = (
      record {
        empty = v.0.0.empty;
        unanswered = v.0.0.unanswered;
        silent = v.0.0.silent;
        stops = v.0.0.stops;
      },
      v.1,
    )
    notice-IsValid stopped fired v = cc (v.0)
    notice-IsValid (posted r) fired v = let quiet = v.1.unsignalled in cc
    notice-IsValid (waiting r) fired v = pending-IsQuiet r fired v
    notice-IsValid (received r) fired v = let quiet = v.1.unsignalled in cc

    pub work-IsValid :
        (m : Main R) (r : R)
        → sh.req_channel ≡ some r
        → IsValid process n₀ (system m awake sh n l)
        → IsValid process n₀ (
            system m
              (answering (process r n).1)
              (record sh { req_channel = none })
              (process r n).0
              l)
    work-IsValid idle r there v = absurd v.0
    work-IsValid halting r there v = absurd v.0
    work-IsValid stopping r there v = let empty = v.0.empty in cc
    work-IsValid stopped r there v = cc (v.0)
    work-IsValid (posted q) r there v = absurd v.0
    work-IsValid (waiting q) r there v =
        let own : some r ≡ some q = sym there ∙ v.0.request in
        let same : r ≡ q = cc in
        (
          record {
            request = refl;
            unsignalled = v.0.unsignalled;
            unanswered = v.0.unanswered;
            silent = v.0.silent;
            runs = v.0.runs;
          },
          (n, v.1, ap (λ x. (process x n).0) same, ap (λ x. some (process x n).1) same),
        )
    work-IsValid (received q) r there v = absurd v.0

    pub pass-IsValid :
        (m : Main R)
        → sh.req_channel ≡ none
        → IsValid process n₀ (system m awake sh n l)
        → IsValid process n₀ (system m checking sh n l)
    pass-IsValid idle none_there v = absurd v.0
    pass-IsValid halting none_there v = absurd v.0
    pass-IsValid stopping none_there v = v
    pass-IsValid stopped none_there v = cc (v.0)
    pass-IsValid (posted q) none_there v = absurd v.0
    pass-IsValid (waiting q) none_there v = let request = v.0.request in cc
    pass-IsValid (received q) none_there v = absurd v.0

    pub answer-IsValid :
        (m : Main R) (a : A)
        → IsValid process n₀ (system m (answering a) sh n l)
        → IsValid process n₀ (system m signalling (record sh { resp_channel = some a }) n l)
    answer-IsValid idle a v = absurd v.0
    answer-IsValid halting a v = absurd v.0
    answer-IsValid stopping a v = absurd v.0
    answer-IsValid stopped a v = cc (v.0)
    answer-IsValid (posted q) a v = absurd v.0
    answer-IsValid (waiting q) a v = record {
      empty = v.0.request;
      unsignalled = v.0.unsignalled;
      silent = v.0.silent;
      runs = v.0.runs;
      processed = v.1;
    }
    answer-IsValid (received q) a v = absurd v.0

    pub discard-IsValid :
        (m : Main R) (a b : A)
        → sh.resp_channel ≡ some b
        → IsValid process n₀ (system m (answering a) sh n l)
        → IsValid process n₀ (system m signalling sh n l)
    discard-IsValid idle a b full v = absurd v.0
    discard-IsValid halting a b full v = absurd v.0
    discard-IsValid stopping a b full v = absurd v.0
    discard-IsValid stopped a b full v = cc (v.0)
    discard-IsValid (posted q) a b full v = absurd v.0
    discard-IsValid (waiting q) a b full v = let empty = v.0.unanswered in cc
    discard-IsValid (received q) a b full v = absurd v.0

    pub signal-IsValid :
        (m : Main R)
        → IsValid process n₀ (system m signalling sh n l)
        → IsValid process n₀ (system m checking (record sh { resp_signal = true }) n l)
    signal-IsValid idle v = absurd v.0
    signal-IsValid halting v = absurd v.0
    signal-IsValid stopping v = absurd v.0
    signal-IsValid stopped v = cc (v.0)
    signal-IsValid (posted q) v = absurd v.0
    signal-IsValid (waiting q) v = answered v.empty v.unsignalled refl v.runs v.processed
    signal-IsValid (received q) v = absurd v.0
