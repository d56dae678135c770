-- ===== src/Libwaku/Thread/Caller.antt =====
-- library/waku_thread/waku_thread.nim: the caller's steps keep the system valid.
use nwaku.Base.{◌≡◌, ◌∙◌, refl, sym, true, false, none, some, ◌∷◌}
use nwaku.Libwaku.Thread.{
  idle, Worker, checking, sleeping, awake, signalling, ended, answering, Shared, Log, system,
}
use nwaku.Libwaku.Thread.Valid.{
  Sequential, IsResting, IsQuiet, IsPending, asked, answered, IsAnswered, WhileWaiting, IsStopping,
  WhileStopping, WhileHalting, IsValid,
}

module _ {N R A : Type 0} (process : R → N → N × A) (n₀ : N) where
  module _ (sh : Shared R A) (n : N) (l : Log R A) where
    pub fire-IsValid :
        (r : R) (w : Worker A)
        → IsResting w
        → IsQuiet (some r) sh
        → Sequential process n₀ l n
        → WhileWaiting process n₀ w r (record sh { req_signal = true }) n l
    fire-IsValid r checking rest q s = asked q.request refl q.unanswered q.silent q.runs s
    fire-IsValid r sleeping rest q s = asked q.request refl q.unanswered q.silent q.runs s
    fire-IsValid r awake rest q s = absurd rest
    fire-IsValid r signalling rest q s = absurd rest
    fire-IsValid r ended rest q s = absurd rest
    fire-IsValid r (answering a) rest q s = absurd rest

    pending-IsAnswered :
        (r : R)
        → sh.resp_signal ≡ true
        → IsPending process n₀ r sh n l
        → IsAnswered process n₀ r (record sh { resp_signal = false }) n l
    pending-IsAnswered r fired (asked a b c d e s) = cc
    pending-IsAnswered r fired (answered a b c d p) = record {
      empty = a;
      unsignalled = b;
      silent = refl;
      runs = d;
      processed = p;
    }

    pub wake-IsValid :
        (r : R) (w : Worker A)
        → sh.resp_signal ≡ true
        → WhileWaiting process n₀ w r sh n l
        → IsResting w × IsAnswered process n₀ r (record sh { resp_signal = false }) n l
    wake-IsValid r checking fired v = (tt, pending-IsAnswered r fired v)
    wake-IsValid r sleeping fired v = (tt, pending-IsAnswered r fired v)
    wake-IsValid r awake fired v = let silent = v.0.silent in cc
    wake-IsValid r signalling fired v = let silent = v.silent in cc
    wake-IsValid r ended fired v = absurd v
    wake-IsValid r (answering a) fired v = let silent = v.0.silent in cc

    pub receive-IsValid :
        (r : R) (w : Worker A) (a : A)
        → sh.resp_channel ≡ some a
        → IsResting w × IsAnswered process n₀ r sh n l
        → IsValid process n₀ (system idle w (record sh { resp_channel = none }) n ((r, some a) ∷ l))
    receive-IsValid r w a there (rest, v) =
        let (m, s, node, result) = v.processed in
        (
          rest,
          record {
            request = v.empty;
            unsignalled = v.unsignalled;
            unanswered = refl;
            silent = v.silent;
            runs = v.runs;
          },
          (m, s, node, sym there ∙ result),
        )

    pub stop-IsValid :
        (w : Worker A)
        → IsResting w
        → IsQuiet none sh
        → WhileHalting w (record sh { running = false })
    stop-IsValid checking rest q = (
      record { empty = q.request; unanswered = q.unanswered; silent = q.silent; stops = refl },
      q.unsignalled,
    )
    stop-IsValid sleeping rest q = (
      record { empty = q.request; unanswered = q.unanswered; silent = q.silent; stops = refl },
      q.unsignalled,
    )
    stop-IsValid awake rest q = absurd rest
    stop-IsValid signalling rest q = absurd rest
    stop-IsValid ended rest q = absurd rest
    stop-IsValid (answering a) rest q = absurd rest

    signalled-IsStopping : IsStopping sh → IsStopping (record sh { req_signal = true })
    signalled-IsStopping v = record {
      empty = v.empty;
      unanswered = v.unanswered;
      silent = v.silent;
      stops = v.stops;
    }

    pub alarm-IsValid :
        (w : Worker A) → WhileHalting w sh → WhileStopping w (record sh { req_signal = true })
    alarm-IsValid checking v = signalled-IsStopping v.0
    alarm-IsValid sleeping v = (signalled-IsStopping v.0, refl)
    alarm-IsValid awake v = absurd v
    alarm-IsValid signalling v = absurd v
    alarm-IsValid ended v = signalled-IsStopping v.0
    alarm-IsValid (answering a) v = absurd v
