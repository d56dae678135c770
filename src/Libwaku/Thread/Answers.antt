-- ===== src/Libwaku/Thread/Answers.antt =====
-- library/waku_thread/waku_thread.nim: each call returns the node's answer to its own request, as if
-- the requests were processed one after the other.
use nwaku.Base.{refl}
use nwaku.Libwaku.Thread.{
  idle, Worker, Shared, Log, System, system, Step, post, refuse, fire, wake, receive, miss, stop,
  alarm, join, check, finish, notice, work, pass, answer, discard, signal, Reach, start, next,
}
use nwaku.Libwaku.Thread.Valid.{Sequential, IsValid}
use nwaku.Libwaku.Thread.Caller.{
  fire-IsValid, wake-IsValid, receive-IsValid, stop-IsValid, alarm-IsValid,
}
use nwaku.Libwaku.Thread.Attending.{
  check-IsValid, finish-IsValid, notice-IsValid, work-IsValid, pass-IsValid, answer-IsValid,
  discard-IsValid, signal-IsValid,
}

module _ {N R A : Type 0} (process : R → N → N × A) (n₀ : N) where
  pub Step-IsValid :
      {s t : System N R A} → Step process s t → IsValid process n₀ s → IsValid process n₀ t
  Step-IsValid (post {sh} r free) (rest, q, s) = (
    rest,
    record {
      request = refl;
      unsignalled = q.unsignalled;
      unanswered = q.unanswered;
      silent = q.silent;
      runs = q.runs;
    },
    s,
  )
  Step-IsValid (refuse r x full) (rest, q, s) = let free = q.request in cc
  Step-IsValid (fire {r} {w} {sh} {n} {l}) (rest, q, s) =
      fire-IsValid process n₀ sh n l r w rest q s
  Step-IsValid (wake {r} {w} {sh} {n} {l} fired) v = wake-IsValid process n₀ sh n l r w fired v
  Step-IsValid (receive {r} {w} {sh} {n} {l} a there) v =
      receive-IsValid process n₀ sh n l r w a there v
  Step-IsValid (miss lost) (rest, v) = let (m, s, node, result) = v.processed in cc
  Step-IsValid (stop {w} {sh} {n} {l}) (rest, q, s) = (stop-IsValid process n₀ sh n l w rest q, s)
  Step-IsValid (alarm {w} {sh} {n} {l}) (v, s) = (alarm-IsValid process n₀ sh n l w v, s)
  Step-IsValid join v = (refl, v.1)
  Step-IsValid (check {m} {sh} {n} {l} runs) v = check-IsValid process n₀ sh n l m runs v
  Step-IsValid (finish {m} {sh} {n} {l} stops) v = finish-IsValid process n₀ sh n l m stops v
  Step-IsValid (notice {m} {sh} {n} {l} fired) v = notice-IsValid process n₀ sh n l m fired v
  Step-IsValid (work {m} {sh} {n} {l} r there) v = work-IsValid process n₀ sh n l m r there v
  Step-IsValid (pass {m} {sh} {n} {l} free) v = pass-IsValid process n₀ sh n l m free v
  Step-IsValid (answer {m} {sh} {n} {l} {a} free) v = answer-IsValid process n₀ sh n l m a v
  Step-IsValid (discard {m} {sh} {n} {l} {a} b full) v =
      discard-IsValid process n₀ sh n l m a b full v
  Step-IsValid (signal {m} {sh} {n} {l}) v = signal-IsValid process n₀ sh n l m v

  pub Reach-IsValid : {s : System N R A} → Reach process n₀ s → IsValid process n₀ s
  Reach-IsValid start = (
    tt,
    record { request = refl; unsignalled = refl; unanswered = refl; silent = refl; runs = refl },
    refl,
  )
  Reach-IsValid (next r step) = Step-IsValid step (Reach-IsValid r)

  -- The channels and signals work, and calls come one after the other: whatever the order of the
  -- threads' steps, in every state that they reach, the results of the calls that have returned are
  -- the node's answers to these requests, processed one after the other in the order of the calls,
  -- and behind the last of them the node has processed nothing else.
  pub calls-Sequential :
      {w : Worker A} {sh : Shared R A} {n : N} {l : Log R A}
      → Reach process n₀ (system idle w sh n l)
      → Sequential process n₀ l n
  calls-Sequential r = (Reach-IsValid r).2
