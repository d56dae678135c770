-- ===== src/Libwaku/Thread/Progress.antt =====
-- library/waku_thread/waku_thread.nim: a call in progress always has a next step, and ends.
use nwaku.Base.{◌<◌, ◌≤◌, ◌≡◌, true}
use nwaku.Libwaku.Thread.{
  Main, idle, halting, stopping, stopped, posted, waiting, received, Worker, checking, sleeping,
  awake, signalling, ended, answering, Shared, Log, System, system, Step, fire, wake, receive,
  alarm, join, check, finish, notice, work, pass, answer, signal, Reach,
}
use nwaku.Libwaku.Thread.Valid.{IsPending, asked, answered, IsValid}
use nwaku.Libwaku.Thread.Answers.{Reach-IsValid}
use nwaku.Libwaku.Thread.Rank.{rank_of_le, rank, IsBusy, Step-rank}

module _ {N R A : Type 0} (process : R → N → N × A) (n₀ : N) where
  -- Some step of the system.
  abbrev pub Moves : System N R A → Type 0
  Moves s = (t : System N R A) × Step process s t

  pending-Moves :
      (r : R) (w : Worker A) (sh : Shared R A) (n : N) (l : Log R A)
      → (sh.req_signal ≡ true → Moves (system (waiting r) w sh n l))
      → IsPending process n₀ r sh n l
      → Moves (system (waiting r) w sh n l)
  pending-Moves r w sh n l notices (asked p q u d e s) = notices q
  pending-Moves r w sh n l notices (answered p q u d s) = (_, wake u)

  valid-Moves :
      (m : Main R) (w : Worker A) (sh : Shared R A) (n : N) (l : Log R A)
      → IsValid process n₀ (system m w sh n l)
      → IsBusy (system m w sh n l)
      → Moves (system m w sh n l)
  valid-Moves idle w sh n l v b = absurd b
  valid-Moves stopped w sh n l v b = absurd b
  valid-Moves (posted r) w sh n l v b = (_, fire)
  valid-Moves (waiting r) checking sh n l (asked p q u d e s) b = (_, check e)
  valid-Moves (waiting r) checking sh n l (answered p q u d s) b = (_, wake u)
  valid-Moves (waiting r) sleeping sh n l (asked p q u d e s) b = (_, notice q)
  valid-Moves (waiting r) sleeping sh n l (answered p q u d s) b = (_, wake u)
  valid-Moves (waiting r) awake sh n l v b = (_, work r v.0.request)
  valid-Moves (waiting r) (answering a) sh n l v b = (_, answer v.0.unanswered)
  valid-Moves (waiting r) signalling sh n l v b = (_, signal)
  valid-Moves (waiting r) ended sh n l v b = absurd v
  valid-Moves (received r) w sh n l v b =
      let (k, s, node, result) = v.1.processed in (_, receive (process r k).1 result)
  valid-Moves halting w sh n l v b = (_, alarm)
  valid-Moves stopping checking sh n l v b = (_, finish v.0.stops)
  valid-Moves stopping sleeping sh n l v b = (_, notice v.0.1)
  valid-Moves stopping awake sh n l v b = (_, pass v.0.empty)
  valid-Moves stopping (answering a) sh n l v b = absurd v.0
  valid-Moves stopping signalling sh n l v b = absurd v.0
  valid-Moves stopping ended sh n l v b = (_, join)

  -- The channels and signals work, and calls come one after the other: in every state that the two
  -- threads reach with a call in progress, be it a request or the one to stop, some step is possible,
  -- and every step that is possible lowers the rank, which is at most 11. So the call returns within
  -- 11 steps, whatever their order.
  pub calls-end :
      (s : System N R A)
      → Reach process n₀ s
      → IsBusy s
      → Moves s × ((t : System N R A) → Step process s t → rank t < rank s) × (rank s ≤ 11)
  calls-end (system m w sh n l) r b =
      let v = Reach-IsValid process n₀ r in
      (
        valid-Moves m w sh n l v b,
        λ t step. Step-rank process n₀ step v b,
        rank_of_le m w sh.resp_signal,
      )
