-- ===== src/Store/Limits.antt =====
-- waku/waku_store/protocol.nim: how many queries are answered in a period.
use nwaku.Base.{
  ℕ, ◌+◌, ◌≤◌, ◌==◌, if◌then◌else◌, Bool-cases, inl, inr, arith, Option, none, some, List, [], ◌∷◌,
  All, map,
}
use nwaku.RateLimit.{TokenBucket, check_usage, served}
use nwaku.RateLimit.Consume.{WithinCap}
use nwaku.RateLimit.Window.{Within, period, served-le_budget}
use nwaku.Archive.Queue.{QueueDriver}
use nwaku.Store.{StoreQueryResponse, Decoded, handler}

-- A request, the time at which it arrives and the queue that it finds.
pub record Query : Type 0 where
  pub driver : QueueDriver
  pub request : Decoded
  pub now : ℕ

-- The responses whose status is not that there are too many requests; a Defect counts as well.
abbrev pub answers : Option StoreQueryResponse → ℕ
answers none = 1
answers (some r) = if r.status_code == 429 then 0 else 1

unfoldable pub answered : Option TokenBucket → List Query → ℕ
answered bucket [] = 0
answered bucket (q ∷ qs) =
    let (bucket', response) = handler bucket q.driver q.request q.now in
    answers response + answered bucket' qs

answers_le : (response : Option StoreQueryResponse) → answers response ≤ 1
answers_le none = omega arith
answers_le (some r) = ground arith

answered-le_served :
    (bucket : Option TokenBucket) (qs : List Query)
    → answered bucket qs ≤ served bucket (map Query.now qs)
unfolding answered served handler
answered-le_served bucket [] = omega arith
answered-le_served bucket (q ∷ qs) =
    let rest = answered-le_served (check_usage bucket q.now).0 qs in
    elim (Bool-cases (check_usage bucket q.now).1) [
      | inl within ↦ rw within (omega (arith, rest, answers_le _))
      | inr beyond ↦ rw beyond (omega (arith, rest))
    ]

-- From a bucket that is not above its capacity: of queries that all arrive within one fill period, in
-- any order and whatever they ask, no more get a response with another status than 429 than the
-- budget and the capacity together; and no more than the budget, if the last fill is not before the
-- window.
pub answered-le_budget :
    (bucket : TokenBucket) (start : ℕ) (qs : List Query)
    → WithinCap bucket
    → All (Within start (period bucket)) (map Query.now qs)
    → (answered (some bucket) qs ≤ bucket.budget + bucket.budget_cap)
      × (start ≤ bucket.last_time_full → answered (some bucket) qs ≤ bucket.budget)
answered-le_budget bucket start qs h w =
    let fewer = answered-le_served (some bucket) qs in
    let limits = served-le_budget bucket start (map Query.now qs) h w in
    (omega (arith, fewer, limits.0), λ filled. omega (arith, fewer, limits.1 filled))
