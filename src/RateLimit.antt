-- ===== src/RateLimit.antt =====
-- waku/common/tokenbucket.nim and waku/common/ratelimit.nim: the limit on the requests that a
-- service protocol answers. A `Moment` and a `Duration` are nanoseconds; their difference may be
-- negative. The clock is an argument. Budgets are far below 2^63, so sums of `int` do not overflow.
pub mod Consume
pub mod Window
pub mod Replenish
mod Tests
use nwaku.Base.{
  ℕ, suc, ◌+◌, ◌-◌, ◌*◌, ◌/◌, min, ltb, leb, ◌==◌, if◌then◌else◌, Bool, true, false, ◌||◌, Option,
  none, some, List, [], ◌∷◌,
}
use nwaku.Base.Int.{ℤ, pos, negsuc, neg, sub_ℕ, ltb_ℤ}

pub record TokenBucket : Type 0 where
  pub budget : ℕ
  pub budget_cap : ℕ
  pub last_time_full : ℕ
  pub fill_duration : ℕ

-- `milliseconds` of a duration drops the fraction, towards zero.
abbrev pub milliseconds : ℤ → ℤ
milliseconds (pos n) = pos (n / 1000000)
milliseconds (negsuc n) = neg (suc n / 1000000)

unfoldable pub too_early : TokenBucket → ℕ → Bool
too_early bucket current_time =
    ltb_ℤ (milliseconds (sub_ℕ current_time bucket.last_time_full))
      (milliseconds (pos bucket.fill_duration))

unfoldable pub update : TokenBucket → ℕ → TokenBucket
unfolding too_early
update bucket current_time =
    if bucket.fill_duration == 0
    then record bucket { budget = min bucket.budget_cap bucket.budget }
    else (if too_early bucket current_time
        then bucket
        else record bucket { budget = bucket.budget_cap; last_time_full = current_time })

-- The part of `tryConsume` that is written twice: `tokens` are taken if they are there.
unfoldable pub take_tokens : TokenBucket → ℕ → TokenBucket × Bool → TokenBucket × Bool
take_tokens bucket tokens otherwise =
    if leb tokens bucket.budget
    then (record bucket { budget = bucket.budget - tokens }, true)
    else otherwise

-- `if bucket.budget == bucket.budgetCap: bucket.lastTimeFull = now`
unfoldable pub mark_full : TokenBucket → ℕ → TokenBucket
mark_full bucket now =
    if bucket.budget == bucket.budget_cap then record bucket { last_time_full = now } else bucket

unfoldable pub try_consume : TokenBucket → ℕ → ℕ → TokenBucket × Bool
unfolding take_tokens mark_full update
try_consume bucket tokens now =
    let marked = mark_full bucket now in
    let updated = update marked now in
    take_tokens marked tokens (take_tokens updated tokens (updated, false))

unfoldable pub replenish : TokenBucket → ℕ → ℕ → TokenBucket
unfolding update
replenish bucket tokens now = update (record bucket { budget = bucket.budget + tokens }) now

unfoldable pub new : ℕ → ℕ → ℕ → TokenBucket
new budget_cap fill_duration now = record {
  budget = budget_cap;
  budget_cap = budget_cap;
  last_time_full = now;
  fill_duration = fill_duration;
}

-- ratelimit.nim: a setting is a volume and a period. Without a bucket every request is served.
unfoldable pub new_token_bucket : Option (ℕ × ℕ) → ℕ → Option TokenBucket
unfolding new
new_token_bucket none now = none
new_token_bucket (some (volume, period)) now =
    if (volume == 0) || (period == 0) then none else some (new volume period now)

unfoldable pub check_usage : Option TokenBucket → ℕ → Option TokenBucket × Bool
unfolding try_consume
check_usage none now = (none, true)
check_usage (some bucket) now =
    let (after, served) = try_consume bucket 1 now in (some after, served)

-- The requests that are served of a sequence of arrival times.
unfoldable pub served : Option TokenBucket → List ℕ → ℕ
unfolding check_usage
served limit [] = 0
served limit (now ∷ times) =
    let (after, ok) = check_usage limit now in (if ok then 1 else 0) + served after times
