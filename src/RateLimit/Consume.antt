-- ===== src/RateLimit/Consume.antt =====
-- waku/common/tokenbucket.nim: what a call of `tryConsume` does to the budget.
use nwaku.Base.{ℕ, ◌+◌, ◌≤◌, ◌≡◌, ◌≢◌, arith, Bool, true, if◌then◌else◌}
use nwaku.RateLimit.{TokenBucket, too_early, update, take_tokens, mark_full, try_consume}

-- The budget is not above the capacity.
abbrev pub WithinCap : TokenBucket → Type 0
WithinCap bucket = bucket.budget ≤ bucket.budget_cap

-- The tokens that a call has handed out.
abbrev pub granted : ℕ → Bool → ℕ
granted tokens ok = if ok then tokens else 0

-- After the fill period, `try_consume` grants any request up to the capacity.
pub try_consume_after_period :
    (bucket : TokenBucket) (tokens now : ℕ)
    → bucket.fill_duration ≢ 0
    → bucket.last_time_full + bucket.fill_duration ≤ now
    → tokens ≤ bucket.budget_cap
    → (try_consume bucket tokens now).1 ≡ true
unfolding try_consume take_tokens mark_full update too_early
try_consume_after_period bucket tokens now h p k = ground arith

pub try_consume-WithinCap :
    (bucket : TokenBucket) (tokens now : ℕ)
    → WithinCap bucket
    → WithinCap (try_consume bucket tokens now).0
unfolding try_consume take_tokens mark_full update too_early
try_consume-WithinCap bucket tokens now h = ground arith
