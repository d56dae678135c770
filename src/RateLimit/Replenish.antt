-- ===== src/RateLimit/Replenish.antt =====
-- waku/common/tokenbucket.nim: what `replenish` does to the budget. Its comment says that the
-- budget is capped to the capacity.
use nwaku.Base.{ℕ, ◌+◌, ◌*◌, ◌/◌, ◌≤◌, ◌<◌, ◌≡◌, ◌≢◌, arith, min}
use nwaku.RateLimit.{TokenBucket, too_early, update, replenish}

-- If the bucket has no fill period, `replenish` caps the budget. If the period is over, it fills the
-- bucket. Before that the budget is the sum, without a cap: it is above the capacity if the sum is.
pub replenish_budget :
    (bucket : TokenBucket) (tokens now : ℕ)
    → let after = (replenish bucket tokens now).budget in
      (bucket.fill_duration ≡ 0 → after ≡ min bucket.budget_cap (bucket.budget + tokens))
      × (bucket.fill_duration ≢ 0
          → bucket.last_time_full + bucket.fill_duration ≤ now
          → after ≡ bucket.budget_cap)
      × (bucket.last_time_full ≤ now
          → now < bucket.last_time_full + bucket.fill_duration / 1000000 * 1000000
          → after ≡ bucket.budget + tokens)
unfolding replenish update too_early
replenish_budget bucket tokens now = ground arith
