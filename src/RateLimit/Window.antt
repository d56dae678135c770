-- ===== src/RateLimit/Window.antt =====
-- waku/common/tokenbucket.nim, waku/common/ratelimit.nim: how many requests are served in a period.
use nwaku.Base.{
  ℕ, ◌+◌, ◌*◌, ◌/◌, ◌≤◌, ◌<◌, ◌≡◌, ◌⊎◌, inl, inr, refl, arith, some, List, [], ◌∷◌, All,
}
use nwaku.RateLimit.{
  TokenBucket, too_early, update, take_tokens, mark_full, try_consume, check_usage, served,
}
use nwaku.RateLimit.Consume.{WithinCap, granted, try_consume-WithinCap}

-- The fill period in whole milliseconds, which is what the code compares.
abbrev pub period : TokenBucket → ℕ
period bucket = bucket.fill_duration / 1000000 * 1000000

-- A time in the window of `length` nanoseconds from `start` on.
abbrev pub Within : ℕ → ℕ → ℕ → Type 0
Within start length now = (start ≤ now) × (now < start + length)

try_consume_fields :
    (bucket : TokenBucket) (tokens now : ℕ)
    → let after = (try_consume bucket tokens now).0 in
      (after.fill_duration ≡ bucket.fill_duration) × (after.budget_cap ≡ bucket.budget_cap)
unfolding try_consume take_tokens mark_full update too_early
try_consume_fields bucket tokens now = ground arith

-- In the window that the last fill opens or that lies behind it, there is no further fill.
try_consume_filled :
    (bucket : TokenBucket) (tokens start now : ℕ)
    → start ≤ bucket.last_time_full
    → Within start (period bucket) now
    → let (after, ok) = try_consume bucket tokens now in
      (start ≤ after.last_time_full) × (granted tokens ok + after.budget ≤ bucket.budget)
unfolding try_consume take_tokens mark_full update too_early
try_consume_filled bucket tokens start now h w = ground arith

-- Otherwise a call keeps to its budget, or there is a fill.
try_consume_unfilled :
    (bucket : TokenBucket) (tokens start now : ℕ)
    → WithinCap bucket
    → Within start (period bucket) now
    → let (after, ok) = try_consume bucket tokens now in
      (granted tokens ok + after.budget ≤ bucket.budget)
      ⊎ ((start ≤ after.last_time_full) × (granted tokens ok + after.budget ≤ bucket.budget_cap))
unfolding try_consume take_tokens mark_full update too_early
try_consume_unfilled bucket tokens start now h w = ground arith

served_filled :
    (bucket : TokenBucket) (start length : ℕ) (times : List ℕ)
    → start ≤ bucket.last_time_full
    → length ≡ period bucket
    → All (Within start length) times
    → served (some bucket) times ≤ bucket.budget
unfolding served check_usage
served_filled bucket start length [] h e w = omega arith
served_filled bucket start length (now ∷ times) h e w =
    let step = try_consume_filled bucket 1 start now h (w.0.0, omega (arith, w.0.1)) in
    let fields = try_consume_fields bucket 1 now in
    let rest =
      served_filled (try_consume bucket 1 now).0 start length times step.0 (omega (arith, fields.0))
        w.1 in
    omega (arith, step.1, rest)

served_any :
    (bucket : TokenBucket) (start length : ℕ) (times : List ℕ)
    → WithinCap bucket
    → length ≡ period bucket
    → All (Within start length) times
    → served (some bucket) times ≤ bucket.budget + bucket.budget_cap
unfolding served check_usage
served_any bucket start length [] h e w = omega arith
served_any bucket start length (now ∷ times) h e w =
    let fields = try_consume_fields bucket 1 now in
    let same : length ≡ period (try_consume bucket 1 now).0 = omega (arith, fields.0) in
    elim (try_consume_unfilled bucket 1 start now h (w.0.0, omega (arith, w.0.1))) [
      | inl kept ↦
          let rest =
            served_any (try_consume bucket 1 now).0 start length times
              (try_consume-WithinCap bucket 1 now h) same w.1 in
          omega (arith, kept, rest, fields.1)
      | inr (filled, kept) ↦
          let rest =
            served_filled (try_consume bucket 1 now).0 start length times filled same w.1 in
          omega (arith, kept, rest)
    ]

-- From a bucket that is not above its capacity: of requests that all arrive within one fill period,
-- in any order, no more are served than the budget and the capacity together; and no more than the
-- budget, if the last fill is not before the window.
pub served-le_budget :
    (bucket : TokenBucket) (start : ℕ) (times : List ℕ)
    → WithinCap bucket
    → All (Within start (period bucket)) times
    → (served (some bucket) times ≤ bucket.budget + bucket.budget_cap)
      × (start ≤ bucket.last_time_full → served (some bucket) times ≤ bucket.budget)
served-le_budget bucket start times h w = (
  served_any bucket start (period bucket) times h refl w,
  λ filled. served_filled bucket start (period bucket) times filled refl w,
)
