-- ===== src/RateLimit/Tests.antt =====
-- Concrete runs of the rate limit, and its theorems at concrete inputs.
use nwaku.Base.{ℕ, ◌≡◌, refl, arith, true, some, List, [], ◌∷◌}
use nwaku.RateLimit.{
  TokenBucket, new, try_consume, served, take_tokens, mark_full, update, too_early, check_usage,
  new_token_bucket,
}
use nwaku.RateLimit.Consume.{try_consume_after_period}

-- Three requests a second.
abbrev bucket : TokenBucket
bucket = record {
  budget = 3;
  budget_cap = 3;
  last_time_full = 5000000000;
  fill_duration = 1000000000;
}

abbrev times : List ℕ
times = 5100000000 ∷ 5200000000 ∷ 5300000000 ∷ 5400000000 ∷ []

served_three : served (some bucket) times ≡ 3
unfolding served check_usage try_consume take_tokens mark_full update too_early
served_three = refl

served_new : served (new_token_bucket (some (3, 1000000000)) 5000000000) times ≡ 3
unfolding new_token_bucket new served check_usage try_consume take_tokens mark_full update too_early
served_new = refl

try_consume_after_period_example : (try_consume bucket 2 6000000000).1 ≡ true
try_consume_after_period_example =
    try_consume_after_period bucket 2 6000000000 (λ e. absurd (omega arith)) (omega arith)
      (omega arith)
