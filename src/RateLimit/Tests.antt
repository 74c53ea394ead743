-- ===== src/RateLimit/Tests.antt =====
-- The theorems of the token bucket at concrete buckets and times.
use purge_api_gateway.Base.{◌+◌, ◌-◌, ◌*◌, ◌≤◌, List, [], ◌∷◌, ◌≡◌, refl, true, false, pos, arith}
use purge_api_gateway.RateLimit.TokenBucket.{
  TokenBucket, create, consume, refill, take_tokens, ceil_seconds, drain,
}
use purge_api_gateway.RateLimit.TokenBucket.Steps.{IsValid}
use purge_api_gateway.RateLimit.TokenBucket.Budget.{
  Call, consuming, reading, draining, run, granted, step, InOrder, window_budget,
}
use purge_api_gateway.RateLimit.TokenBucket.Retry.{retry_enough}

abbrev empty_bucket : TokenBucket
empty_bucket = record { milli = 0; last_refill = 5; rate = 2; bucket_size = 10 }

empty_bucket-IsValid : IsValid empty_bucket
empty_bucket-IsValid = record { within = omega arith }

refused_now : (consume 5 (pos 4) empty_bucket).1.allowed ≡ false
unfolding consume take_tokens refill
refused_now = refl

told_two : 5 + (consume 5 (pos 4) empty_bucket).1.retry_after_sec * 1000 ≡ 2005
unfolding consume take_tokens refill ceil_seconds
told_two = refl

retry_enough_example : (consume 2005 (pos 4) (consume 5 (pos 4) empty_bucket).0).1.allowed ≡ true
retry_enough_example =
    retry_enough 5 2005 (pos 4) empty_bucket empty_bucket-IsValid (omega arith) (omega arith)
      (omega arith) refused_now (omega (arith, told_two))

abbrev first_calls : List Call
first_calls = consuming 100 (pos 8) ∷ draining 200 ∷ []

abbrev later_calls : List Call
later_calls = reading 300 ∷ consuming 1200 (pos 2) ∷ []

emptied_at : (run first_calls (create 0 2 10)).last_refill ≡ 200
unfolding run step consume take_tokens refill drain create
emptied_at = refl

in_order : InOrder ((run first_calls (create 0 2 10)).last_refill) 2000 later_calls
in_order = (omega (arith, emptied_at), (omega arith, omega arith))

window_budget_example :
    granted later_calls (run first_calls (create 0 2 10)) * 1000
    ≤ 10 * 1000 + (2000 - (run first_calls (create 0 2 10)).last_refill) * 2
window_budget_example = window_budget 0 2 10 first_calls later_calls 2000 in_order
