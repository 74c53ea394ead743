-- ===== src/RateLimit/TokenBucket/Steps.antt =====
-- What each method of a token bucket does to its state.
use purge_api_gateway.Base.{ℕ, zero, suc, ◌+◌, ◌-◌, ◌*◌, ◌≤◌, ◌<◌, ◌≡◌, ℤ, pos, negsuc, arith}
use purge_api_gateway.RateLimit.TokenBucket.{TokenBucket, refill, effective_count, ceil_seconds}

-- The bucket never holds more than its size.
pub record IsValid (b : TokenBucket) : Type 0 where
  pub within : b.milli ≤ b.bucket_size * 1000

pub effective_count-pos : (count : ℤ) → 1 ≤ effective_count count
effective_count-pos (pos zero) = omega arith
effective_count-pos (pos (suc n)) = omega arith
effective_count-pos (negsuc n) = omega arith

-- A stretch of time splits at a moment inside it.
pub elapsed_add : (a b c r : ℕ) → b ≤ a → c ≤ b → (a - c) * r ≡ (a - b) * r + (b - c) * r
elapsed_add a b c r h k = let e : a - c ≡ (a - b) + (b - c) = omega arith in rw e (omega arith)

pub elapsed_mono : (a b c r : ℕ) → a ≤ b → (a - c) * r ≤ (b - c) * r
elapsed_mono a b c r h = grind arith

-- The least number of seconds in which the rate makes up for x thousandths.
pub ceil_seconds_bounds :
    (x rate : ℕ)
    → 0 < rate
    → (x ≤ ceil_seconds x rate * (1000 * rate))
      × (ceil_seconds x rate * (1000 * rate) < x + 1000 * rate)
unfolding ceil_seconds
ceil_seconds_bounds x rate h = (grind arith, grind arith)

pub refill-IsValid : (now : ℕ) {b : TokenBucket} → IsValid b → IsValid (refill now b)
unfolding refill
refill-IsValid now v = ground arith

pub refill_bounds :
    (now : ℕ) (b : TokenBucket)
    → (b.last_refill ≤ (refill now b).last_refill)
      × ((refill now b).milli ≤ b.milli + ((refill now b).last_refill - b.last_refill) * b.rate)
unfolding refill
refill_bounds now b = ground arith
