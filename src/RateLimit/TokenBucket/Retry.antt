-- ===== src/RateLimit/TokenBucket/Retry.antt =====
-- What `consume` promises by the retry time of a refusal.
use purge_api_gateway.Base.{ℕ, ◌+◌, ◌-◌, ◌*◌, ◌≤◌, ◌<◌, ◌≡◌, ℤ, true, false, arith, min, ap, ◌∙◌}
use purge_api_gateway.RateLimit.TokenBucket.{
  TokenBucket, refill, take_tokens, consume, effective_count, ceil_seconds,
}
use purge_api_gateway.RateLimit.TokenBucket.Steps.{IsValid, ceil_seconds_bounds, refill-IsValid}

-- A refusal leaves the refilled bucket, with too few tokens.
refused :
    (now : ℕ) (count : ℤ) (b : TokenBucket)
    → (consume now count b).1.allowed ≡ false
    → ((consume now count b).0 ≡ refill now b)
      × ((refill now b).milli < effective_count count * 1000)
      × ((consume now count b).1.retry_after_sec
          ≡ ceil_seconds (effective_count count * 1000 - (refill now b).milli) (refill now b).rate)
unfolding consume take_tokens
refused now count b h = ground arith

consume-allowed :
    (now : ℕ) (count : ℤ) (b : TokenBucket)
    → effective_count count * 1000 ≤ (refill now b).milli
    → (consume now count b).1.allowed ≡ true
unfolding consume take_tokens
consume-allowed now count b h = ground arith

refill_fields :
    (now : ℕ) (b : TokenBucket)
    → b.last_refill ≤ now
    → ((refill now b).last_refill ≡ now)
      × ((refill now b).rate ≡ b.rate)
      × ((refill now b).bucket_size ≡ b.bucket_size)
unfolding refill
refill_fields now b h = ground arith

-- A refill with the clock not running back, written out.
refill-milli :
    (now : ℕ) (b : TokenBucket)
    → b.last_refill ≤ now
    → b.milli ≤ b.bucket_size * 1000
    → (refill now b).milli ≡ min (b.bucket_size * 1000) (b.milli + (now - b.last_refill) * b.rate)
unfolding refill
refill-milli now b h v = ground arith

mul_mono : (a b r : ℕ) → a ≤ b → a * r ≤ b * r
mul_mono a b r h = grind arith

module _ (x rate r : ℕ) (least : r ≡ ceil_seconds x rate) (positive : 0 < rate) where
  -- Waiting r seconds earns x thousandths.
  earned_after : (wait : ℕ) → r * 1000 ≤ wait → x ≤ wait * rate
  earned_after wait h =
      let (enough, _) = ceil_seconds_bounds x rate positive in
      omega (arith, rw (← least) at enough, mul_mono (r * 1000) wait rate h)

module _ (now later : ℕ) (count : ℤ) (b : TokenBucket) where
  -- From a bucket that holds at most its size, has a positive rate and was last refilled no later
  -- than now, a request for at most as many tokens as the bucket has room for, that is refused now,
  -- is granted at every time that is at least the seconds of the refusal later, if nothing else is
  -- called on the bucket in between.
  pub retry_enough :
      IsValid b
      → b.last_refill ≤ now
      → 0 < b.rate
      → effective_count count ≤ b.bucket_size
      → (consume now count b).1.allowed ≡ false
      → now + (consume now count b).1.retry_after_sec * 1000 ≤ later
      → (consume later count (consume now count b).0).1.allowed ≡ true
  retry_enough v order positive fits no_tokens wait =
      let (state, few, secs) = refused now count b no_tokens in
      let (last, rate, size) = refill_fields now b order in
      let within = (refill-IsValid now v).within in
      rw state (
        consume-allowed later count (refill now b) (
          rw (refill-milli later (refill now b) (rw last (omega arith)) within, last, rate, size)
            (omega (
              arith,
              earned_after (effective_count count * 1000 - (refill now b).milli) b.rate
                  (consume now count b).1.retry_after_sec (secs ∙ ap (ceil_seconds _) rate) positive
                  (later - now) (omega arith),
            ))))
