-- ===== src/RateLimit/TokenBucket.antt =====
-- `TokenBucket` of src/token-bucket.ts. The source keeps fractional tokens; with a whole rate per
-- second and times in milliseconds a thousandth of a token is always whole, so the model counts
-- thousandths: `milli`. The source computes in doubles, whose rounding the model leaves out: there
-- the tokens can be a rounding error beside the whole number that they are here. Every call of `Date.now()` is the argument `now`.
pub mod Steps
pub mod Budget
pub mod Retry
use purge_api_gateway.Base.{
  ℕ, zero, suc, ◌+◌, ◌-◌, ◌*◌, ◌/◌, min, Bool, true, false, leb, if◌then◌else◌, ℤ, pos, negsuc,
}

pub record TokenBucket : Type 0 where
  pub milli : ℕ
  pub last_refill : ℕ
  pub rate : ℕ
  pub bucket_size : ℕ

pub record ConsumeResult : Type 0 where
  pub allowed : Bool
  pub remaining : ℕ
  pub retry_after_sec : ℕ

-- The constructor: the bucket starts full.
unfoldable pub create : ℕ → ℕ → ℕ → TokenBucket
create now rate bucket_size = record {
  milli = bucket_size * 1000;
  last_refill = now;
  rate = rate;
  bucket_size = bucket_size;
}

unfoldable pub refill : ℕ → TokenBucket → TokenBucket
refill now b = if leb now b.last_refill then b else record b {
  milli = min (b.bucket_size * 1000) (b.milli + (now - b.last_refill) * b.rate);
  last_refill = now;
}

-- `Math.ceil(x / 1000 / rate)` of x thousandths, for a positive rate.
unfoldable pub ceil_seconds : ℕ → ℕ → ℕ
ceil_seconds x rate = (x + (1000 * rate - 1)) / (1000 * rate)

-- Zero and negative counts are treated as 1.
abbrev pub effective_count : ℤ → ℕ
effective_count (pos zero) = 1
effective_count (pos (suc n)) = suc n
effective_count (negsuc n) = 1

-- `consume` behind the refill and the guard on `count`.
unfoldable pub take_tokens : ℕ → TokenBucket → TokenBucket × ConsumeResult
take_tokens count b =
    if leb (count * 1000) b.milli
    then (
      record b { milli = b.milli - count * 1000 },
      record { allowed = true; remaining = (b.milli - count * 1000) / 1000; retry_after_sec = 0 },
    )
    else (
      b,
      record {
        allowed = false;
        remaining = 0;
        retry_after_sec = ceil_seconds (count * 1000 - b.milli) b.rate;
      },
    )

unfoldable pub consume : ℕ → ℤ → TokenBucket → TokenBucket × ConsumeResult
consume now count b = take_tokens (effective_count count) (refill now b)

unfoldable pub drain : ℕ → TokenBucket → TokenBucket
drain now b = record b { milli = 0; last_refill = now }

unfoldable pub get_remaining : ℕ → TokenBucket → TokenBucket × ℕ
get_remaining now b = let b' = refill now b in (b', b'.milli / 1000)

unfoldable pub get_seconds_until_refill : ℕ → TokenBucket → TokenBucket × ℕ
get_seconds_until_refill now b =
    let b' = refill now b in
    if leb 1000 b'.milli then (b', 0) else (b', ceil_seconds (1000 - b'.milli) b'.rate)
