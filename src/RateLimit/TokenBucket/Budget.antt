-- ===== src/RateLimit/TokenBucket/Budget.antt =====
-- How many tokens a bucket grants over a stretch of time, whatever the calls.
use purge_api_gateway.Base.{
  ℕ, ◌+◌, ◌-◌, ◌*◌, ◌≤◌, ◌≡◌, ◌∙◌, refl, subst, List, [], ◌∷◌, ℤ, Bool, true, false, arith,
}
use purge_api_gateway.RateLimit.TokenBucket.{
  TokenBucket, create, refill, take_tokens, consume, drain, get_remaining, get_seconds_until_refill,
  effective_count,
}
use purge_api_gateway.RateLimit.TokenBucket.Steps.{IsValid, elapsed_add}

-- The calls of a bucket's methods, each with the time at which it is made.
pub data Call : Type 0 where
  consuming : ℕ → ℤ → Call
  reading timing draining : ℕ → Call

abbrev pub time : Call → ℕ
time (consuming now count) = now
time (reading now) = now
time (timing now) = now
time (draining now) = now

-- The tokens that an answer grants.
abbrev granted_by : ℕ → Bool → ℕ
granted_by count true = count
granted_by count false = 0

unfoldable pub step : Call → TokenBucket → TokenBucket × ℕ
step (consuming now count) b =
    let (b', answer) = consume now count b in
    (b', granted_by (effective_count count) answer.allowed)
step (reading now) b = ((get_remaining now b).0, 0)
step (timing now) b = ((get_seconds_until_refill now b).0, 0)
step (draining now) b = (drain now b, 0)

-- The tokens granted by a sequence of calls.
unfoldable pub granted : List Call → TokenBucket → ℕ
granted [] b = 0
granted (call ∷ calls) b = let (b', n) = step call b in n + granted calls b'

-- The calls are made between two times, and the clock does not run back from one to the next.
abbrev pub InOrder : ℕ → ℕ → List Call → Type 0
InOrder from until [] = from ≤ until
InOrder from until (call ∷ calls) = (from ≤ time call) × InOrder (time call) until calls

pub InOrder-le : (from until : ℕ) (calls : List Call) → InOrder from until calls → from ≤ until
InOrder-le from until [] h = h
InOrder-le from until (call ∷ calls) (h, hs) = omega (arith, InOrder-le (time call) until calls hs)

step_bounds :
    (call : Call) (b : TokenBucket)
    → b.last_refill ≤ time call
    → ((step call b).0.last_refill ≡ time call)
      × ((step call b).0.rate ≡ b.rate)
      × ((step call b).1 * 1000 + (step call b).0.milli
          ≤ b.milli + (time call - b.last_refill) * b.rate)
unfolding step consume take_tokens refill drain get_remaining get_seconds_until_refill
step_bounds (consuming now count) b h = ground arith
step_bounds (reading now) b h = ground arith
step_bounds (timing now) b h = ground arith
step_bounds (draining now) b h = ground arith

granted-le :
    (calls : List Call) (b : TokenBucket) (until : ℕ)
    → InOrder b.last_refill until calls
    → granted calls b * 1000 ≤ b.milli + (until - b.last_refill) * b.rate
unfolding granted
granted-le [] b until h = omega arith
granted-le (call ∷ calls) b until (h, hs) =
    let (timed, same, spent) = step_bounds call b h in
    let later = granted-le calls (step call b).0 until (rw timed hs) in
    omega (
      arith,
      rw (timed, same) at later,
      elapsed_add until (time call) b.last_refill b.rate (InOrder-le (time call) until calls hs) h,
    )

-- Over any sequence of calls on a bucket that holds at most its size, with a clock that does not
-- run back, the tokens granted until a time are at most the size of the bucket and what its rate
-- earns from the last refill to that time.
granted_budget :
    (calls : List Call) (b : TokenBucket) (until : ℕ)
    → IsValid b
    → InOrder b.last_refill until calls
    → granted calls b * 1000 ≤ b.bucket_size * 1000 + (until - b.last_refill) * b.rate
granted_budget calls b until v h = omega (arith, granted-le calls b until h)

-- The bucket after a sequence of calls.
unfoldable pub run : List Call → TokenBucket → TokenBucket
run [] b = b
run (call ∷ calls) b = run calls (step call b).0

step_keeps :
    (call : Call) (b : TokenBucket)
    → IsValid b
    → IsValid (step call b).0
      × ((step call b).0.rate ≡ b.rate)
      × ((step call b).0.bucket_size ≡ b.bucket_size)
unfolding step consume take_tokens refill drain get_remaining get_seconds_until_refill
step_keeps (consuming now count) b v =
    (record { within = ground arith }, ground arith, ground arith)
step_keeps (reading now) b v = (record { within = ground arith }, ground arith, ground arith)
step_keeps (timing now) b v = (record { within = ground arith }, ground arith, ground arith)
step_keeps (draining now) b v = (record { within = ground arith }, ground arith, ground arith)

run_keeps :
    (calls : List Call) (b : TokenBucket)
    → IsValid b
    → IsValid (run calls b)
      × ((run calls b).rate ≡ b.rate)
      × ((run calls b).bucket_size ≡ b.bucket_size)
unfolding run
run_keeps [] b v = (v, refl, refl)
run_keeps (call ∷ calls) b v =
    let (v', r, s) = step_keeps call b v in
    let (v'', r', s') = run_keeps calls (step call b).0 v' in (v'', r' ∙ r, s' ∙ s)

create_keeps :
    (start rate size : ℕ)
    → IsValid (create start rate size)
      × ((create start rate size).rate ≡ rate)
      × ((create start rate size).bucket_size ≡ size)
unfolding create
create_keeps start rate size = (record { within = omega arith }, refl, refl)

-- A new bucket is used by any calls, with the clock running in any way. In any later stretch of
-- calls, with a clock that does not run back, the tokens granted until a time are at most the size
-- of the bucket and what the rate earns from the stretch's first refill on; no earlier idle time
-- counts.
pub window_budget :
    (start rate size : ℕ) (before calls : List Call) (until : ℕ)
    → InOrder ((run before (create start rate size)).last_refill) until calls
    → granted calls (run before (create start rate size)) * 1000
      ≤ size * 1000 + (until - (run before (create start rate size)).last_refill) * rate
window_budget start rate size before calls until h =
    let (u, q, z) = create_keeps start rate size in
    let (v, r, s) = run_keeps before (create start rate size) u in
    let b : TokenBucket = run before (create start rate size) in
    subst (λ x. granted calls b * 1000 ≤ size * 1000 + (until - b.last_refill) * x) (r ∙ q)
      (subst (λ x. granted calls b * 1000 ≤ x * 1000 + (until - b.last_refill) * b.rate) (s ∙ z)
        (granted_budget calls b until v h))
