-- ===== src/Gatekeeper/Budget.antt =====
-- The tokens of the purges that reach the upstream, in whatever order purges begin and end.
use purge_api_gateway.Base.{
  ℕ, ◌+◌, ◌-◌, ◌*◌, ◌≤◌, ◌==◌, ◌≡◌, ◌∙◌, refl, sym, ap, subst, List, [], ◌∷◌, ◌++◌, ℤ, Option, none,
  some, Bool-cases, inl, inr, arith, if◌then◌else◌,
}
use purge_api_gateway.RateLimit.TokenBucket
use purge_api_gateway.RateLimit.TokenBucket.{TokenBucket, effective_count}
use purge_api_gateway.RateLimit.TokenBucket.Budget.{
  Call, consuming, reading, timing, draining, granted, run, step, InOrder, window_budget,
}
use purge_api_gateway.Gatekeeper.{
  PurgeResult, UpstreamOutcome, failed, answered, start_purge, finish_purge, read_info,
  positive_tokens,
}

-- The halves of `doPurge` for the bucket of one class.
pub data Purging : Type 0 where
  begins : ℕ → ℤ → Purging
  ends : ℕ → UpstreamOutcome → Purging

abbrev pub time_of : Purging → ℕ
time_of (begins now tokens) = now
time_of (ends now outcome) = now

abbrev tokens_sent : ℤ → Option PurgeResult → ℕ
tokens_sent tokens none = effective_count tokens
tokens_sent tokens (some refused) = 0

-- The bucket afterwards, and the tokens with which the upstream is called.
unfoldable pub advance : Purging → TokenBucket → TokenBucket × ℕ
advance (begins now tokens) b =
    let (refused, b') = start_purge now (positive_tokens tokens) b in
    (b', tokens_sent (positive_tokens tokens) refused)
advance (ends now outcome) b = ((finish_purge now outcome b).1, 0)

unfoldable pub sent : List Purging → TokenBucket → ℕ
sent [] b = 0
sent (p ∷ ps) b = let (b', n) = advance p b in n + sent ps b'

unfoldable pub after : List Purging → TokenBucket → TokenBucket
after [] b = b
after (p ∷ ps) b = after ps (advance p b).0

-- The purges are made between two times, and the clock does not run back from one to the next.
abbrev pub AreInOrder : ℕ → ℕ → List Purging → Type 0
AreInOrder from until [] = from ≤ until
AreInOrder from until (p ∷ ps) = (from ≤ time_of p) × AreInOrder (time_of p) until ps

-- What a half does to the bucket, as calls of its methods.
calls_of : Purging → List Call
calls_of (begins now tokens) = consuming now (positive_tokens tokens) ∷ []
calls_of (ends now failed) = reading now ∷ timing now ∷ []
calls_of (ends now (answered status retry_after)) =
    if status == 429 then draining now ∷ [] else reading now ∷ timing now ∷ []

calls_lem :
    (p : Purging) (b : TokenBucket)
    → (run (calls_of p) b ≡ (advance p b).0) × (granted (calls_of p) b ≡ (advance p b).1)
unfolding calls_of advance start_purge finish_purge read_info run granted step
calls_lem (begins now tokens) b = (refl, ground arith)
calls_lem (ends now failed) b = (refl, refl)
calls_lem (ends now (answered status retry_after)) b = elim (Bool-cases (status == 429)) [
  | inl limited ↦ rw (limited) (refl, refl)
  | inr other ↦ rw (other) (refl, refl)
]

all_calls : List Purging → List Call
all_calls [] = []
all_calls (p ∷ ps) = calls_of p ++ all_calls ps

run-append : (xs ys : List Call) (b : TokenBucket) → run (xs ++ ys) b ≡ run ys (run xs b)
unfolding run
run-append [] ys b = refl
run-append (x ∷ xs) ys b = run-append xs ys (step x b).0

granted-append :
    (xs ys : List Call) (b : TokenBucket)
    → granted (xs ++ ys) b ≡ granted xs b + granted ys (run xs b)
unfolding granted run
granted-append [] ys b = omega arith
granted-append (x ∷ xs) ys b = omega (arith, granted-append xs ys (step x b).0)

all_calls_lem :
    (ps : List Purging) (b : TokenBucket)
    → (run (all_calls ps) b ≡ after ps b) × (granted (all_calls ps) b ≡ sent ps b)
unfolding all_calls after sent run granted
all_calls_lem [] b = (refl, refl)
all_calls_lem (p ∷ ps) b =
    let (ran, gave) = calls_lem p b in
    let (rest, rest_gave) = all_calls_lem ps (advance p b).0 in
    (
      run-append (calls_of p) (all_calls ps) b ∙ (ap (run (all_calls ps)) ran ∙ rest),
      granted-append (calls_of p) (all_calls ps) b
          ∙ (ap (λ n. n + granted (all_calls ps) (run (calls_of p) b)) gave
              ∙ ap (λ n. (advance p b).1 + n) (ap (granted (all_calls ps)) ran ∙ rest_gave)),
    )

all_calls-InOrder :
    (from until : ℕ) (ps : List Purging)
    → AreInOrder from until ps
    → InOrder from until (all_calls ps)
unfolding all_calls calls_of
all_calls-InOrder from until [] h = h
all_calls-InOrder from until (begins now tokens ∷ ps) (h, hs) =
    (h, all_calls-InOrder now until ps hs)
all_calls-InOrder from until (ends now failed ∷ ps) (h, hs) =
    (h, (omega arith, all_calls-InOrder now until ps hs))
all_calls-InOrder from until (ends now (answered status retry_after) ∷ ps) (h, hs) =
    elim (Bool-cases (status == 429)) [
      | inl limited ↦ rw (limited) (h, all_calls-InOrder now until ps hs)
      | inr other ↦ rw (other) (h, (omega arith, all_calls-InOrder now until ps hs))
    ]

-- Purges of one class begin and end in any order on a new bucket of the account. In any later
-- stretch of them, with a clock that does not run back, the tokens of the purges that call the
-- upstream are at most the size of the bucket and what its rate earns from the last refill before
-- the stretch on.
pub upstream_budget :
    (start rate size : ℕ) (before purges : List Purging) (until : ℕ)
    → AreInOrder ((after before (TokenBucket.create start rate size)).last_refill) until purges
    → sent purges (after before (TokenBucket.create start rate size)) * 1000
      ≤ size * 1000
        + (until - (after before (TokenBucket.create start rate size)).last_refill) * rate
upstream_budget start rate size before purges until h =
    let b : TokenBucket = after before (TokenBucket.create start rate size) in
    let same = (all_calls_lem before (TokenBucket.create start rate size)).0 in
    let gave = (all_calls_lem purges b).1 in
    subst (λ n. n * 1000 ≤ size * 1000 + (until - b.last_refill) * rate) gave
      (subst
        (λ (c : TokenBucket).
          granted (all_calls purges) c * 1000 ≤ size * 1000 + (until - c.last_refill) * rate)
        same
        (window_budget start rate size (all_calls before) (all_calls purges) until (
          subst (λ (c : TokenBucket). InOrder c.last_refill until (all_calls purges)) (sym same)
            (all_calls-InOrder b.last_refill until purges h))))
