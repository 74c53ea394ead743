-- ===== src/Collapse/Sharing.antt =====
-- A follower gets the result of a leader of its own request, in time; and while no flight fails,
-- requests of one key wait for one flight.
use purge_api_gateway.Base.{
  List, [], ◌∷◌, Bool, true, false, ℕ, ◌+◌, ◌≤◌, ◌<◌, ◌==◌, ◌≡◌, inl, inr, sym, ap, ◌∙◌, subst,
  none, some, Str, lookup, All, Any, Bool-cases, Option-cases, arith,
}
use mathlib.Core.Option.{some-injective, none-ne-some}
use purge_api_gateway.Collapse.{Flight, Collapser, is_stale, lead, forget, arrive, resume, expire}
use purge_api_gateway.Collapse.Run.{
  Waiter, empty_collapser, queue, Run, start, arriving, settling, failing, expiring, resuming,
  Shares, IsKeyed, lead-IsKeyed, forget-IsKeyed, settle-IsKeyed, Extends, Extends-refl,
  lead-Extends, forget-Extends, settle-Extends, Extends-All,
}
use purge_api_gateway.Collapse.Log.{
  Log, empty_log, Logged, settle-Logged, arrive-Logged, expire-Logged, resume-Logged, outcome-log,
  Agrees-some,
}
use purge_api_gateway.Collapse.Calm.{
  IsCalm, arrive-IsCalm, settle-IsCalm, expire-IsCalm, resume-IsCalm,
}

module _ {V : Type 0} (nothing : Flight V) (grace : ℕ) where
  -- What holds in every state.
  abbrev CalmIf : Bool → Collapser V → Type 0
  CalmIf true c = IsCalm c
  CalmIf false c = Unit

  record Sound (calm : Bool) (t : ℕ) (log : Log V) (ws : List Waiter) (c : Collapser V)
      : Type 0 where
    logged : Logged log c
    keyed : IsKeyed nothing grace c
    shares : All (Shares nothing grace t c) ws
    calmness : CalmIf calm c

  calm_step :
      (calm : Bool) (c c' : Collapser V) → (IsCalm c → IsCalm c') → CalmIf calm c → CalmIf calm c'
  calm_step true c c' f h = f h
  calm_step false c c' f h = tt

  arrive-Kept :
      (now : ℕ) (key : Str) (c : Collapser V)
      → IsKeyed nothing grace c
      → IsKeyed nothing grace (arrive grace now key c).1
        × Extends nothing grace now c (arrive grace now key c).1
  unfolding arrive forget Extends
  arrive-Kept now key c h = elim (Option-cases (lookup key c.inflight)) [
    | inl missing ↦
        rw (missing, arrive)
          (lead-IsKeyed nothing grace key c h, lead-Extends nothing grace now key c)
    | inr (n, found) ↦ elim (Bool-cases (is_stale grace now (c.flight n))) [
      | inl stale ↦
          rw (found, arrive, stale)
            (
              lead-IsKeyed nothing grace key (forget key c) (forget-IsKeyed nothing grace key c h),
              lead-Extends nothing grace now key (forget key c),
            )
      | inr fresh ↦ rw (found, arrive, fresh) (h, Extends-refl nothing grace now c)
    ]
  ]

  -- One who follows on arrival is in time.
  arrive-Shares :
      (t now : ℕ) (key : Str) (ws : List Waiter) (c : Collapser V)
      → t ≤ now
      → IsKeyed nothing grace c
      → All (Shares nothing grace t c) ws
      → All
          (Shares nothing grace now (arrive grace now key c).1)
          (queue (arrive grace now key c).0 now key ws)
  unfolding arrive lead is_stale
  arrive-Shares t now key ws c le h shares =
      let (_, grows) = arrive-Kept now key c h in
      let kept = Extends-All nothing grace t now c (arrive grace now key c).1 ws le grows shares in
      elim (Option-cases (lookup key c.inflight)) [
        | inl missing ↦ rw (missing, arrive) (rw (missing, arrive) at kept)
        | inr (n, found) ↦ elim (Bool-cases (is_stale grace now (c.flight n))) [
          | inl stale ↦ rw (found, arrive, stale) (rw (found, arrive, stale) at kept)
          | inr fresh ↦
              let (less, keyed) = h key n found in
              rw (found, arrive, fresh)
                (
                  (
                    less,
                    keyed,
                    omega arith,
                    λ s settled. ground (arith, rw (settled, is_stale) at fresh),
                  ),
                  rw (found, arrive, fresh) at kept,
                )
        ]
      ]

  expire-Kept :
      (now n : ℕ) (c : Collapser V)
      → IsKeyed nothing grace c
      → IsKeyed nothing grace (expire n c) × Extends nothing grace now c (expire n c)
  unfolding expire
  expire-Kept now n c h = elim (Option-cases (lookup (c.flight n).key c.inflight)) [
    | inl missing ↦ rw (missing, expire) (h, Extends-refl nothing grace now c)
    | inr (m, found) ↦ elim (Bool-cases (m == n)) [
      | inl same ↦
          rw (found, expire, same)
            (forget-IsKeyed nothing grace _ c h, forget-Extends nothing grace now _ c)
      | inr other ↦ rw (found, expire, other) (h, Extends-refl nothing grace now c)
    ]
  ]

  resume-Kept :
      (now : ℕ) (key : Str) (n : ℕ) (c : Collapser V)
      → IsKeyed nothing grace c
      → IsKeyed nothing grace (resume key n c).1 × Extends nothing grace now c (resume key n c).1
  unfolding resume forget Extends
  resume-Kept now key n c h = elim (Option-cases (c.flight n).outcome) [
    | inl pending ↦ rw (pending, resume) (h, Extends-refl nothing grace now c)
    | inr (result, settled) ↦ elim (Option-cases result) [
      | inl failed ↦
          rw (settled ∙ ap some failed, resume)
            (
              lead-IsKeyed nothing grace key (forget key c) (forget-IsKeyed nothing grace key c h),
              lead-Extends nothing grace now key (forget key c),
            )
      | inr (value, ok) ↦ rw (settled ∙ ap some ok, resume) (h, Extends-refl nothing grace now c)
    ]
  ]

  start-IsCalm : IsCalm (empty_collapser nothing)
  start-IsCalm = record {
    unfailed = λ n less. absurd (omega (arith, less));
    on_map = λ n less. absurd (omega (arith, less));
  }

  start-IsKeyed : IsKeyed nothing grace (empty_collapser nothing)
  unfolding lookup
  start-IsKeyed key n e = absurd (none-ne-some _ e)

  start-Logged : Logged empty_log (empty_collapser nothing)
  start-Logged = (λ n less. absurd (omega (arith, less)), λ n over i. none)

  moved :
      (calm : Bool) (t now : ℕ) (log log' : Log V) (ws : List Waiter) (c c' : Collapser V)
      → t ≤ now
      → IsKeyed nothing grace c'
      → Extends nothing grace now c c'
      → CalmIf calm c'
      → Logged log' c'
      → Sound calm t log ws c
      → Sound calm now log' ws c'
  moved calm t now log log' ws c c' le keyed grows calmness logged h = record {
    logged = logged;
    keyed = keyed;
    shares = Extends-All nothing grace t now c c' ws le grows h.shares;
    calmness = calmness;
  }

  Run-Sound :
      {calm : Bool} {t : ℕ} {log : Log V} {ws : List Waiter} {c : Collapser V}
      → Run nothing grace calm t log ws c
      → Sound calm t log ws c
  Run-Sound start = record {
    logged = start-Logged;
    keyed = start-IsKeyed;
    shares = tt;
    calmness = start-IsCalm;
  }
  Run-Sound (arriving {calm} {t} {log} {ws} {c} run now key le) =
      let h = Run-Sound run in
      record {
        logged = arrive-Logged grace now key log c h.logged;
        keyed = (arrive-Kept now key c h.keyed).0;
        shares = arrive-Shares t now key ws c le h.keyed h.shares;
        calmness = calm_step calm c _ (arrive-IsCalm grace now key c) h.calmness;
      }
  Run-Sound (settling {calm} {t} {log} {ws} {c} run now n value le less pending) =
      let h = Run-Sound run in
      moved calm t now log _ ws c _ le (settle-IsKeyed nothing grace now n (some value) c h.keyed)
        (settle-Extends nothing grace now n (some value) c)
        (calm_step calm c _ (settle-IsCalm now n value c) h.calmness)
        (settle-Logged now n (some value) log c less h.logged) h
  Run-Sound (failing {calm} {t} {log} {ws} {c} run now n le less pending) =
      let h = Run-Sound run in
      record {
        logged = settle-Logged now n none log c less h.logged;
        keyed = settle-IsKeyed nothing grace now n none c h.keyed;
        shares =
            Extends-All nothing grace t now c _ ws le (settle-Extends nothing grace now n none c)
              h.shares;
        calmness = tt;
      }
  Run-Sound (expiring {calm} {t} {log} {ws} {c} run now n s result le less entry) =
      let h = Run-Sound run in
      let (keyed, grows) = expire-Kept now n c h.keyed in
      let settled = Agrees-some (c.flight n) (log n) s result (h.logged.0 n less) entry in
      moved calm t now log log ws c _ le keyed grows
        (calm_step calm c _ (expire-IsCalm n s c settled) h.calmness)
        (expire-Logged n log c h.logged) h
  Run-Sound (resuming {calm} {t} {log} {ws} {c} run key n less) =
      let h = Run-Sound run in
      let (keyed, grows) = resume-Kept t key n c h.keyed in
      moved calm t t log log ws c _ (omega arith) keyed grows
        (calm_step calm c _ (resume-IsCalm key n c less) h.calmness)
        (resume-Logged key n log c h.logged) h

  All-Has :
      (P : Waiter → Type 0) (ws : List Waiter) (w : Waiter) → All P ws → Any (λ v. v ≡ w) ws → P w
  All-Has P [] w h here = absurd here
  All-Has P (v ∷ ws) w (h, hs) here = elim here [
    | inl same ↦ subst P same h
    | inr later ↦ All-Has P ws w hs later
  ]

  -- In every state that is reached, a follower that goes on with a value has it from a flight that a
  -- leader started for the same key, whose promise was settled with that value; and it came before
  -- that was done or within the grace time after it, whether other flights failed or not.
  pub resume-Shares :
      {calm : Bool} {t : ℕ} {log : Log V} {ws : List Waiter} {c : Collapser V}
      → Run nothing grace calm t log ws c
      → (w : Waiter) (value : V) → Any (λ v. v ≡ w) ws
      → (resume w.key w.flight c).0 ≡ some value
      → (s : ℕ) × (log w.flight ≡ some (s, some value))
        × ((c.flight w.flight).key ≡ w.key)
        × (w.arrived ≤ s + grace)
  unfolding resume
  resume-Shares {calm} {t} {log} {ws} {c} run w value waits gets =
      let h = Run-Sound run in
      let (less, keyed, early, bound) = All-Has (Shares nothing grace t c) ws w h.shares waits in
      elim (Option-cases (c.flight w.flight).outcome) [
        | inl pending ↦ absurd (none-ne-some value (rw (pending, resume) at gets))
        | inr (result, settled) ↦ elim (Option-cases result) [
          | inl failed ↦ absurd (none-ne-some value (rw (settled ∙ ap some failed, resume) at gets))
          | inr (v, ok) ↦
              let whole : (c.flight w.flight).outcome ≡ some (some value) =
                settled ∙ (ap some (ok ∙ (rw (settled ∙ ap some ok, resume) at gets))) in
              let (s, entry, at) =
                outcome-log (c.flight w.flight) (log w.flight) (some value)
                  (h.logged.0 w.flight less) whole in
              (s, entry, keyed, bound s at)
        ]
      ]

  -- In every state that is reached without a failed flight, two flights for the same key that are
  -- both under way are the same one.
  pub pending-Unique :
      {t : ℕ} {log : Log V} {ws : List Waiter} {c : Collapser V}
      → Run nothing grace true t log ws c
      → (n m : ℕ) → n < c.next
      → m < c.next
      → (c.flight n).settled_at ≡ none
      → (c.flight m).settled_at ≡ none
      → (c.flight n).key ≡ (c.flight m).key
      → n ≡ m
  pending-Unique {t} {log} {ws} {c} run n m hn hm pn pm same =
      let h = (Run-Sound run).calmness in
      some-injective _ _
        (sym (h.on_map n hn pn) ∙ (ap (λ k. lookup k c.inflight) same ∙ h.on_map m hm pm))
