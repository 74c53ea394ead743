-- ===== src/Collapse/Log.antt =====
-- A record of when each promise was settled and with what result, kept beside the code's own state,
-- and that the flights agree with it.
use purge_api_gateway.Base.{
  ℕ, ◌≤◌, ◌<◌, ◌==◌, ◌≡◌, inl, inr, refl, sym, ap, ◌∙◌, subst, Option, none, some, Str, lookup,
  Bool-cases, Option-cases, if◌then◌else◌, arith,
}
use mathlib.Core.Option.{some-injective, none-ne-some}
use purge_api_gateway.Collapse.{
  Flight, Collapser, put_flight, lead, forget, is_stale, arrive, resume, settle, expire,
}

-- By the flight's number: the time at which its promise was settled, and the result, none of a
-- rejected one.
abbrev pub Log : Type 0 → Type 0
Log V = ℕ → Option (ℕ × Option V)

module _ {V : Type 0} where
  abbrev pub empty_log : Log V
  empty_log n = none

  unfoldable pub add_entry : ℕ → ℕ → Option V → Log V → Log V
  add_entry n now result log i = if i == n then some (now, result) else log i

  -- What a flight says of its promise.
  abbrev pub Agrees : Flight V → Option (ℕ × Option V) → Type 0
  Agrees f none = (f.settled_at ≡ none) × (f.outcome ≡ none)
  Agrees f (some (s, result)) = (f.settled_at ≡ some s) × (f.outcome ≡ some result)

  abbrev pub Logged : Log V → Collapser V → Type 0
  Logged log c =
      ((n : ℕ) → n < c.next → Agrees (c.flight n) (log n)) × ((n : ℕ) → c.next ≤ n → log n ≡ none)

  lead-Logged :
      (key : Str) (log : Log V) (c : Collapser V) → Logged log c → Logged log (lead key c).1
  unfolding lead put_flight
  lead-Logged key log c (agrees, unused) = (
    λ n less. elim (Bool-cases (n == c.next)) [
      | inl same ↦
          let at : n ≡ c.next = ground (arith, same) in
          subst (λ e. Agrees ((lead key c).1.flight n) e) (sym (unused n (omega (arith, at))))
            (ground (arith, same), ground (arith, same))
      | inr other ↦
          let before : n < c.next = ground (arith, less, other) in
          rw (other, lead, put_flight) (agrees n before)
    ],
    λ n over. unused n (omega (arith, over)),
  )

  forget-Logged :
      (key : Str) (log : Log V) (c : Collapser V) → Logged log c → Logged log (forget key c)
  unfolding forget
  forget-Logged key log c h = h

  pub settle-Logged :
      (now n : ℕ) (result : Option V) (log : Log V) (c : Collapser V)
      → n < c.next
      → Logged log c
      → Logged (add_entry n now result log) (settle now n result c)
  unfolding settle put_flight add_entry
  settle-Logged now n result log c less (agrees, unused) = (
    λ i below. elim (Bool-cases (i == n)) [
      | inl same ↦ rw (same, settle, put_flight, add_entry) (refl, refl)
      | inr other ↦ rw (other, settle, put_flight, add_entry) (agrees i below)
    ],
    λ i over. ground (arith, unused i over, less),
  )

  pub arrive-Logged :
      (grace now : ℕ) (key : Str) (log : Log V) (c : Collapser V)
      → Logged log c
      → Logged log (arrive grace now key c).1
  unfolding arrive
  arrive-Logged grace now key log c h = elim (Option-cases (lookup key c.inflight)) [
    | inl missing ↦ rw (missing, arrive) (lead-Logged key log c h)
    | inr (n, found) ↦ elim (Bool-cases (is_stale grace now (c.flight n))) [
      | inl stale ↦
          rw (found, arrive, stale) (lead-Logged key log (forget key c) (forget-Logged key log c h))
      | inr fresh ↦ rw (found, arrive, fresh) h
    ]
  ]

  pub expire-Logged :
      (n : ℕ) (log : Log V) (c : Collapser V) → Logged log c → Logged log (expire n c)
  unfolding expire
  expire-Logged n log c h = elim (Option-cases (lookup (c.flight n).key c.inflight)) [
    | inl missing ↦ rw (missing, expire) h
    | inr (m, found) ↦ elim (Bool-cases (m == n)) [
      | inl same ↦ rw (found, expire, same) (forget-Logged _ log c h)
      | inr other ↦ rw (found, expire, other) h
    ]
  ]

  pub resume-Logged :
      (key : Str) (n : ℕ) (log : Log V) (c : Collapser V)
      → Logged log c
      → Logged log (resume key n c).1
  unfolding resume
  resume-Logged key n log c h = elim (Option-cases (c.flight n).outcome) [
    | inl pending ↦ rw (pending, resume) h
    | inr (result, settled) ↦ elim (Option-cases result) [
      | inl failed ↦
          rw (settled ∙ ap some failed, resume)
            (lead-Logged key log (forget key c) (forget-Logged key log c h))
      | inr (value, ok) ↦ rw (settled ∙ ap some ok, resume) h
    ]
  ]

  -- A flight with a result has an entry.
  pub outcome-log :
      (f : Flight V) (entry : Option (ℕ × Option V)) (result : Option V)
      → Agrees f entry
      → f.outcome ≡ some result
      → (s : ℕ) × (entry ≡ some (s, result)) × (f.settled_at ≡ some s)
  outcome-log f none result (a, b) e = absurd (none-ne-some result (sym b ∙ e))
  outcome-log f (some (s, r)) result (a, b) e =
      (s, ap (λ v. some (s, v)) (some-injective _ _ (sym b ∙ e)), a)

  -- A flight with an entry is settled.
  pub Agrees-some :
      (f : Flight V) (entry : Option (ℕ × Option V)) (s : ℕ) (result : Option V)
      → Agrees f entry
      → entry ≡ some (s, result)
      → f.settled_at ≡ some s
  Agrees-some f entry s result h e = (subst (Agrees f) e h).0
