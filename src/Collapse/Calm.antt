-- ===== src/Collapse/Calm.antt =====
-- While no flight fails, every flight that is under way is the one on the map.
use purge_api_gateway.Base.{
  true, false, ℕ, ◌<◌, ◌==◌, ◌≡◌, inl, inr, refl, sym, ap, ◌∙◌, ◌≢◌, subst, none, some, Str, str_eq,
  str_eq_iff, lookup, lookup-insert, lookup-delete, Bool-cases, Option-cases, arith,
}
use mathlib.Core.Bool.{false≢true}
use mathlib.Core.Option.{some-injective, none-ne-some}
use purge_api_gateway.Collapse.{
  Flight, Collapser, is_stale, put_flight, lead, forget, arrive, resume, settle, expire,
}

module _ {V : Type 0} where
  pub record IsCalm (c : Collapser V) : Type 0 where
    pub unfailed : (n : ℕ) → n < c.next → (c.flight n).outcome ≢ some none
    pub on_map :
        (n : ℕ)
        → n < c.next
        → (c.flight n).settled_at ≡ none
        → lookup (c.flight n).key c.inflight ≡ some n

  -- No flight under way has the key.
  abbrev pub IsFree : Str → Collapser V → Type 0
  IsFree key c =
      (n : ℕ) → n < c.next → (c.flight n).settled_at ≡ none → str_eq key (c.flight n).key ≡ false

  pub forget-IsCalm :
      (key : Str) (c : Collapser V) → IsFree key c → IsCalm c → IsCalm (forget key c)
  unfolding forget
  forget-IsCalm key c free h = record {
    unfailed = h.unfailed;
    on_map = λ n less pending. ground (
      arith,
      lookup-delete key (c.flight n).key c.inflight,
      free n less pending,
      h.on_map n less pending,
    );
  }

  pub lead-IsCalm : (key : Str) (c : Collapser V) → IsFree key c → IsCalm c → IsCalm (lead key c).1
  unfolding lead put_flight
  lead-IsCalm key c free h = record {
    unfailed = λ n less failed. elim (Bool-cases (n == c.next)) [
      | inl new ↦ absurd (none-ne-some _ (rw new at failed))
      | inr old ↦ h.unfailed n (ground (arith, less, old)) (rw old at failed)
    ];
    on_map = λ n less pending. elim (Bool-cases (n == c.next)) [
      | inl new ↦ rw new (
          ground (arith, lookup-insert key key c.next c.inflight, (str_eq_iff key key).1 refl, new))
      | inr old ↦
          let under_way : (c.flight n).settled_at ≡ none = rw old at pending in
          let before : n < c.next = ground (arith, less, old) in
          rw old (
            ground (
              arith,
              lookup-insert key (c.flight n).key c.next c.inflight,
              free n before under_way,
              h.on_map n before under_way,
            ))
    ];
  }

  pub settle-IsCalm :
      (now n : ℕ) (value : V) (c : Collapser V) → IsCalm c → IsCalm (settle now n (some value) c)
  unfolding settle put_flight
  settle-IsCalm now n value c h = record {
    unfailed = λ i less failed. elim (Bool-cases (i == n)) [
      | inl here ↦ absurd (none-ne-some value (sym (some-injective _ _ (rw here at failed))))
      | inr other ↦ h.unfailed i less (rw other at failed)
    ];
    on_map = λ i less pending. elim (Bool-cases (i == n)) [
      | inl here ↦ absurd (none-ne-some _ (sym (rw here at pending)))
      | inr other ↦ rw other (h.on_map i less (rw other at pending))
    ];
  }

  -- The map has no flight of the key, or one that is settled.
  missing-IsFree :
      (key : Str) (c : Collapser V) → IsCalm c → lookup key c.inflight ≡ none → IsFree key c
  missing-IsFree key c h missing n less pending = elim (Bool-cases (str_eq key (c.flight n).key)) [
    | inr other ↦ other
    | inl same ↦ absurd (
        none-ne-some n (
          sym missing
          ∙ (ap (λ k. lookup k c.inflight) ((str_eq_iff key (c.flight n).key).0 same)
              ∙ h.on_map n less pending)))
  ]

  pub settled-IsFree :
      (key : Str) (m s : ℕ) (c : Collapser V)
      → IsCalm c
      → lookup key c.inflight ≡ some m
      → (c.flight m).settled_at ≡ some s
      → IsFree key c
  settled-IsFree key m s c h found settled n less pending =
      elim (Bool-cases (str_eq key (c.flight n).key)) [
        | inr other ↦ other
        | inl same ↦
            let this : m ≡ n = some-injective _ _ (
              sym found
              ∙ (ap (λ k. lookup k c.inflight) ((str_eq_iff key (c.flight n).key).0 same)
                  ∙ h.on_map n less pending)) in
            absurd (
              none-ne-some s
                (sym pending ∙ subst (λ i. (c.flight i).settled_at ≡ some s) this settled))
      ]

  stale_settled :
      (grace now : ℕ) (f : Flight V)
      → is_stale grace now f ≡ true
      → (s : ℕ) × (f.settled_at ≡ some s)
  unfolding is_stale
  stale_settled grace now f h = elim (Option-cases f.settled_at) [
    | inl pending ↦ absurd (false≢true (rw pending at h))
    | inr settled ↦ settled
  ]

  pub arrive-IsCalm :
      (grace now : ℕ) (key : Str) (c : Collapser V) → IsCalm c → IsCalm (arrive grace now key c).1
  unfolding arrive forget
  arrive-IsCalm grace now key c h = elim (Option-cases (lookup key c.inflight)) [
    | inl missing ↦ rw (missing, arrive) (lead-IsCalm key c (missing-IsFree key c h missing) h)
    | inr (m, found) ↦ elim (Bool-cases (is_stale grace now (c.flight m))) [
      | inr fresh ↦ rw (found, arrive, fresh) h
      | inl stale ↦
          let (s, settled) = stale_settled grace now (c.flight m) stale in
          let free = settled-IsFree key m s c h found settled in
          rw (found, arrive, stale)
            (lead-IsCalm key (forget key c) free (forget-IsCalm key c free h))
    ]
  ]

  pub expire-IsCalm :
      (n s : ℕ) (c : Collapser V)
      → (c.flight n).settled_at ≡ some s
      → IsCalm c
      → IsCalm (expire n c)
  unfolding expire
  expire-IsCalm n s c settled h = elim (Option-cases (lookup (c.flight n).key c.inflight)) [
    | inl missing ↦ rw (missing, expire) h
    | inr (m, found) ↦ elim (Bool-cases (m == n)) [
      | inr other ↦ rw (found, expire, other) h
      | inl same ↦
          let this : m ≡ n = ground (arith, same) in
          rw (found, expire, same)
            (forget-IsCalm (c.flight n).key c
              (settled-IsFree (c.flight n).key n s c h (found ∙ ap some this) settled) h)
    ]
  ]

  pub resume-IsCalm :
      (key : Str) (n : ℕ) (c : Collapser V) → n < c.next → IsCalm c → IsCalm (resume key n c).1
  unfolding resume
  resume-IsCalm key n c less h = elim (Option-cases (c.flight n).outcome) [
    | inl pending ↦ rw (pending, resume) h
    | inr (result, settled) ↦ elim (Option-cases result) [
      | inl failed ↦ absurd (h.unfailed n less (settled ∙ ap some failed))
      | inr (value, ok) ↦ rw (settled ∙ ap some ok, resume) h
    ]
  ]
