-- ===== src/Collapse/Run.antt =====
-- Whom the requests share their results with, in whatever order requests arrive, promises are
-- settled, timers fire and followers go on.
use purge_api_gateway.Base.{
  List, [], ◌∷◌, Bool, true, false, ℕ, ◌+◌, ◌≤◌, ◌<◌, ◌==◌, ◌≡◌, ◌⊎◌, inl, inr, refl, sym, ◌∙◌,
  Option, none, some, Str, str_eq, str_eq_iff, lookup, lookup-insert, lookup-delete, All,
  Bool-cases, arith,
}
use mathlib.Core.Option.{some-injective}
use purge_api_gateway.Collapse.{
  Flight, Collapser, Role, leads, follows, put_flight, lead, forget, arrive, resume, settle, expire,
}
use purge_api_gateway.Collapse.Log.{Log, empty_log, add_entry}

-- A follower that waits for a flight.
pub record Waiter : Type 0 where
  pub key : Str
  pub flight : ℕ
  pub arrived : ℕ

abbrev pub empty_collapser : {V : Type 0} → Flight V → Collapser V
empty_collapser f = record { inflight = []; flight = λ n. f; next = 0 }

-- The waiters once a request has arrived.
abbrev pub queue : Role → ℕ → Str → List Waiter → List Waiter
queue (leads n) now key ws = ws
queue (follows n) now key ws = record { key = key; flight = n; arrived = now } ∷ ws

module _ {V : Type 0} (nothing : Flight V) (grace : ℕ) where
  -- The states that are reached, with the time, the log of what was settled when, the followers so
  -- far, and whether no flight failed. A promise is settled once, and its timer fires after that.
  pub data Run : Bool → ℕ → Log V → List Waiter → Collapser V → Type 0 where
    start : Run true 0 empty_log [] (empty_collapser nothing)
    arriving :
        {calm : Bool} {t : ℕ} {log : Log V} {ws : List Waiter} {c : Collapser V}
        → Run calm t log ws c
        → (now : ℕ) (key : Str) → t ≤ now
        → Run calm now log (queue (arrive grace now key c).0 now key ws) (arrive grace now key c).1
    settling :
        {calm : Bool} {t : ℕ} {log : Log V} {ws : List Waiter} {c : Collapser V}
        → Run calm t log ws c
        → (now n : ℕ) (value : V) → t ≤ now
        → n < c.next
        → log n ≡ none
        → Run calm now (add_entry n now (some value) log) ws (settle now n (some value) c)
    failing :
        {calm : Bool} {t : ℕ} {log : Log V} {ws : List Waiter} {c : Collapser V}
        → Run calm t log ws c
        → (now n : ℕ) → t ≤ now
        → n < c.next
        → log n ≡ none
        → Run false now (add_entry n now none log) ws (settle now n none c)
    expiring :
        {calm : Bool} {t : ℕ} {log : Log V} {ws : List Waiter} {c : Collapser V}
        → Run calm t log ws c
        → (now n s : ℕ) (result : Option V) → t ≤ now
        → n < c.next
        → log n ≡ some (s, result)
        → Run calm now log ws (expire n c)
    resuming :
        {calm : Bool} {t : ℕ} {log : Log V} {ws : List Waiter} {c : Collapser V}
        → Run calm t log ws c
        → (key : Str) (n : ℕ) → n < c.next
        → Run calm t log ws (resume key n c).1

  -- The waiter waits for a flight of its own key, which was not settled when it came, or had been
  -- for no longer than the grace time.
  abbrev pub Shares : ℕ → Collapser V → Waiter → Type 0
  Shares t c w =
      (w.flight < c.next)
      × ((c.flight w.flight).key ≡ w.key)
      × (w.arrived ≤ t)
      × ((s : ℕ) → (c.flight w.flight).settled_at ≡ some s → w.arrived ≤ s + grace)

  -- The map has flights of its keys.
  abbrev pub IsKeyed : Collapser V → Type 0
  IsKeyed c =
      (key : Str) (n : ℕ) → lookup key c.inflight ≡ some n → (n < c.next) × ((c.flight n).key ≡ key)

  pub lead-IsKeyed : (key : Str) (c : Collapser V) → IsKeyed c → IsKeyed (lead key c).1
  unfolding lead put_flight
  lead-IsKeyed key c h k n e = elim (Bool-cases (str_eq key k)) [
    | inl same ↦
        let here : c.next ≡ n =
          some-injective _ _ (ground (arith, lookup-insert key k c.next c.inflight, e, same)) in
        (omega (arith, here), ground (arith, here, (str_eq_iff key k).0 same))
    | inr other ↦
        let (less, keyed) =
          h k n (ground (arith, lookup-insert key k c.next c.inflight, e, other)) in
        (omega (arith, less), ground (arith, less, keyed))
  ]

  pub forget-IsKeyed : (key : Str) (c : Collapser V) → IsKeyed c → IsKeyed (forget key c)
  unfolding forget
  forget-IsKeyed key c h k n e = h k n (ground (arith, lookup-delete key k c.inflight, e))

  pub settle-IsKeyed :
      (now n : ℕ) (result : Option V) (c : Collapser V)
      → IsKeyed c
      → IsKeyed (settle now n result c)
  unfolding settle put_flight
  settle-IsKeyed now n result c h k m e =
      let (less, keyed) = h k m e in (less, ground (arith, keyed))

  -- Flights keep their keys, and a flight is settled at the time of the change or as it was.
  unfoldable pub Extends : ℕ → Collapser V → Collapser V → Type 0
  Extends now c c' =
      (c.next ≤ c'.next)
      × ((i : ℕ)
          → i < c.next
          → ((c'.flight i).key ≡ (c.flight i).key)
            × (((c'.flight i).settled_at ≡ (c.flight i).settled_at)
                ⊎ ((c'.flight i).settled_at ≡ some now)))

  pub Extends-refl : (now : ℕ) (c : Collapser V) → Extends now c c
  unfolding Extends
  Extends-refl now c = (omega arith, λ i h. (refl, inl refl))

  pub lead-Extends : (now : ℕ) (key : Str) (c : Collapser V) → Extends now c (lead key c).1
  unfolding Extends lead put_flight
  lead-Extends now key c = (omega arith, λ i h. (ground (arith, h), inl (ground (arith, h))))

  pub forget-Extends : (now : ℕ) (key : Str) (c : Collapser V) → Extends now c (forget key c)
  unfolding Extends forget
  forget-Extends now key c = (omega arith, λ i h. (refl, inl refl))

  pub settle-Extends :
      (now n : ℕ) (result : Option V) (c : Collapser V) → Extends now c (settle now n result c)
  unfolding Extends settle put_flight
  settle-Extends now n result c = (
    omega arith,
    λ i h. elim (Bool-cases (i == n)) [
      | inl here ↦ (ground (arith, here), inr (ground (arith, here)))
      | inr other ↦ (ground (arith, other), inl (ground (arith, other)))
    ],
  )

  Extends-Shares :
      (t now : ℕ) (c c' : Collapser V) (w : Waiter)
      → t ≤ now
      → Extends now c c'
      → Shares t c w
      → Shares now c' w
  unfolding Extends
  Extends-Shares t now c c' w le (grows, keeps) (less, keyed, early, bound) =
      let (same_key, settled) = keeps w.flight less in
      (
        omega (arith, less, grows),
        same_key ∙ keyed,
        omega (arith, early, le),
        λ s e. elim settled [
          | inl same ↦ bound s (sym same ∙ e)
          | inr fresh ↦
              let at : now ≡ s = some-injective _ _ (sym fresh ∙ e) in omega (arith, at, early, le)
        ],
      )

  pub Extends-All :
      (t now : ℕ) (c c' : Collapser V) (ws : List Waiter)
      → t ≤ now
      → Extends now c c'
      → All (Shares t c) ws
      → All (Shares now c') ws
  Extends-All t now c c' [] le e h = tt
  Extends-All t now c c' (w ∷ ws) le e (h, hs) =
      (Extends-Shares t now c c' w le e h, Extends-All t now c c' ws le e hs)
