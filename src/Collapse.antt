-- ===== src/Collapse.antt =====
-- `RequestCollapser` of src/request-collapse.ts. A flight is an object that the map and its timers
-- share: flights live in a store, and the map has their numbers. `collapseOrCreate` waits for a
-- promise in the middle, so that it is two functions: what an arriving request does at once, and what
-- a follower does when the promise is settled.
pub mod Log
pub mod Run
pub mod Calm
pub mod Sharing
mod Tests
use purge_api_gateway.Base.{
  List, [], ◌∷◌, Bool, true, false, ℕ, ◌+◌, ltb, ◌==◌, Option, none, some, Str, lookup, insert,
  delete, if◌then◌else◌,
}

-- A flight: its key, the outcome of its promise (none of a rejected one), and when it was settled.
pub record Flight (V : Type 0) : Type 0 where
  pub key : Str
  pub outcome : Option (Option V)
  pub settled_at : Option ℕ

pub record Collapser (V : Type 0) : Type 0 where
  pub inflight : List (Str × ℕ)
  pub flight : ℕ → Flight V
  pub next : ℕ

abbrev pub default_grace_ms : ℕ
default_grace_ms = 50

-- What a request does: it starts a flight, or waits for one.
pub data Role : Type 0 where
  leads follows : ℕ → Role

module _ {V : Type 0} where
  -- `flight.settledAt !== null && Date.now() - flight.settledAt > this.graceMs`
  unfoldable pub is_stale : ℕ → ℕ → Flight V → Bool
  is_stale grace now f = elim f.settled_at [ none ↦ false | some s ↦ ltb (s + grace) now ]

  unfoldable pub put_flight : ℕ → Flight V → (ℕ → Flight V) → ℕ → Flight V
  put_flight n f flights i = if i == n then f else flights i

  -- The leader's path, up to the wait for its promise.
  unfoldable pub lead : Str → Collapser V → Role × Collapser V
  lead key c =
      let f : Flight V = record { key = key; outcome = none; settled_at = none } in
      (
        leads c.next,
        record {
          inflight = insert key c.next c.inflight;
          flight = put_flight c.next f c.flight;
          next = c.next + 1;
        },
      )

  unfoldable pub forget : Str → Collapser V → Collapser V
  forget key c = record c { inflight = delete key c.inflight }

  -- `collapseOrCreate` up to its first wait.
  unfoldable pub arrive : ℕ → ℕ → Str → Collapser V → Role × Collapser V
  arrive grace now key c = elim (lookup key c.inflight) [
    | none ↦ lead key c
    | some n ↦ if is_stale grace now (c.flight n) then lead key (forget key c) else (follows n, c)
  ]

  -- A follower whose flight is settled: the leader's result, or a flight of its own if the leader
  -- failed. A flight that is not settled keeps it waiting.
  unfoldable pub resume : Str → ℕ → Collapser V → Option V × Collapser V
  resume key n c = elim (c.flight n).outcome [
    | none ↦ (none, c)
    | some result ↦ elim result [
      | some value ↦ (some value, c)
      | none ↦ (none, (lead key (forget key c)).1)
    ]
  ]

  -- The promise of a flight is settled.
  unfoldable pub settle : ℕ → ℕ → Option V → Collapser V → Collapser V
  settle now n result c =
      let f : Flight V = record (c.flight n) { outcome = some result; settled_at = some now } in
      record c { flight = put_flight n f c.flight }

  -- The timer of a flight, which takes it off the map if it is still there.
  unfoldable pub expire : ℕ → Collapser V → Collapser V
  expire n c = elim (lookup (c.flight n).key c.inflight) [
    | none ↦ c
    | some m ↦ if m == n then forget (c.flight n).key c else c
  ]
