-- ===== src/Credentials/Manager/Cache.antt =====
-- The cache of a manager never disagrees with its table.
use purge_api_gateway.Base.{
  List, ℕ, ◌+◌, ltb, ◌≡◌, refl, Option, none, some, Str, lookup, insert_inv, lookup-delete,
  Option-cases, Bool-cases, inl, inr, arith,
}
use purge_api_gateway.Policy.Runtime.{Runtime}
use purge_api_gateway.Policy.Types.{PolicyDocument}
use purge_api_gateway.Policy.Regex.{IsCoherent}
use purge_api_gateway.Policy.Evaluate.Laws.{IsShallow}
use purge_api_gateway.Credentials.Table.{find}
use purge_api_gateway.Credentials.Types.{Credential, CachedEntry}
use purge_api_gateway.Credentials.Manager.{Manager, resolve_policy, load, get_cached_or_load}

module _ (js : Runtime) (parse : Str → Option PolicyDocument) {T : Type 0} (c : Credential T)
    (ttl : ℕ) where
  -- An entry shows the row of its key as the table has it now, with that row's policy.
  abbrev pub Shows : List T → Str → CachedEntry T → Type 0
  Shows table k entry =
      (find c.id k table ≡ some entry.entity)
      × (entry.resolved_policy ≡ resolve_policy js parse c ttl (c.policy entry.entity))

  -- Every cached entry shows its row, the regular expressions are those of the engine, and the
  -- stored policies are no deeper than evaluation follows, as validation requires at creation.
  pub record IsConsistent (m : Manager js T) : Type 0 where
    pub cached :
        (k : Str) (entry : CachedEntry T) → lookup k m.cache ≡ some entry → Shows m.table k entry
    pub regexes : IsCoherent js m.regexes
    pub shallow :
        (k : Str) (row : T)
        → find c.id k m.table ≡ some row
        → IsShallow (resolve_policy js parse c ttl (c.policy row))

  -- What a lookup by key should find.
  abbrev pub IsCurrent : List T → Str → Option (CachedEntry T) → Type 0
  IsCurrent table k none = find c.id k table ≡ none
  IsCurrent table k (some entry) = Shows table k entry

  load-IsCurrent :
      (now : ℕ) (id : Str) (m : Manager js T)
      → IsConsistent m
      → IsCurrent m.table id (load js parse c ttl now id m).0
        × ((load js parse c ttl now id m).1.table ≡ m.table)
        × IsConsistent (load js parse c ttl now id m).1
  unfolding load
  load-IsCurrent now id m h = elim (Option-cases (find c.id id m.table)) [
    | inl missing ↦
        rw (missing, load)
          (
            missing,
            refl,
            record {
              cached = λ k entry e. h.cached k entry (ground (arith, lookup-delete id k m.cache));
              regexes = h.regexes;
              shallow = h.shallow;
            },
          )
    | inr (row, found) ↦
        rw (found, load)
          (
            (found, refl),
            refl,
            record {
              cached = insert_inv (Shows m.table) id _ m.cache (found, refl) h.cached;
              regexes = h.regexes;
              shallow = h.shallow;
            },
          )
  ]

  -- `getCachedOrLoad` of a manager whose cache is consistent returns the row of the key as the table
  -- has it now and the policy of that row, or nothing if the table has no such row, at whatever
  -- times the entries were cached; the table stays as it is, and the manager consistent.
  pub get_cached_or_load-IsCurrent :
      (now : ℕ) (id : Str) (m : Manager js T)
      → IsConsistent m
      → IsCurrent m.table id (get_cached_or_load js parse c ttl now id m).0
        × ((get_cached_or_load js parse c ttl now id m).1.table ≡ m.table)
        × IsConsistent (get_cached_or_load js parse c ttl now id m).1
  unfolding get_cached_or_load
  get_cached_or_load-IsCurrent now id m h = elim (Option-cases (lookup id m.cache)) [
    | inl miss ↦ rw (miss, get_cached_or_load) (load-IsCurrent now id m h)
    | inr (entry, hit) ↦ elim (Bool-cases (ltb now (entry.cached_at + ttl))) [
      | inl fresh ↦ rw (hit, get_cached_or_load, fresh) (h.cached id entry hit, refl, h)
      | inr stale ↦ rw (hit, get_cached_or_load, stale) (load-IsCurrent now id m h)
    ]
  ]
