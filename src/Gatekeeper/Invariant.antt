-- ===== src/Gatekeeper/Invariant.antt =====
-- Whatever methods of the durable object are called, in whatever order, the buckets of keys enforce
-- the limits that the keys store, and do not grow without bound.
use purge_api_gateway.Base.{
  List, Bool, ℕ, ◌+◌, ◌≤◌, leb, ℤ, ◌≡◌, inl, inr, refl, sym, ap, ◌∙◌, subst, Option, some, Str,
  str_eq_iff, length, lookup, insert, delete, lookup-insert, length-insert-le, length-delete-le,
  Bool-cases, Option-cases, arith, if◌then◌else◌,
}
use mathlib.Core.Option.{some-injective}
use purge_api_gateway.Policy.Runtime.{Runtime}
use purge_api_gateway.Policy.Types.{PolicyDocument}
use purge_api_gateway.Credentials.Table.{find}
use purge_api_gateway.Credentials.Manager.{Manager}
use purge_api_gateway.Credentials.Keys.{ApiKey, get_key}
use purge_api_gateway.Config.{Numbers, get_config}
use purge_api_gateway.Gatekeeper.{
  RateClass, KeyBuckets, Gatekeeper, max_key_buckets, evict_lru, has_limit, new_key_buckets,
  touch_key_buckets, consume_key_bucket, check_per_key_rate_limit,
}
use purge_api_gateway.Gatekeeper.KeyLimits.{
  Follows, Enforced, new_key_buckets-Follows, start_purge-Follows, insert-Enforced, delete-Enforced,
  evict_lru-Enforced, evict_lru-lt, length-delete-lt, length-insert-same,
}

-- At most 1024 keys have buckets, each a stored key with the limits that it stores.
pub record IsLimited (table : List ApiKey) (m : List (Str × KeyBuckets)) : Type 0 where
  pub bounded : length m ≤ max_key_buckets
  pub enforced : Enforced table m

pub delete-IsLimited :
    (table : List ApiKey) (id : Str) (m : List (Str × KeyBuckets))
    → IsLimited table m
    → IsLimited table (delete id m)
delete-IsLimited table id m h = record {
  bounded = omega (arith, length-delete-le id m, h.bounded);
  enforced = delete-Enforced table id m h.enforced;
}

lookup-insert-same :
    (id : Str) (b : KeyBuckets) (m : List (Str × KeyBuckets)) → lookup id (insert id b m) ≡ some b
lookup-insert-same id b m = ground (arith, lookup-insert id id b m, (str_eq_iff id id).1 refl)

make_room-IsLimited :
    (table : List ApiKey) (m : List (Str × KeyBuckets))
    → IsLimited table m
    → (length (if leb max_key_buckets (length m) then evict_lru m else m) + 1 ≤ max_key_buckets)
      × Enforced table (if leb max_key_buckets (length m) then evict_lru m else m)
make_room-IsLimited table m h = elim (Bool-cases (leb max_key_buckets (length m))) [
  | inl full ↦ rw full (
    let lt = evict_lru-lt m (ground (arith, full)) in omega (arith, lt, h.bounded),
    evict_lru-Enforced table m h.enforced,
  )
  | inr free ↦ rw free (ground (arith, free), h.enforced)
]

module _ (js : Runtime) (parse : Str → Option PolicyDocument) (stringify : PolicyDocument → Str)
    (ttl : ℕ) (numbers : Numbers ℕ) (inherited : Str → Bool) (env : Str → Option Str) where
  abbrev pub Limited : Gatekeeper js → Type 0
  Limited g = IsLimited g.iam.table g.key_buckets

  -- The buckets of a stored key, once touched, are those of the map, and follow its limits.
  pub touch-Limited :
      (now : ℕ) (id : Str) (key : ApiKey) (g : Gatekeeper js)
      → find (λ (k : ApiKey). k.id) id g.iam.table ≡ some key
      → Limited g
      → Follows key (touch_key_buckets js parse stringify ttl numbers inherited env now id key g).0
        × (lookup id
              (touch_key_buckets js parse stringify ttl numbers inherited env now id key
                g).1.key_buckets
            ≡ some (touch_key_buckets js parse stringify ttl numbers inherited env now id key g).0)
        × Limited (touch_key_buckets js parse stringify ttl numbers inherited env now id key g).1
        × ((touch_key_buckets js parse stringify ttl numbers inherited env now id key g).1.iam
            ≡ g.iam)
  unfolding touch_key_buckets
  touch-Limited now id key g found h = elim (Option-cases (lookup id g.key_buckets)) [
    | inl missing ↦
        let (room, kept) = make_room-IsLimited g.iam.table g.key_buckets h in
        let follows = new_key_buckets-Follows now key (get_config numbers env g.config).0 in
        rw (missing, touch_key_buckets)
          (
            follows,
            lookup-insert-same id _ _,
            record {
              bounded = omega (
                arith,
                room,
                length-insert-le id (new_key_buckets now key (get_config numbers env g.config).0) (
                    if leb max_key_buckets (length g.key_buckets)
                    then evict_lru g.key_buckets
                    else g.key_buckets),
              );
              enforced = insert-Enforced g.iam.table id key _ _ found follows kept;
            },
            refl,
          )
    | inr (b, hit) ↦
        let (key', found', follows') = h.enforced id b hit in
        let follows = subst (λ k. Follows k b) (some-injective _ _ (sym found' ∙ found)) follows' in
        rw (hit, touch_key_buckets)
          (
            follows,
            lookup-insert-same id _ _,
            record {
              bounded = omega (
                arith,
                h.bounded,
                length-delete-lt id b g.key_buckets hit,
                length-insert-le id b (delete id g.key_buckets),
              );
              enforced =
                  insert-Enforced g.iam.table id key b _ found follows
                    (delete-Enforced g.iam.table id g.key_buckets h.enforced);
            },
            refl,
          )
  ]

  pub check_per_key_rate_limit-Limited :
      (now : ℕ) (id : Str) (class : RateClass) (tokens : ℤ) (g : Gatekeeper js)
      → Limited g
      → Limited
          (check_per_key_rate_limit js parse stringify ttl numbers inherited env now id class tokens
            g).1
        × ((check_per_key_rate_limit js parse stringify ttl numbers inherited env now id class
              tokens g).1.iam
            ≡ g.iam)
  unfolding check_per_key_rate_limit get_key consume_key_bucket
  check_per_key_rate_limit-Limited now id class tokens g h =
      elim (Option-cases (find (λ (k : ApiKey). k.id) id g.iam.table)) [
        | inl missing ↦ rw (missing, check_per_key_rate_limit) (h, refl)
        | inr (key, found) ↦
            let (follows, hit, limited, same) = touch-Limited now id key g found h in
            let touched =
              touch_key_buckets js parse stringify ttl numbers inherited env now id key g in
            elim (Bool-cases (has_limit class key)) [
              | inr unlimited ↦ rw (found, check_per_key_rate_limit, unlimited) (h, refl)
              | inl custom ↦
                  rw (found, check_per_key_rate_limit, custom)
                    (
                      record {
                        bounded = omega (
                          arith,
                          limited.bounded,
                          length-insert-same id _ touched.0 touched.1.key_buckets hit,
                        );
                        enforced =
                            insert-Enforced touched.1.iam.table id key _ touched.1.key_buckets
                              (ap
                                  (λ (m : Manager js ApiKey).
                                    find (λ (k : ApiKey). k.id) id m.table)
                                  same
                                ∙ found)
                              (start_purge-Follows now class tokens key touched.0 follows)
                              limited.enforced;
                      },
                      same,
                    )
            ]
      ]
