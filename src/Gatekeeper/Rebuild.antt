-- ===== src/Gatekeeper/Rebuild.antt =====
-- What a rebuild after a change of the configuration does to the buckets of the account, to the
-- buckets of keys, and to the buckets that purges hold while they wait.
use purge_api_gateway.Base.{
  if◌then◌else◌, List, [], Bool, Bool-cases, inl, inr, true, false, ◌||◌, ◌⊎◌, ℕ, ◌*◌, ◌≤◌, ◌<◌,
  ◌==◌, ◌≡◌, refl, sym, subst, ◌∙◌, Option, Str, lit, arith,
}
use purge_api_gateway.Policy.Runtime.{Runtime}
use purge_api_gateway.Policy.Types.{PolicyDocument}
use purge_api_gateway.RateLimit.TokenBucket
use purge_api_gateway.RateLimit.TokenBucket.{TokenBucket}
use purge_api_gateway.Config.{Numbers, get_config}
use purge_api_gateway.Gatekeeper.{
  KeyBuckets, Gatekeeper, setting, changed, rebuilt, replaced, put_bucket, rebuild_buckets,
}

-- The bucket has the rate and the size.
abbrev pub Has : ℕ → ℕ → TokenBucket → Type 0
Has rate size b = (b.rate ≡ rate) × (b.bucket_size ≡ size)

-- A bucket that has the rate and the size stays as it is; any other gives way to a full one that has.
abbrev pub AsSet : ℕ → ℕ → ℕ → TokenBucket → TokenBucket → Type 0
AsSet now rate size old new =
    (Has rate size old × (new ≡ old))
    ⊎ ((¬ Has rate size old)
        × Has rate size new
        × (new.milli ≡ size * 1000)
        × (new.last_refill ≡ now))

module _ (js : Runtime) (parse : Str → Option PolicyDocument) (stringify : PolicyDocument → Str)
    (ttl : ℕ) (numbers : Numbers ℕ) (inherited : Str → Bool) (env : Str → Option Str) where
  -- The buckets of keys stay if both buckets of the account do, and are gone if one of those did not
  -- have the rate and the size that are configured.
  abbrev pub KeysKept : List (Str × ℕ) → Gatekeeper js → Gatekeeper js → Type 0
  KeysKept config g g' =
      ((g'.buckets g'.bulk_bucket ≡ g.buckets g.bulk_bucket)
        × (g'.buckets g'.single_bucket ≡ g.buckets g.single_bucket)
        × (g'.key_buckets ≡ g.key_buckets))
      ⊎ ((g'.key_buckets ≡ [])
          × ((¬ Has (setting (lit "bulk_rate") config) (setting (lit "bulk_bucket_size") config)
                (g.buckets g.bulk_bucket))
              ⊎ (¬ Has (setting (lit "single_rate") config)
                  (setting (lit "single_bucket_size") config) (g.buckets g.single_bucket))))

  -- What a rebuild does for the configuration `config`.
  pub record Rebuilt (now : ℕ) (config : List (Str × ℕ)) (g g' : Gatekeeper js) : Type 0 where
    bulk :
        AsSet now
          (setting (lit "bulk_rate") config)
          (setting (lit "bulk_bucket_size") config)
          (g.buckets g.bulk_bucket)
          (g'.buckets g'.bulk_bucket)
    single :
        AsSet now
          (setting (lit "single_rate") config)
          (setting (lit "single_bucket_size") config)
          (g.buckets g.single_bucket)
          (g'.buckets g'.single_bucket)
    s3 :
        AsSet now
          (setting (lit "s3_rps") config)
          (setting (lit "s3_burst") config)
          g.s3_bucket
          g'.s3_bucket
    cf_proxy :
        AsSet now
          (setting (lit "cf_proxy_rps") config)
          (setting (lit "cf_proxy_burst") config)
          g.cf_proxy_bucket
          g'.cf_proxy_bucket
    held : (ref : ℕ) → ref < g.next_bucket → g'.buckets ref ≡ g.buckets ref
    placed : (g'.bulk_bucket < g'.next_bucket) × (g'.single_bucket < g'.next_bucket)
    keys : KeysKept config g g'

  changed_iff :
      (b : TokenBucket) (rate size : ℕ)
      → ((changed js parse stringify ttl numbers inherited env b rate size ≡ false)
          × Has rate size b)
        ⊎ ((changed js parse stringify ttl numbers inherited env b rate size ≡ true)
            × (¬ Has rate size b))
  unfolding changed
  changed_iff b rate size = elim (Bool-cases (b.rate == rate)) [
    | inl same_rate ↦ elim (Bool-cases (b.bucket_size == size)) [
      | inl same_size ↦ inl (ground arith, (ground arith, ground arith))
      | inr other ↦ inr (ground arith, λ h. ground (arith, h.1))
    ]
    | inr other ↦ inr (ground arith, λ h. ground (arith, h.0))
  ]

  rebuilt-AsSet :
      (now rate size : ℕ) (b : TokenBucket)
      → AsSet now rate size b (rebuilt js parse stringify ttl numbers inherited env now rate size b)
  unfolding rebuilt TokenBucket.create
  rebuilt-AsSet now rate size b = elim (changed_iff b rate size) [
    | inl (same, has) ↦ inl (has, rw (same, rebuilt) refl)
    | inr (other, lacks) ↦ rw (other, rebuilt) (inr (lacks, (refl, refl), refl, refl))
  ]

  record Placed (now rate size ref : ℕ) (g : Gatekeeper js) (ref' : ℕ) (g' : Gatekeeper js)
      : Type 0 where
    as_set : AsSet now rate size (g.buckets ref) (g'.buckets ref')
    below : ref' < g'.next_bucket
    grows : g.next_bucket ≤ g'.next_bucket
    kept : (i : ℕ) → i < g.next_bucket → g'.buckets i ≡ g.buckets i

  replaced-Placed :
      (now rate size ref : ℕ) (g : Gatekeeper js)
      → ref < g.next_bucket
      → Placed now rate size ref g
          (replaced js parse stringify ttl numbers inherited env now rate size ref g).0
          (replaced js parse stringify ttl numbers inherited env now rate size ref g).1
  unfolding replaced put_bucket TokenBucket.create
  replaced-Placed now rate size ref g less = elim (changed_iff (g.buckets ref) rate size) [
    | inl (same, has) ↦
        rw (same, replaced)
          (record {
            as_set = inl (has, refl);
            below = less;
            grows = omega arith;
            kept = λ i h. refl;
          })
    | inr (other, lacks) ↦
        let here : (g.next_bucket == g.next_bucket) ≡ true = ground arith in
        rw (other, replaced)
          (record {
            as_set = rw (here) (inr (lacks, (refl, refl), refl, refl));
            below = omega arith;
            grows = omega arith;
            kept = λ i h. ground (arith, h);
          })
  ]

  AsSet-keys :
      (now rate size rate' size' : ℕ) (old new old' new' : TokenBucket)
      (kept : List (Str × KeyBuckets))
      → AsSet now rate size old new
      → AsSet now rate' size' old' new'
      → ((new ≡ old)
          × (new' ≡ old')
          × ((if changed js parse stringify ttl numbers inherited env old rate size
                  || changed js parse stringify ttl numbers inherited env old' rate' size'
                then []
                else kept)
              ≡ kept))
        ⊎ (((if changed js parse stringify ttl numbers inherited env old rate size
                  || changed js parse stringify ttl numbers inherited env old' rate' size'
                then []
                else kept)
              ≡ [])
            × ((¬ Has rate size old) ⊎ (¬ Has rate' size' old')))
  AsSet-keys now rate size rate' size' old new old' new' kept (inr (lack, full, most, fresh))
        single =
      elim (changed_iff old rate size) [
        | inl (same, has) ↦ absurd (lack has)
        | inr (other, lacks) ↦ inr (rw (other) refl, inl lacks)
      ]
  AsSet-keys now rate size rate' size' old new old' new' kept (inl h)
        (inr (lack, full, most, fresh)) =
      elim (changed_iff old' rate' size') [
        | inl (same, has) ↦ absurd (lack has)
        | inr (other, lacks) ↦ inr (ground (arith, other), inr lacks)
      ]
  AsSet-keys now rate size rate' size' old new old' new' kept (inl (has, e)) (inl (has', e')) =
      elim (changed_iff old rate size) [
        | inr (other, lacks) ↦ absurd (lacks has)
        | inl (same, h) ↦ elim (changed_iff old' rate' size') [
          | inr (other, lacks) ↦ absurd (lacks has')
          | inl (same', h') ↦ inl (e, e', rw (same, same') refl)
        ]
      ]

  -- An object whose buckets of the account are in its store, after a rebuild: each bucket of the
  -- account, of S3 and of the service proxies is the old one with its tokens, if it has the rate and
  -- the size that are configured, and otherwise a full one that has them; no bucket that was in the
  -- store, and that a purge may hold, has changed; and the buckets of keys are gone if a bucket of the
  -- account was not as it is configured, and otherwise they are as before.
  pub rebuild_buckets-Rebuilt :
      (now : ℕ) (g : Gatekeeper js)
      → g.bulk_bucket < g.next_bucket
      → g.single_bucket < g.next_bucket
      → Rebuilt now
          (get_config numbers env g.config).0
          g
          (rebuild_buckets js parse stringify ttl numbers inherited env now g)
  unfolding rebuild_buckets
  rebuild_buckets-Rebuilt now g bulk_in single_in =
      let config = (get_config numbers env g.config).0 in
      let bulk_rate = setting (lit "bulk_rate") config in
      let bulk_size = setting (lit "bulk_bucket_size") config in
      let single_rate = setting (lit "single_rate") config in
      let single_size = setting (lit "single_bucket_size") config in
      let first = replaced-Placed now bulk_rate bulk_size g.bulk_bucket g bulk_in in
      let with_bulk =
        (replaced js parse stringify ttl numbers inherited env now bulk_rate bulk_size g.bulk_bucket
          g).1 in
      let second =
        replaced-Placed now single_rate single_size g.single_bucket with_bulk
          (omega (arith, single_in, first.grows)) in
      let (single_ref, with_single) =
        replaced js parse stringify ttl numbers inherited env now single_rate single_size
          g.single_bucket with_bulk in
      let bulk_set =
        subst (AsSet now bulk_rate bulk_size (g.buckets g.bulk_bucket))
          (sym (second.kept _ first.below)) first.as_set in
      let single_set =
        subst (λ b. AsSet now single_rate single_size b (with_single.buckets single_ref))
          (first.kept g.single_bucket single_in) second.as_set in
      record {
        bulk = bulk_set;
        single = single_set;
        s3 = rebuilt-AsSet now _ _ g.s3_bucket;
        cf_proxy = rebuilt-AsSet now _ _ g.cf_proxy_bucket;
        held = λ ref less. second.kept ref (omega (arith, less, first.grows)) ∙ first.kept ref less;
        placed = (omega (arith, first.below, second.grows), second.below);
        keys =
            AsSet-keys now bulk_rate bulk_size single_rate single_size (g.buckets g.bulk_bucket) _
              (g.buckets g.single_bucket) _ g.key_buckets bulk_set single_set;
      }
