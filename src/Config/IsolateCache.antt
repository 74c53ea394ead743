-- ===== src/Config/IsolateCache.antt =====
-- src/config-cache.ts: the configuration kept in an isolate, in front of the durable object. What the
-- durable object answers is the argument `fetched`.
use purge_api_gateway.Base.{
  ℕ, ◌+◌, ◌<◌, ltb, ◌≡◌, ◌⊎◌, inl, inr, refl, Option, none, some, Bool-cases, arith, if◌then◌else◌,
}

pub record CachedConfig (C : Type 0) : Type 0 where
  pub config : C
  pub fetched_at : ℕ

abbrev pub config_cache_ttl_ms : ℕ
config_cache_ttl_ms = 30000

module _ {C : Type 0} where
  unfoldable pub get_cached_config : ℕ → C → Option (CachedConfig C) → C × Option (CachedConfig C)
  get_cached_config now fetched none =
      (fetched, some (record { config = fetched; fetched_at = now }))
  get_cached_config now fetched (some cached) =
      if ltb now (cached.fetched_at + config_cache_ttl_ms)
      then (cached.config, some cached)
      else (fetched, some (record { config = fetched; fetched_at = now }))

  unfoldable pub invalidate_config_cache : Option (CachedConfig C) → Option (CachedConfig C)
  invalidate_config_cache cache = none

  -- What is given is what the durable object answers now, or what the cache got from it less than the
  -- time to live ago; after an invalidation it is the former.
  pub get_cached_config-Fresh :
      (now : ℕ) (fetched : C) (cache : Option (CachedConfig C))
      → (((get_cached_config now fetched cache).0 ≡ fetched)
          ⊎ ((cached : CachedConfig C) × (cache ≡ some cached)
              × (now < cached.fetched_at + config_cache_ttl_ms)
              × ((get_cached_config now fetched cache).0 ≡ cached.config)))
        × ((get_cached_config now fetched (invalidate_config_cache cache)).0 ≡ fetched)
  unfolding get_cached_config invalidate_config_cache
  get_cached_config-Fresh now fetched none = (inl refl, refl)
  get_cached_config-Fresh now fetched (some cached) =
      elim (Bool-cases (ltb now (cached.fetched_at + config_cache_ttl_ms))) [
        | inl fresh ↦ rw fresh (inr (cached, refl, ground (arith, fresh), refl), refl)
        | inr stale ↦ rw stale (inl refl, refl)
      ]
