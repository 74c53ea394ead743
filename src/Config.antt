-- ===== src/Config.antt =====
-- `ConfigManager` of src/config-registry.ts: the table of overrides, its cache, and the resolution of
-- a key from the registry, the environment and the defaults.
pub mod Registry
pub mod Laws
pub mod RoundTrip
pub mod IsolateCache
mod Tests
use purge_api_gateway.Base.{
  List, [], ◌∷◌, ◌++◌, Bool, true, false, not, ◌&&◌, ◌||◌, ℕ, Option, none, some, Str, lit, str_eq,
  some_of, map, lookup, insert, if◌then◌else◌,
}
use purge_api_gateway.Credentials.Table.{update_where, delete_where, count_where}
use purge_api_gateway.Credentials.Manager.{any_row}

-- The numbers of JavaScript: whole ones, `Number(text)`, `String(n)`, `n > 0` (false of NaN) and
-- `isFinite`.
pub record Numbers (N : Type 0) : Type 0 where
  pub of_nat : ℕ → N
  pub of_text : Str → N
  pub to_text : N → Str
  pub is_positive : N → Bool
  pub is_finite : N → Bool

unfoldable pub config_defaults : List (Str × ℕ)
config_defaults =
    (lit "bulk_rate", 50)
    ∷ (lit "bulk_bucket_size", 500)
    ∷ (lit "bulk_max_ops", 100)
    ∷ (lit "single_rate", 3000)
    ∷ (lit "single_bucket_size", 6000)
    ∷ (lit "single_max_ops", 500)
    ∷ (lit "key_cache_ttl_ms", 60000)
    ∷ (lit "retention_days", 30)
    ∷ (lit "s3_rps", 100)
    ∷ (lit "s3_burst", 200)
    ∷ (lit "cf_proxy_rps", 200)
    ∷ (lit "cf_proxy_burst", 400)
    ∷ []

unfoldable pub env_to_config : List (Str × Str)
env_to_config =
    (lit "BULK_RATE", lit "bulk_rate")
    ∷ (lit "BULK_BUCKET_SIZE", lit "bulk_bucket_size")
    ∷ (lit "BULK_MAX_OPS", lit "bulk_max_ops")
    ∷ (lit "SINGLE_RATE", lit "single_rate")
    ∷ (lit "SINGLE_BUCKET_SIZE", lit "single_bucket_size")
    ∷ (lit "SINGLE_MAX_OPS", lit "single_max_ops")
    ∷ (lit "KEY_CACHE_TTL_MS", lit "key_cache_ttl_ms")
    ∷ (lit "RETENTION_DAYS", lit "retention_days")
    ∷ (lit "S3_RPS", lit "s3_rps")
    ∷ (lit "S3_BURST", lit "s3_burst")
    ∷ (lit "CF_PROXY_RPS", lit "cf_proxy_rps")
    ∷ (lit "CF_PROXY_BURST", lit "cf_proxy_burst")
    ∷ []

pub record ConfigOverride : Type 0 where
  pub key : Str
  pub value : Str
  pub updated_at : ℕ
  pub updated_by : Option Str

pub record Config (N : Type 0) : Type 0 where
  pub rows : List ConfigOverride
  pub cache : Option (List (Str × N))

-- What `setConfig` and `resetKey` throw, with the key of the message.
pub data ConfigError : Type 0 where
  unknown_key not_positive : Str → ConfigError

-- `Object.entries(ENV_TO_CONFIG).find(([, v]) => v === key)?.[0]`
unfoldable pub env_key : Str → List (Str × Str) → Option Str
env_key key [] = none
env_key key ((name, config_key) ∷ names) =
    let rest = env_key key names in if str_eq config_key key then some name else rest

-- The row of an override, inserted or, if its key is there, in the place of the old one.
unfoldable pub upsert : ConfigOverride → List ConfigOverride → List ConfigOverride
upsert new rows =
    if any_row (count_where (λ row. str_eq row.key new.key) rows)
    then update_where (λ row. str_eq row.key new.key) (λ row. new) rows
    else rows ++ new ∷ []

-- `key in CONFIG_DEFAULTS`, which holds of the names that every object inherits, too.
unfoldable pub is_known : (Str → Bool) → Str → Bool
is_known inherited key = some_of (λ entry. str_eq entry.0 key) config_defaults || inherited key

module _ {N : Type 0} (numbers : Numbers N) where
  -- The loop of `loadRegistry`.
  unfoldable pub load_rows : List ConfigOverride → List (Str × N) → List (Str × N)
  load_rows [] registry = registry
  load_rows (row ∷ rows) registry =
      let val = numbers.of_text row.value in
      load_rows rows (if numbers.is_positive val then insert row.key val registry else registry)

  unfoldable pub load_registry : Config N → List (Str × N) × Config N
  load_registry c = elim c.cache [
    | some registry ↦ (registry, c)
    | none ↦ let registry = load_rows c.rows [] in (registry, record c { cache = some registry })
  ]

  -- A value of the environment, if it is a positive number.
  unfoldable pub env_value : (Str → Option Str) → Str → Option N
  env_value env key = elim (env_key key env_to_config) [
    | none ↦ none
    | some name ↦ elim (env name) [
      | none ↦ none
      | some text ↦
          let parsed = numbers.of_text text in
          if numbers.is_positive parsed then some parsed else none
    ]
  ]

  -- One round of the loop of `getConfig`: registry, environment, default.
  unfoldable pub resolve_key : List (Str × N) → (Str → Option Str) → Str → ℕ → N
  resolve_key registry env key hard_default = elim (lookup key registry) [
    | some value ↦ value
    | none ↦ elim (env_value env key) [ some value ↦ value | none ↦ numbers.of_nat hard_default ]
  ]

  -- The resolved values by their keys, in the order of the defaults.
  unfoldable pub get_config : (Str → Option Str) → Config N → List (Str × N) × Config N
  get_config env c =
      let (registry, c') = load_registry c in
      (map (λ entry. (entry.0, resolve_key registry env entry.0 entry.1)) config_defaults, c')

  unfoldable pub set_rows :
      (Str → Bool)
      → ℕ
      → Option Str
      → List (Str × N)
      → List ConfigOverride
      → Option ConfigError × List ConfigOverride
  set_rows inherited now by [] rows = (none, rows)
  set_rows inherited now by ((key, value) ∷ updates) rows =
      let new : ConfigOverride = record {
        key = key;
        value = numbers.to_text value;
        updated_at = now;
        updated_by = by;
      } in
      let rest = set_rows inherited now by updates (upsert new rows) in
      if not (is_known inherited key)
      then (some (unknown_key key), rows)
      else if not (numbers.is_positive value) || not (numbers.is_finite value)
      then (some (not_positive key), rows)
      else rest

  -- `setConfig`: the loop over the updates, which an error leaves behind the rows written so far and
  -- before the cache is cleared.
  unfoldable pub set_config :
      (Str → Bool) → ℕ → Option Str → List (Str × N) → Config N → Option ConfigError × Config N
  set_config inherited now by updates c =
      let (error, rows) = set_rows inherited now by updates c.rows in
      (error, record { rows = rows; cache = elim error [ some thrown ↦ c.cache | none ↦ none ] })

  -- `resetKey`, with whether a row was deleted.
  unfoldable pub reset_key : (Str → Bool) → Str → Config N → Option ConfigError × Bool × Config N
  reset_key inherited key c =
      if not (is_known inherited key) then (some (unknown_key key), false, c) else (
        none,
        any_row (count_where (λ row. str_eq row.key key) c.rows),
        record { rows = delete_where (λ row. str_eq row.key key) c.rows; cache = none },
      )
