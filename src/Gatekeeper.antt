-- ===== src/Gatekeeper.antt =====
-- `Gatekeeper` of src/durable-object.ts: the durable object that holds the managers and the buckets.
-- `Date.now()` is `now`. Of a `PurgeResult` the body, the headers and the flight id are left out. The
-- numbers of the configuration are whole here, as those of the buckets are. A purge keeps hold of its
-- bucket while it waits for the upstream, even if the object has replaced it meanwhile: the account's
-- buckets live in a store, and the object has their numbers.
pub mod KeyMethods
pub mod KeyLimits
pub mod Tables
pub mod Invariant
pub mod Kept
pub mod Reach
pub mod Budget
pub mod Rebuild
mod Tests
use purge_api_gateway.Base.{
  List, [], ◌∷◌, ◌++◌, Bool, true, false, not, ◌&&◌, ◌||◌, ℕ, zero, suc, ◌+◌, ◌==◌, leb, ℤ, pos,
  negsuc, Option, none, some, Str, lit, length, lookup, insert, delete, if◌then◌else◌,
}
use mathlib.Core.Option
use purge_api_gateway.Policy.Runtime.{Runtime}
use purge_api_gateway.Policy.Types.{PolicyDocument}
use purge_api_gateway.RateLimit.TokenBucket
use purge_api_gateway.RateLimit.TokenBucket.{TokenBucket, ConsumeResult}
use purge_api_gateway.Credentials.Types.{BulkStatus, BulkItemResult, BulkResult, deleted}
use purge_api_gateway.Credentials.Manager.{
  Manager, revoke_by_id, delete_by_id, revoke_expired, bulk_revoke, bulk_delete,
}
use purge_api_gateway.Credentials.Keys.{
  ApiKey, key_credential, Result, ok, throws, RotateOverrides, KeyUpdates, get_key, rotate_key,
  update_key, is_some,
}
use purge_api_gateway.S3.Iam.{S3Credential, s3_credential}
use purge_api_gateway.Upstream.Registry
use purge_api_gateway.Upstream.Tokens.{TokenRegistry, token_entry}
use purge_api_gateway.Upstream.R2.{R2Registry, r2_entry}
use purge_api_gateway.Config.{Numbers, Config, ConfigError, get_config, set_config, reset_key}

pub data RateClass : Type 0 where
  bulk single : RateClass

pub record KeyBuckets : Type 0 where
  pub bulk_bucket : TokenBucket
  pub single_bucket : TokenBucket

pub record RateLimitInfo : Type 0 where
  pub remaining : ℕ
  pub seconds_until_refill : ℕ
  pub bucket_size : ℕ
  pub rate : ℕ

pub record PurgeResult : Type 0 where
  pub status : ℕ
  pub collapsed : Bool
  pub reached_upstream : Bool
  pub rate_limit_info : RateLimitInfo

-- A purge that has begun is refused, or calls the upstream and holds the bucket of the number.
pub data Begun : Type 0 where
  stops : PurgeResult → Begun
  calls_upstream : ℕ → Begun

-- How a call of the purge interface ends: `fetch` throws, or there is an answer with its status and
-- the number in its Retry-After header.
pub data UpstreamOutcome : Type 0 where
  failed : UpstreamOutcome
  answered : ℕ → Option ℕ → UpstreamOutcome

pub record Gatekeeper (js : Runtime) : Type 0 where
  pub buckets : ℕ → TokenBucket
  pub next_bucket : ℕ
  pub bulk_bucket : ℕ
  pub single_bucket : ℕ
  pub s3_bucket : TokenBucket
  pub cf_proxy_bucket : TokenBucket
  pub iam : Manager js ApiKey
  pub s3_iam : Manager js S3Credential
  pub upstream_tokens : TokenRegistry
  pub upstream_r2 : R2Registry
  pub config : Config ℕ
  pub key_buckets : List (Str × KeyBuckets)

abbrev pub max_key_buckets : ℕ
max_key_buckets = 1024

abbrev pub default_retry_after_sec : ℕ
default_retry_after_sec = 5

-- A field of the resolved configuration.
abbrev pub setting : Str → List (Str × ℕ) → ℕ
setting key config = Option.get_or (lookup key config) 0

-- `buildRateLimitResult`
unfoldable pub build_rate_limit_result : TokenBucket → ConsumeResult → PurgeResult
build_rate_limit_result bucket result = record {
  status = 429;
  collapsed = false;
  reached_upstream = false;
  rate_limit_info = record {
    remaining = result.remaining;
    seconds_until_refill = result.retry_after_sec;
    bucket_size = bucket.bucket_size;
    rate = bucket.rate;
  };
}

-- Deletes the first key of the map: the one that was used least recently.
unfoldable pub evict_lru : List (Str × KeyBuckets) → List (Str × KeyBuckets)
evict_lru [] = []
evict_lru ((k, b) ∷ m) = delete k ((k, b) ∷ m)

-- Whether the key has limits of its own for the class.
unfoldable pub has_limit : RateClass → ApiKey → Bool
has_limit bulk key = is_some key.bulk_rate && is_some key.bulk_bucket
has_limit single key = is_some key.single_rate && is_some key.single_bucket

unfoldable pub new_key_buckets : ℕ → ApiKey → List (Str × ℕ) → KeyBuckets
new_key_buckets now key config = record {
  bulk_bucket =
      TokenBucket.create now (Option.get_or key.bulk_rate (setting (lit "bulk_rate") config))
        (Option.get_or key.bulk_bucket (setting (lit "bulk_bucket_size") config));
  single_bucket =
      TokenBucket.create now (Option.get_or key.single_rate (setting (lit "single_rate") config))
        (Option.get_or key.single_bucket (setting (lit "single_bucket_size") config));
}

abbrev pub bucket_of : RateClass → KeyBuckets → TokenBucket
bucket_of bulk b = b.bulk_bucket
bucket_of single b = b.single_bucket

abbrev pub set_bucket : RateClass → TokenBucket → KeyBuckets → KeyBuckets
set_bucket bulk bucket b = record b { bulk_bucket = bucket }
set_bucket single bucket b = record b { single_bucket = bucket }

-- The steps of `doPurge` on the bucket of the class, before and after the call of the upstream.
unfoldable pub start_purge : ℕ → ℤ → TokenBucket → Option PurgeResult × TokenBucket
start_purge now tokens bucket =
    let (bucket', result) = TokenBucket.consume now tokens bucket in
    (if result.allowed then none else some (build_rate_limit_result bucket' result), bucket')

-- The state of the bucket in a result.
unfoldable pub read_info : ℕ → TokenBucket → RateLimitInfo × TokenBucket
read_info now bucket =
    let (bucket', remaining) = TokenBucket.get_remaining now bucket in
    let (bucket'', seconds) = TokenBucket.get_seconds_until_refill now bucket' in
    (
      record {
        remaining = remaining;
        seconds_until_refill = seconds;
        bucket_size = bucket''.bucket_size;
        rate = bucket''.rate;
      },
      bucket'',
    )

unfoldable pub finish_purge : ℕ → UpstreamOutcome → TokenBucket → PurgeResult × TokenBucket
finish_purge now failed bucket =
    let (info, bucket') = read_info now bucket in
    (
      record { status = 502; collapsed = false; reached_upstream = false; rate_limit_info = info },
      bucket',
    )
finish_purge now (answered status retry_after) bucket =
    let (info, bucket') = read_info now bucket in
    if status == 429
    then (
      record {
        status = 429;
        collapsed = false;
        reached_upstream = true;
        rate_limit_info = record {
          remaining = 0;
          seconds_until_refill = Option.get_or retry_after default_retry_after_sec;
          bucket_size = bucket.bucket_size;
          rate = bucket.rate;
        };
      },
      TokenBucket.drain now bucket,
    )
    else (
      record {
        status = status;
        collapsed = false;
        reached_upstream = true;
        rate_limit_info = info;
      },
      bucket',
    )

-- `if (tokens <= 0) tokens = 1`
unfoldable pub positive_tokens : ℤ → ℤ
positive_tokens (pos zero) = pos 1
positive_tokens (pos (suc n)) = pos (suc n)
positive_tokens (negsuc n) = pos 1

module _ (js : Runtime) (parse : Str → Option PolicyDocument) (stringify : PolicyDocument → Str)
    (ttl : ℕ) (numbers : Numbers ℕ) (inherited : Str → Bool) (env : Str → Option Str) where
  -- `rateClass === 'single' ? this.singleBucket : this.bulkBucket`
  unfoldable pub account_ref : RateClass → Gatekeeper js → ℕ
  account_ref bulk g = g.bulk_bucket
  account_ref single g = g.single_bucket

  unfoldable pub put_bucket : ℕ → TokenBucket → Gatekeeper js → Gatekeeper js
  put_bucket ref bucket g = record g { buckets = λ i. if i == ref then bucket else g.buckets i }

  -- The buckets of a key, made if there are none, as the last entry of the map.
  unfoldable pub touch_key_buckets : ℕ → Str → ApiKey → Gatekeeper js → KeyBuckets × Gatekeeper js
  touch_key_buckets now id key g = elim (lookup id g.key_buckets) [
    | none ↦
        let kept =
          if leb max_key_buckets (length g.key_buckets)
          then evict_lru g.key_buckets
          else g.key_buckets in
        let (config, config') = get_config numbers env g.config in
        let buckets = new_key_buckets now key config in
        (buckets, record g { config = config'; key_buckets = insert id buckets kept })
    | some buckets ↦
        (buckets, record g { key_buckets = insert id buckets (delete id g.key_buckets) })
  ]

  -- The consumption from the bucket of a key, which stays in its place in the map.
  unfoldable pub consume_key_bucket :
      ℕ → Str → RateClass → ℤ → KeyBuckets → Gatekeeper js → Option PurgeResult × Gatekeeper js
  consume_key_bucket now id class tokens buckets g =
      let (refused, bucket) = start_purge now tokens (bucket_of class buckets) in
      (
        refused,
        record g { key_buckets = insert id (set_bucket class bucket buckets) g.key_buckets },
      )

  unfoldable pub check_per_key_rate_limit :
      ℕ → Str → RateClass → ℤ → Gatekeeper js → Option PurgeResult × Gatekeeper js
  check_per_key_rate_limit now id class tokens g = elim (get_key js parse stringify ttl id g.iam) [
    | none ↦ (none, g)
    | some key ↦
        let (buckets, g') = touch_key_buckets now id key g in
        if not (has_limit class key)
        then (none, g)
        else consume_key_bucket now id class tokens buckets g'
  ]

  -- `if (keyId)`: a missing or empty id has no limits.
  unfoldable pub check_key :
      ℕ → Option Str → RateClass → ℤ → Gatekeeper js → Option PurgeResult × Gatekeeper js
  check_key now none class tokens g = (none, g)
  check_key now (some []) class tokens g = (none, g)
  check_key now (some (c ∷ s)) class tokens g = check_per_key_rate_limit now (c ∷ s) class tokens g

  -- `purge` and `doPurge` up to the call of the upstream, for a leader.
  unfoldable pub begin_purge :
      ℕ → Option Str → RateClass → ℤ → Gatekeeper js → Begun × Gatekeeper js
  begin_purge now key_id class tokens g =
      let (key_refused, g') = check_key now key_id class (positive_tokens tokens) g in
      let ref = account_ref class g' in
      let (over, bucket) = start_purge now (positive_tokens tokens) (g'.buckets ref) in
      elim key_refused [
        | some result ↦ (stops result, g')
        | none ↦ (
          elim over [ some result ↦ stops result | none ↦ calls_upstream ref ],
          put_bucket ref bucket g',
        )
      ]

  -- `doPurge` behind the call of the upstream, with the bucket that it holds.
  unfoldable pub end_purge : ℕ → ℕ → UpstreamOutcome → Gatekeeper js → PurgeResult × Gatekeeper js
  end_purge now ref outcome g =
      let (result, bucket) = finish_purge now outcome (g.buckets ref) in
      (result, put_bucket ref bucket g)

  unfoldable pub changed : TokenBucket → ℕ → ℕ → Bool
  changed bucket rate size = not (bucket.rate == rate) || not (bucket.bucket_size == size)

  -- A bucket of the rate and the size: the old one, if they are its own.
  unfoldable pub rebuilt : ℕ → ℕ → ℕ → TokenBucket → TokenBucket
  rebuilt now rate size bucket =
      if changed bucket rate size then TokenBucket.create now rate size else bucket

  -- The number of the account's bucket after a rebuild: a new bucket, unless it is the same.
  unfoldable pub replaced : ℕ → ℕ → ℕ → ℕ → Gatekeeper js → ℕ × Gatekeeper js
  replaced now rate size ref g =
      if changed (g.buckets ref) rate size
      then (
        g.next_bucket,
        record (put_bucket g.next_bucket (TokenBucket.create now rate size) g) {
          next_bucket = g.next_bucket + 1;
        },
      )
      else (ref, g)

  unfoldable pub rebuild_buckets : ℕ → Gatekeeper js → Gatekeeper js
  rebuild_buckets now g =
      let (config, config') = get_config numbers env g.config in
      let bulk_rate = setting (lit "bulk_rate") config in
      let bulk_size = setting (lit "bulk_bucket_size") config in
      let single_rate = setting (lit "single_rate") config in
      let single_size = setting (lit "single_bucket_size") config in
      let (bulk_ref, with_bulk) = replaced now bulk_rate bulk_size g.bulk_bucket g in
      let (single_ref, with_single) =
        replaced now single_rate single_size g.single_bucket with_bulk in
      record g {
        config = config';
        buckets = with_single.buckets;
        next_bucket = with_single.next_bucket;
        bulk_bucket = bulk_ref;
        single_bucket = single_ref;
        s3_bucket =
            rebuilt now (setting (lit "s3_rps") config) (setting (lit "s3_burst") config)
              g.s3_bucket;
        cf_proxy_bucket =
            rebuilt now (setting (lit "cf_proxy_rps") config)
              (setting (lit "cf_proxy_burst") config) g.cf_proxy_bucket;
        key_buckets =
            if changed (g.buckets g.bulk_bucket) bulk_rate bulk_size
              || changed (g.buckets g.single_bucket) single_rate single_size
            then []
            else g.key_buckets;
      }

  -- The methods that a request calls: the buckets of the account.
  unfoldable pub consume : ℕ → RateClass → ℤ → Gatekeeper js → ConsumeResult × Gatekeeper js
  consume now class count g =
      let ref = account_ref class g in
      let (bucket, result) = TokenBucket.consume now count (g.buckets ref) in
      (result, put_bucket ref bucket g)

  unfoldable pub get_rate_limit_info : ℕ → RateClass → Gatekeeper js → RateLimitInfo × Gatekeeper js
  get_rate_limit_info now class g =
      let ref = account_ref class g in
      let (info, bucket) = read_info now (g.buckets ref) in (info, put_bucket ref bucket g)

  unfoldable pub drain_bucket : ℕ → RateClass → Gatekeeper js → Gatekeeper js
  drain_bucket now class g =
      let ref = account_ref class g in put_bucket ref (TokenBucket.drain now (g.buckets ref)) g

  unfoldable pub consume_s3_rate_limit : ℕ → Gatekeeper js → ConsumeResult × Gatekeeper js
  consume_s3_rate_limit now g =
      let (bucket, result) = TokenBucket.consume now (pos 1) g.s3_bucket in
      (result, record g { s3_bucket = bucket })

  unfoldable pub consume_cf_proxy_rate_limit : ℕ → Gatekeeper js → ConsumeResult × Gatekeeper js
  consume_cf_proxy_rate_limit now g =
      let (bucket, result) = TokenBucket.consume now (pos 1) g.cf_proxy_bucket in
      (result, record g { cf_proxy_bucket = bucket })

  unfoldable pub drain_cf_proxy_bucket : ℕ → Gatekeeper js → Gatekeeper js
  drain_cf_proxy_bucket now g = record g {
    cf_proxy_bucket = TokenBucket.drain now g.cf_proxy_bucket;
  }

  -- The numbers of keys and credentials revoked and of tokens and endpoints deleted.
  unfoldable pub cleanup_expired : ℕ → Gatekeeper js → (ℕ × ℕ × ℕ × ℕ) × Gatekeeper js
  cleanup_expired now g =
      let (keys, iam) = revoke_expired js parse key_credential ttl now g.iam in
      let (creds, s3_iam) = revoke_expired js parse s3_credential ttl now g.s3_iam in
      let (tokens, upstream_tokens) = Registry.delete_expired token_entry now g.upstream_tokens in
      let (endpoints, upstream_r2) = Registry.delete_expired r2_entry now g.upstream_r2 in
      (
        (keys, creds, tokens, endpoints),
        record g {
          iam = iam;
          s3_iam = s3_iam;
          upstream_tokens = upstream_tokens;
          upstream_r2 = upstream_r2;
        },
      )

  -- `setConfig`; an error leaves the buckets as they are.
  unfoldable pub change_config :
      ℕ → Option Str → List (Str × ℕ) → Gatekeeper js → Option ConfigError × Gatekeeper js
  change_config now by updates g =
      let (error, config) = set_config numbers inherited now by updates g.config in
      let g' = record g { config = config } in
      elim error [ some thrown ↦ (some thrown, g') | none ↦ (none, rebuild_buckets now g') ]

  unfoldable pub reset_config_key :
      ℕ → Str → Gatekeeper js → Option ConfigError × Bool × Gatekeeper js
  reset_config_key now key g =
      let (error, gone, config) = reset_key numbers inherited key g.config in
      let g' = record g { config = config } in
      elim error [
        | some thrown ↦ (some thrown, false, g')
        | none ↦ (none, gone, if gone then rebuild_buckets now g' else g')
      ]
