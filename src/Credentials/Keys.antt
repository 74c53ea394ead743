-- ===== src/Credentials/Keys.antt =====
-- `IamManager` of src/iam.ts: API keys. Generated key ids are the argument `fresh`; an INSERT whose
-- primary key is taken throws. Rates and bucket sizes are whole numbers. Column migrations and log
-- lines are left out.
pub mod Listing
pub mod Access
pub mod Lifecycle
pub mod Inheritance
pub mod Rotation
pub mod Updates
pub mod Succession
pub mod Outcome
use purge_api_gateway.Base.{
  List, [], ◌∷◌, ◌++◌, Bool, true, false, not, ◌&&◌, ◌||◌, ℕ, zero, suc, ◌+◌, ◌*◌, Option, none,
  some, Str, str_eq, lit, delete, if◌then◌else◌, ◌≡◌, refl,
}
use mathlib.Core.Option
use purge_api_gateway.Policy.Runtime.{Runtime}
use purge_api_gateway.Policy.Types.{PolicyDocument, RequestContext, Fields}
use purge_api_gateway.Credentials.Table.{find, update_where, count_where}
use purge_api_gateway.Credentials.Types.{Credential, CachedEntry, AuthResult}
use purge_api_gateway.Credentials.PurgeContexts.{
  ParsedUrl, PurgeBody, purge_body_to_contexts, format_denied_context,
}
use purge_api_gateway.Credentials.Manager.{
  Manager, refusal, is_expired, get_cached_or_load, authorize_by_policy, revoke_by_id,
}

pub record ApiKey : Type 0 where
  pub id : Str
  pub name : Str
  pub zone_id : Option Str
  pub created_at : ℕ
  pub expires_at : Option ℕ
  -- 0 and 1 in the source
  pub revoked : Bool
  pub policy : Str
  pub created_by : Option Str
  pub bulk_rate : Option ℕ
  pub bulk_bucket : Option ℕ
  pub single_rate : Option ℕ
  pub single_bucket : Option ℕ
  pub upstream_token_id : Option Str

pub record RateLimits : Type 0 where
  pub bulk_rate : Option ℕ
  pub bulk_bucket : Option ℕ
  pub single_rate : Option ℕ
  pub single_bucket : Option ℕ

pub record CreateKeyRequest : Type 0 where
  pub name : Str
  pub zone_id : Option Str
  pub expires_in_days : Option ℕ
  pub policy : PolicyDocument
  pub created_by : Option Str
  pub rate_limit : Option RateLimits
  pub upstream_token_id : Str

pub record RotateOverrides : Type 0 where
  pub name : Option Str
  pub expires_in_days : Option ℕ

-- A missing property is `none`; a property that is null is `some none`.
pub record KeyUpdates : Type 0 where
  pub name : Option Str
  pub expires_at : Option (Option ℕ)
  pub bulk_rate : Option (Option ℕ)
  pub bulk_bucket : Option (Option ℕ)
  pub single_rate : Option (Option ℕ)
  pub single_bucket : Option (Option ℕ)

abbrev pub ms_per_day : ℕ
ms_per_day = 86400000

abbrev pub join_by_comma_space : List Str → Str
join_by_comma_space [] = []
join_by_comma_space (s ∷ []) = s
join_by_comma_space (s ∷ t ∷ rest) = s ++ (lit ", " ++ join_by_comma_space (t ∷ rest))

-- The abstract members of the manager, for API keys.
abbrev pub key_credential : Credential ApiKey
key_credential = record {
  id = λ k. k.id;
  name = λ k. k.name;
  is_revoked = λ k. k.revoked;
  expires_at = λ k. k.expires_at;
  policy = λ k. k.policy;
  mark_revoked = λ k. record k { revoked = true };
  invalid_message = lit "Invalid API key";
  revoked_message = lit "API key has been revoked";
  expired_message = lit "API key has expired";
  denied_message = λ denied. lit "Key does not have scope for: " ++ join_by_comma_space denied;
  id-mark_revoked = λ k. refl;
  policy-mark_revoked = λ k. refl;
  is_revoked-mark_revoked = λ k. refl;
}

-- `expires_in_days ? now + expires_in_days * MS_PER_DAY : null`
unfoldable pub expiry : ℕ → Option ℕ → Option ℕ
expiry now none = none
expiry now (some zero) = none
expiry now (some (suc d)) = some (now + suc d * ms_per_day)

-- A key without a zone, or with the empty one, serves every zone.
unfoldable pub zone_mismatch : Option Str → Str → Bool
zone_mismatch none zone = false
zone_mismatch (some z) zone = not (str_eq z []) && not (str_eq z zone)

abbrev pub is_some {ℓ} : {A : Type ℓ} → Option A → Bool
is_some none = false
is_some (some n) = true

-- `rl?.field ?? null`
abbrev pub limit_of : (RateLimits → Option ℕ) → Option RateLimits → Option ℕ
limit_of field none = none
limit_of field (some limits) = field limits

-- The limits that a rotation passes on: all four if one of the rates is set, otherwise none.
unfoldable pub inherited_limits : ApiKey → Option RateLimits
inherited_limits key =
    if is_some key.bulk_rate || is_some key.single_rate
    then some (record {
      bulk_rate = key.bulk_rate;
      bulk_bucket = key.bulk_bucket;
      single_rate = key.single_rate;
      single_bucket = key.single_bucket;
    })
    else none

unfoldable pub has_update : KeyUpdates → Bool
has_update u =
    is_some u.name
    || (is_some u.expires_at
        || (is_some u.bulk_rate
            || (is_some u.bulk_bucket || (is_some u.single_rate || is_some u.single_bucket))))

-- UPDATE api_keys SET … of the columns that the updates name.
unfoldable pub apply_updates : KeyUpdates → ApiKey → ApiKey
apply_updates u key = record key {
  name = Option.get_or u.name key.name;
  expires_at = Option.get_or u.expires_at key.expires_at;
  bulk_rate = Option.get_or u.bulk_rate key.bulk_rate;
  bulk_bucket = Option.get_or u.bulk_bucket key.bulk_bucket;
  single_rate = Option.get_or u.single_rate key.single_rate;
  single_bucket = Option.get_or u.single_bucket key.single_bucket;
}

-- `throws` is the exception of a failed INSERT.
pub data Result (A : Type 0) : Type 0 where
  ok : A → Result A
  throws : Result A

-- The key that `createKey` returns.
unfoldable pub new_key : (PolicyDocument → Str) → Str → ℕ → CreateKeyRequest → ApiKey
new_key stringify fresh now req = record {
  id = fresh;
  name = req.name;
  zone_id = req.zone_id;
  created_at = now;
  expires_at = expiry now req.expires_in_days;
  revoked = false;
  policy = stringify req.policy;
  created_by = req.created_by;
  bulk_rate = limit_of (λ l. l.bulk_rate) req.rate_limit;
  bulk_bucket = limit_of (λ l. l.bulk_bucket) req.rate_limit;
  single_rate = limit_of (λ l. l.single_rate) req.rate_limit;
  single_bucket = limit_of (λ l. l.single_bucket) req.rate_limit;
  upstream_token_id = some req.upstream_token_id;
}

-- The row that `createKey` inserts.
unfoldable pub inserted_row : (PolicyDocument → Str) → Str → ℕ → CreateKeyRequest → ApiKey
inserted_row stringify fresh now req = record {
  id = fresh;
  name = req.name;
  zone_id = req.zone_id;
  created_at = now;
  expires_at = expiry now req.expires_in_days;
  revoked = false;
  bulk_rate = limit_of (λ l. l.bulk_rate) req.rate_limit;
  bulk_bucket = limit_of (λ l. l.bulk_bucket) req.rate_limit;
  single_rate = limit_of (λ l. l.single_rate) req.rate_limit;
  single_bucket = limit_of (λ l. l.single_bucket) req.rate_limit;
  policy = stringify req.policy;
  created_by = req.created_by;
  upstream_token_id = some req.upstream_token_id;
}

-- The request that a rotation makes from the old key.
unfoldable pub rotation_request : ApiKey → PolicyDocument → RotateOverrides → CreateKeyRequest
rotation_request key policy overrides = record {
  name = Option.get_or overrides.name (key.name ++ lit " (rotated)");
  zone_id = key.zone_id;
  expires_in_days = overrides.expires_in_days;
  policy = policy;
  created_by = key.created_by;
  rate_limit = inherited_limits key;
  upstream_token_id = Option.get_or key.upstream_token_id [];
}

-- `upstream_token_id = ?`
abbrev pub bound_to : Str → Option Str → Bool
bound_to token none = false
bound_to token (some t) = str_eq t token

module _ (js : Runtime) (parse : Str → Option PolicyDocument) (stringify : PolicyDocument → Str)
    (ttl : ℕ) where
  abbrev pub Keys : Type 0
  Keys = Manager js ApiKey

  unfoldable pub get_key : Str → Keys → Option ApiKey
  get_key id m = find (λ k. k.id) id m.table

  unfoldable pub create_key : Str → ℕ → CreateKeyRequest → Keys → Result (ApiKey × Keys)
  create_key fresh now req m = elim (get_key fresh m) [
    | some taken ↦ throws
    | none ↦ ok (
      new_key stringify fresh now req,
      record m { table = m.table ++ inserted_row stringify fresh now req ∷ [] },
    )
  ]

  -- The end of `rotateKey`: create the new key, then revoke the old one.
  unfoldable pub replace_key :
      Str → ℕ → ApiKey → CreateKeyRequest → Keys → Result (Option (ApiKey × ApiKey) × Keys)
  replace_key fresh now old req m = elim (create_key fresh now req m) [
    | throws ↦ throws
    | ok (key, m') ↦ ok (
      some (record old { revoked = true }, key),
      (revoke_by_id js parse key_credential ttl old.id m').1,
    )
  ]

  unfoldable pub rotate_key :
      Str → Str → ℕ → RotateOverrides → Keys → Result (Option (ApiKey × ApiKey) × Keys)
  rotate_key fresh id now overrides m = elim (get_key id m) [
    | none ↦ ok (none, m)
    | some old ↦
        if old.revoked || is_expired old.expires_at now
        then ok (none, m)
        else elim (parse old.policy) [
          | none ↦ ok (none, m)
          | some policy ↦ replace_key fresh now old (rotation_request old policy overrides) m
        ]
  ]

  unfoldable pub write_updates : Str → KeyUpdates → Keys → Keys
  write_updates id updates m = record m {
    table = update_where (λ k. str_eq k.id id) (apply_updates updates) m.table;
    cache = delete id m.cache;
  }

  unfoldable pub update_key : Str → KeyUpdates → Keys → Option ApiKey × Keys
  update_key id updates m = elim (get_key id m) [
    | none ↦ (none, m)
    | some key ↦
        if key.revoked
        then (none, m)
        else if has_update updates
        then (get_key id (write_updates id updates m), write_updates id updates m)
        else (some key, m)
  ]

  unfoldable pub count_keys_by_upstream_token : Str → Keys → ℕ
  count_keys_by_upstream_token token m =
      count_where (λ k. bound_to token k.upstream_token_id && not k.revoked) m.table

  -- The checks of `authorize` on a loaded key, in the order of the source.
  unfoldable pub authorize_key :
      ℕ → Str → List RequestContext → Option (CachedEntry ApiKey) → Keys → AuthResult × Keys
  authorize_key now zone ctxs none m = (refusal (lit "Invalid API key"), m)
  authorize_key now zone ctxs (some entry) m =
      if entry.entity.revoked
      then (refusal (lit "API key has been revoked"), m)
      else if is_expired entry.entity.expires_at now
      then (refusal (lit "API key has expired"), m)
      else if zone_mismatch entry.entity.zone_id zone
      then (refusal (lit "API key is not authorized for this zone"), m)
      else authorize_by_policy js parse key_credential ttl entry.resolved_policy
          format_denied_context ctxs
          (record {
            authorized = true;
            error = none;
            denied = none;
            key_name = some entry.entity.name;
            upstream_token_id = entry.entity.upstream_token_id;
          })
          m

  unfoldable pub authorize : ℕ → Str → Str → List RequestContext → Keys → AuthResult × Keys
  authorize now id zone ctxs m =
      let (entry, m') = get_cached_or_load js parse key_credential ttl now id m in
      authorize_key now zone ctxs entry m'

  unfoldable pub authorize_from_body :
      (Str → Option ParsedUrl) → ℕ → Str → Str → PurgeBody → Fields → Keys → AuthResult × Keys
  authorize_from_body parse_url now id zone body extra m =
      authorize now id zone (purge_body_to_contexts parse_url zone extra body) m
