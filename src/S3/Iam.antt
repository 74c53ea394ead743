-- ===== src/S3/Iam.antt =====
-- `S3CredentialManager` of src/s3/iam.ts over the manager of credentials. The generated key id and
-- secret are the arguments `fresh` and `secret`; an INSERT whose primary key is taken throws. Of
-- equal creation times the list keeps the order of the table.
pub mod Secrets
pub mod Access
pub mod Listing
pub mod Rotation
mod Tests
use purge_api_gateway.Base.{
  List, [], ◌∷◌, ◌++◌, Bool, true, false, not, ◌&&◌, ◌||◌, ℕ, leb, ltb, map, Option, none, some,
  Str, str_eq, lit, delete, if◌then◌else◌, refl,
}
use mathlib.Core.Option
use purge_api_gateway.Policy.Runtime.{Runtime}
use purge_api_gateway.Policy.Types.{PolicyDocument, RequestContext}
use purge_api_gateway.Credentials.Table.{find, update_where, select_where, count_where}
use purge_api_gateway.Credentials.Ordered.{newest_first}
use purge_api_gateway.Credentials.Types.{Credential, CachedEntry, AuthResult}
use purge_api_gateway.Credentials.Manager.{
  Manager, is_expired, get_cached_or_load, authorize_with_contexts, revoke_by_id,
}
use purge_api_gateway.Credentials.Keys.{
  RotateOverrides, Result, ok, throws, expiry, join_by_comma_space, bound_to, is_some,
}

pub record S3Credential : Type 0 where
  pub access_key_id : Str
  pub secret_access_key : Str
  pub name : Str
  pub created_at : ℕ
  pub expires_at : Option ℕ
  -- 0 and 1 in the source
  pub revoked : Bool
  pub policy : Str
  pub created_by : Option Str
  pub upstream_token_id : Option Str

pub record CreateS3CredentialRequest : Type 0 where
  pub name : Str
  pub policy : PolicyDocument
  pub expires_in_days : Option ℕ
  pub created_by : Option Str
  pub upstream_token_id : Str

-- A missing property is `none`; an expiry that is null is `some none`.
pub record CredentialUpdates : Type 0 where
  pub name : Option Str
  pub expires_at : Option (Option ℕ)

pub data StatusFilter : Type 0 where
  any_status only_active only_revoked : StatusFilter

abbrev pub s3_credential : Credential S3Credential
s3_credential = record {
  id = λ c. c.access_key_id;
  name = λ c. c.name;
  is_revoked = λ c. c.revoked;
  expires_at = λ c. c.expires_at;
  policy = λ c. c.policy;
  mark_revoked = λ c. record c { revoked = true };
  invalid_message = lit "Invalid S3 credential";
  revoked_message = lit "S3 credential has been revoked";
  expired_message = lit "S3 credential has expired";
  denied_message = λ denied. lit "Access denied: " ++ join_by_comma_space denied;
  id-mark_revoked = λ c. refl;
  policy-mark_revoked = λ c. refl;
  is_revoked-mark_revoked = λ c. refl;
}

-- SELECT …, '***' as secret_access_key, …
unfoldable pub redact : S3Credential → S3Credential
redact c = record c { secret_access_key = lit "***" }

unfoldable pub new_credential :
    (PolicyDocument → Str) → Str → Str → ℕ → CreateS3CredentialRequest → S3Credential
new_credential stringify fresh secret now req = record {
  access_key_id = fresh;
  secret_access_key = secret;
  name = req.name;
  created_at = now;
  expires_at = expiry now req.expires_in_days;
  revoked = false;
  policy = stringify req.policy;
  created_by = req.created_by;
  upstream_token_id = some req.upstream_token_id;
}

-- The request that a rotation makes from the old credential.
unfoldable pub successor_request :
    S3Credential → PolicyDocument → RotateOverrides → CreateS3CredentialRequest
successor_request row policy overrides = record {
  name = Option.get_or overrides.name (row.name ++ lit " (rotated)");
  policy = policy;
  expires_in_days = overrides.expires_in_days;
  created_by = row.created_by;
  upstream_token_id = Option.get_or row.upstream_token_id [];
}

unfoldable pub set_columns : CredentialUpdates → S3Credential → S3Credential
set_columns u c = record c {
  name = Option.get_or u.name c.name;
  expires_at = Option.get_or u.expires_at c.expires_at;
}

-- The WHERE clause of a filter: `revoked = 0 AND (expires_at IS NULL OR expires_at > ?)`.
abbrev pub unexpired_at : ℕ → Option ℕ → Bool
unexpired_at now none = true
unexpired_at now (some e) = ltb now e

unfoldable pub has_status : StatusFilter → ℕ → S3Credential → Bool
has_status any_status now c = true
has_status only_active now c = not c.revoked && unexpired_at now c.expires_at
has_status only_revoked now c = c.revoked

-- `${ctx.action} on ${ctx.resource}`
abbrev pub action_on_resource : RequestContext → Str
action_on_resource ctx = ctx.action ++ (lit " on " ++ ctx.resource)

-- `if (token) result.upstreamTokenId = token`
abbrev pub attach_token : Option Str → AuthResult → AuthResult
attach_token none result = result
attach_token (some []) result = result
attach_token (some (c ∷ s)) result = record result { upstream_token_id = some (c ∷ s) }

abbrev pub token_of : Option (CachedEntry S3Credential) → Option Str
token_of none = none
token_of (some entry) = entry.entity.upstream_token_id

-- The secret of a loaded credential, if it may be used.
unfoldable pub usable_secret : ℕ → Option (CachedEntry S3Credential) → Option Str
usable_secret now none = none
usable_secret now (some entry) =
    if entry.entity.revoked
    then none
    else if is_expired entry.entity.expires_at now
    then none
    else some entry.entity.secret_access_key

module _ (js : Runtime) (parse : Str → Option PolicyDocument) (stringify : PolicyDocument → Str)
    (ttl : ℕ) where
  abbrev pub Credentials : Type 0
  Credentials = Manager js S3Credential

  unfoldable pub load_from_sql : Str → Credentials → Option S3Credential
  load_from_sql id m = find (λ c. c.access_key_id) id m.table

  unfoldable pub get_credential : Str → Credentials → Option S3Credential
  get_credential id m = Option.map redact (load_from_sql id m)

  unfoldable pub create_credential :
      Str → Str → ℕ → CreateS3CredentialRequest → Credentials → Result (S3Credential × Credentials)
  create_credential fresh secret now req m = elim (load_from_sql fresh m) [
    | some taken ↦ throws
    | none ↦
        let c = new_credential stringify fresh secret now req in
        ok (c, record m { table = m.table ++ c ∷ [] })
  ]

  -- The end of `rotateCredential`: create the new one, then revoke the old one.
  unfoldable pub replace_credential :
      Str
      → Str
      → ℕ
      → S3Credential
      → CreateS3CredentialRequest
      → Credentials
      → Result (Option (S3Credential × S3Credential) × Credentials)
  replace_credential fresh secret now old req m = elim (create_credential fresh secret now req m) [
    | throws ↦ throws
    | ok (c, m') ↦ ok (
      some (record old { revoked = true; secret_access_key = lit "***" }, c),
      (revoke_by_id js parse s3_credential ttl old.access_key_id m').1,
    )
  ]

  unfoldable pub rotate_credential :
      Str
      → Str
      → Str
      → ℕ
      → RotateOverrides
      → Credentials
      → Result (Option (S3Credential × S3Credential) × Credentials)
  rotate_credential fresh secret id now overrides m = elim (load_from_sql id m) [
    | none ↦ ok (none, m)
    | some row ↦
        if row.revoked || is_expired row.expires_at now
        then ok (none, m)
        else elim (parse row.policy) [
          | none ↦ ok (none, m)
          | some policy ↦
              replace_credential fresh secret now row (successor_request row policy overrides) m
        ]
  ]

  unfoldable pub write_columns : Str → CredentialUpdates → Credentials → Credentials
  write_columns id u m = record m {
    table = update_where (λ c. str_eq c.access_key_id id) (set_columns u) m.table;
    cache = delete id m.cache;
  }

  unfoldable pub update_credential :
      Str → CredentialUpdates → Credentials → Option S3Credential × Credentials
  update_credential id u m = elim (get_credential id m) [
    | none ↦ (none, m)
    | some c ↦
        if c.revoked
        then (none, m)
        else if is_some u.name || is_some u.expires_at
        then (get_credential id (write_columns id u m), write_columns id u m)
        else (some c, m)
  ]

  unfoldable pub count_credentials_by_upstream_token : Str → Credentials → ℕ
  count_credentials_by_upstream_token token m =
      count_where (λ c. bound_to token c.upstream_token_id && not c.revoked) m.table

  unfoldable pub list_credentials : StatusFilter → ℕ → Credentials → List S3Credential
  list_credentials filter now m = map redact (
      newest_first (λ (c : S3Credential). c.created_at)
        (select_where (has_status filter now) m.table))

  unfoldable pub get_secret_for_auth : ℕ → Str → Credentials → Option Str × Credentials
  get_secret_for_auth now id m =
      let (entry, m') = get_cached_or_load js parse s3_credential ttl now id m in
      (usable_secret now entry, m')

  unfoldable pub authorize_credential :
      ℕ → Str → List RequestContext → Credentials → AuthResult × Credentials
  authorize_credential now id ctxs m =
      let (result, m') =
        authorize_with_contexts js parse s3_credential ttl now id ctxs action_on_resource m in
      let (entry, m'') = get_cached_or_load js parse s3_credential ttl now id m' in
      if result.authorized then (attach_token (token_of entry) result, m'') else (result, m')
