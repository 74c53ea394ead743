-- ===== src/Credentials/Tests.antt =====
-- The theorems of the managers at concrete keys.
use purge_api_gateway.Base.{
  [], ◌∷◌, false, ◌≡◌, refl, Option, none, some, Str, str_eq, lit, lookup, delete, ◌↔◌,
}
use mathlib.Core.Option.{none-ne-some}
use purge_api_gateway.Policy.Types.{PolicyDocument}
use purge_api_gateway.Policy.Sample.{
  literal_patterns, nothing_compiled, purger, purger-IsShallow, request,
}
use purge_api_gateway.Credentials.Table.{find, update_where}
use purge_api_gateway.Credentials.Manager.{
  Manager, resolve_policy, get_cached_or_load, is_expired, authorize_with_contexts, revoke_by_id,
  delete_by_id, revoke_expired,
}
use purge_api_gateway.Credentials.Manager.Cache.{
  IsConsistent, IsCurrent, get_cached_or_load-IsCurrent,
}
use purge_api_gateway.Credentials.Manager.Authorize.{
  Outcome, Grants, authorize_with_contexts-Outcome,
}
use purge_api_gateway.Credentials.Manager.Effects.{
  authorize-revoke_by_id, authorize-delete_by_id, revoke_expired-IsConsistent,
}
use purge_api_gateway.Credentials.PurgeContexts.{
  plain, PurgeBody, ParsedUrl, purge_body_to_contexts, format_denied_context,
}
use purge_api_gateway.Credentials.PurgeContexts.Laws.{
  NameAll, targets, purge_body_to_contexts-NameAll,
}
use purge_api_gateway.Credentials.Keys.{
  ApiKey, CreateKeyRequest, RotateOverrides, KeyUpdates, ok, key_credential, new_key, inserted_row,
  get_key, create_key, rotate_key, update_key, write_updates, apply_updates, has_update, authorize,
}
use purge_api_gateway.Credentials.Keys.Access.{KeyGrants, authorize-Outcome}
use purge_api_gateway.Credentials.Keys.Lifecycle.{RoundTrips, Created, create_key-Created}
use purge_api_gateway.Credentials.Keys.Rotation.{Rotated, rotate_key-Rotated}
use purge_api_gateway.Credentials.Keys.Succession.{rotate_key-KeyGrants, rotate_key-Completes}
use purge_api_gateway.Credentials.Keys.Outcome.{Ends, rotate_key-Ends}
use purge_api_gateway.Credentials.Keys.Updates.{Updated, update_key-Updated}

-- Every stored text is the one of the policy `purger`.
abbrev parse : Str → Option PolicyDocument
parse s = some purger

abbrev stringify : PolicyDocument → Str
stringify policy = lit "purger"

abbrev key : ApiKey
key = record {
  id = lit "gw_1";
  name = lit "deploy";
  zone_id = some (lit "z1");
  created_at = 1;
  expires_at = some 5000;
  revoked = false;
  policy = lit "purger";
  created_by = none;
  bulk_rate = some 3;
  bulk_bucket = none;
  single_rate = none;
  single_bucket = none;
  upstream_token_id = some (lit "t1");
}

abbrev cold : Manager literal_patterns ApiKey
cold = record { table = key ∷ []; cache = []; regexes = [] }

cold-IsConsistent : IsConsistent literal_patterns parse key_credential 60 cold
unfolding lookup resolve_policy
cold-IsConsistent = record {
  cached = λ k entry e. absurd (none-ne-some _ e);
  regexes = nothing_compiled;
  shallow = λ k row e. purger-IsShallow;
}

-- The manager once the key is in its cache.
abbrev warm : Manager literal_patterns ApiKey
warm = (get_cached_or_load literal_patterns parse key_credential 60 100 (lit "gw_1") cold).1

warm-IsConsistent : IsConsistent literal_patterns parse key_credential 60 warm
warm-IsConsistent =
    (get_cached_or_load-IsCurrent literal_patterns parse key_credential 60 100 (lit "gw_1") cold
      cold-IsConsistent).2

get_cached_or_load-IsCurrent_example :
    IsCurrent literal_patterns parse key_credential 60 warm.table
      (lit "gw_1")
      (get_cached_or_load literal_patterns parse key_credential 60 120 (lit "gw_1") warm).0
    × ((get_cached_or_load literal_patterns parse key_credential 60 120 (lit "gw_1") warm).1.table
        ≡ warm.table)
    × IsConsistent literal_patterns parse key_credential 60
        (get_cached_or_load literal_patterns parse key_credential 60 120 (lit "gw_1") warm).1
get_cached_or_load-IsCurrent_example =
    get_cached_or_load-IsCurrent literal_patterns parse key_credential 60 120 (lit "gw_1") warm
      warm-IsConsistent

authorize-Outcome_example :
    Outcome literal_patterns parse key_credential 60
      (KeyGrants literal_patterns parse stringify 60 warm.table 120
        (lit "gw_1")
        (lit "z1")
        (request ∷ []))
      warm
      (authorize literal_patterns parse stringify 60 120
        (lit "gw_1")
        (lit "z1")
        (request ∷ [])
        warm)
authorize-Outcome_example =
    authorize-Outcome literal_patterns parse stringify 60 120 (lit "gw_1") (lit "z1") (request ∷ [])
      warm warm-IsConsistent

authorize_with_contexts-Outcome_example :
    Outcome literal_patterns parse key_credential 60
      (Grants literal_patterns parse key_credential 60 warm.table 120 (lit "gw_1") (request ∷ []))
      warm
      (authorize_with_contexts literal_patterns parse key_credential 60 120
        (lit "gw_1")
        (request ∷ [])
        format_denied_context
        warm)
authorize_with_contexts-Outcome_example =
    authorize_with_contexts-Outcome literal_patterns parse key_credential 60 120 (lit "gw_1")
      (request ∷ []) format_denied_context warm warm-IsConsistent

authorize-revoke_by_id_example :
    (authorize_with_contexts literal_patterns parse key_credential 60 120
      (lit "gw_1")
      (request ∷ [])
      format_denied_context
      (revoke_by_id literal_patterns parse key_credential 60 (lit "gw_1") warm).1).0.authorized
    ≡ false
authorize-revoke_by_id_example =
    authorize-revoke_by_id literal_patterns parse key_credential 60 (lit "gw_1") warm 120
      (request ∷ []) format_denied_context warm-IsConsistent

authorize-delete_by_id_example :
    (authorize_with_contexts literal_patterns parse key_credential 60 120
      (lit "gw_1")
      (request ∷ [])
      format_denied_context
      (delete_by_id literal_patterns parse key_credential 60 (lit "gw_1") warm).1).0.authorized
    ≡ false
authorize-delete_by_id_example =
    authorize-delete_by_id literal_patterns parse key_credential 60 (lit "gw_1") warm 120
      (request ∷ []) format_denied_context warm-IsConsistent

revoke_expired-IsConsistent_example :
    IsConsistent literal_patterns parse key_credential 60
      (revoke_expired literal_patterns parse key_credential 60 6000 warm).1
revoke_expired-IsConsistent_example =
    revoke_expired-IsConsistent literal_patterns parse key_credential 60 6000 warm warm-IsConsistent

abbrev no_overrides : RotateOverrides
no_overrides = record { name = none; expires_in_days = none }

one_row : find (λ (k : ApiKey). k.id) (lit "gw_1") cold.table ≡ some key
unfolding find str_eq
one_row = refl

free : find (λ (k : ApiKey). k.id) (lit "gw_2") cold.table ≡ none
unfolding find str_eq
free = refl

in_time : is_expired key.expires_at 120 ≡ false
unfolding is_expired
in_time = refl

abbrev rotated :
    (keys : ApiKey × ApiKey) × (m' : Manager literal_patterns ApiKey) × (rotate_key literal_patterns
        parse stringify 60
        (lit "gw_2")
        (lit "gw_1")
        120
        no_overrides
        cold
      ≡ ok (some keys, m'))
rotated =
    rotate_key-Completes literal_patterns parse stringify 60 (lit "gw_2") (lit "gw_1") 120
      no_overrides cold key purger one_row refl in_time refl free

round_trips :
    (s : Str) (policy : PolicyDocument)
    → parse s ≡ some policy
    → RoundTrips literal_patterns parse stringify 60 policy
round_trips s policy e = e

rotate_key-Ends_example :
    Ends literal_patterns parse stringify 60 (lit "gw_2") (lit "gw_1") 120 no_overrides cold (
      rotate_key literal_patterns parse stringify 60
        (lit "gw_2")
        (lit "gw_1")
        120
        no_overrides
        cold)
rotate_key-Ends_example =
    rotate_key-Ends literal_patterns parse stringify 60 (lit "gw_2") (lit "gw_1") 120 no_overrides
      cold cold-IsConsistent round_trips

rotate_key-Rotated_example :
    Rotated literal_patterns parse stringify 60
      (lit "gw_2")
      (lit "gw_1")
      120
      no_overrides
      cold
      rotated.0.0
      rotated.0.1
      rotated.1
rotate_key-Rotated_example =
    rotate_key-Rotated literal_patterns parse stringify 60 (lit "gw_2") (lit "gw_1") 120
      no_overrides cold rotated.0.0 rotated.0.1 rotated.1 cold-IsConsistent round_trips rotated.2

rotate_key-KeyGrants_example :
    (KeyGrants literal_patterns parse stringify 60 cold.table 120
        (lit "gw_1")
        (lit "z1")
        (request ∷ [])
      ↔ KeyGrants literal_patterns parse stringify 60 rotated.1.table 120
          (lit "gw_2")
          (lit "z1")
          (request ∷ []))
    × (¬ KeyGrants literal_patterns parse stringify 60 rotated.1.table 120
        (lit "gw_1")
        (lit "z1")
        (request ∷ []))
rotate_key-KeyGrants_example =
    rotate_key-KeyGrants literal_patterns parse stringify 60 (lit "gw_2") (lit "gw_1") 120
      no_overrides cold rotated.0.0 rotated.0.1 rotated.1 (lit "z1") (request ∷ [])
      cold-IsConsistent round_trips rotated.2

abbrev creation : CreateKeyRequest
creation = record {
  name = lit "ci";
  zone_id = none;
  expires_in_days = some 2;
  policy = purger;
  created_by = none;
  rate_limit = none;
  upstream_token_id = lit "t1";
}

abbrev made : ApiKey
made = new_key stringify (lit "gw_2") 120 creation

creates :
    create_key literal_patterns parse stringify 60 (lit "gw_2") 120 creation cold
    ≡ ok (made, record cold { table = key ∷ made ∷ [] })
unfolding create_key get_key find str_eq new_key inserted_row
creates = refl

create_key-Created_example :
    Created literal_patterns parse stringify 60
      (lit "gw_2")
      120
      creation
      cold
      made
      (record cold { table = key ∷ made ∷ [] })
create_key-Created_example =
    create_key-Created literal_patterns parse stringify 60 (lit "gw_2") 120 creation cold made
      (record cold { table = key ∷ made ∷ [] }) cold-IsConsistent refl purger-IsShallow creates

abbrev renaming : KeyUpdates
renaming = record {
  name = some (lit "release");
  expires_at = some none;
  bulk_rate = none;
  bulk_bucket = none;
  single_rate = none;
  single_bucket = none;
}

abbrev renamed : ApiKey
renamed = record key { name = lit "release"; expires_at = none }

updates :
    update_key literal_patterns parse stringify 60 (lit "gw_1") renaming cold
    ≡ (some renamed, record cold { table = renamed ∷ [] })
unfolding update_key write_updates apply_updates has_update get_key find update_where delete str_eq
updates = refl

update_key-Updated_example :
    Updated literal_patterns parse stringify 60
      (lit "gw_1")
      cold
      renamed
      (record cold { table = renamed ∷ [] })
update_key-Updated_example =
    update_key-Updated literal_patterns parse stringify 60 (lit "gw_1") renaming cold renamed
      (record cold { table = renamed ∷ [] }) cold-IsConsistent updates

-- A URL parser that knows no URL.
abbrev no_url : Str → Option ParsedUrl
no_url s = none

abbrev body : PurgeBody
body = record {
  files = plain (lit "http://a.org/x") ∷ [];
  hosts = lit "a.org" ∷ [];
  tags = [];
  prefixes = [];
  purge_everything = false;
}

purge_body_to_contexts-NameAll_example :
    NameAll (lit "z1") (purge_body_to_contexts no_url (lit "z1") [] body) (targets body)
purge_body_to_contexts-NameAll_example = purge_body_to_contexts-NameAll no_url (lit "z1") [] body
