-- ===== src/S3/Iam/Tests.antt =====
-- The theorems of the S3 credentials at a concrete store.
use purge_api_gateway.Base.{
  [], ◌∷◌, false, ◌≡◌, refl, Option, none, some, Str, str_eq, lit, lookup, ◌↔◌,
}
use mathlib.Core.Option.{none-ne-some}
use purge_api_gateway.Policy.Types.{PolicyDocument}
use purge_api_gateway.Policy.Sample.{
  literal_patterns, nothing_compiled, purger, purger-IsShallow, request,
}
use purge_api_gateway.Credentials.Table.{find}
use purge_api_gateway.Credentials.Manager.{
  Manager, resolve_policy, get_cached_or_load, is_expired, revoke_by_id,
}
use purge_api_gateway.Credentials.Manager.Cache.{IsConsistent, get_cached_or_load-IsCurrent}
use purge_api_gateway.Credentials.Manager.Authorize.{Outcome, Grants}
use purge_api_gateway.Credentials.Keys.{RotateOverrides}
use purge_api_gateway.S3.Iam.{
  S3Credential, s3_credential, only_active, authorize_credential, get_secret_for_auth,
  list_credentials,
}
use purge_api_gateway.S3.Iam.Secrets.{
  Opens, get_secret_for_auth_iff, get_secret_for_auth-revoke_by_id,
}
use purge_api_gateway.S3.Iam.Access.{authorize_credential-Outcome}
use purge_api_gateway.S3.Iam.Listing.{Shown, list_credentials-Shown}
use purge_api_gateway.S3.Iam.Rotation.{Succeeded, rotate_credential-Succeeded}

-- Every stored text is the one of the policy `purger`.
abbrev parse : Str → Option PolicyDocument
parse s = some purger

abbrev stringify : PolicyDocument → Str
stringify policy = lit "purger"

abbrev row : S3Credential
row = record {
  access_key_id = lit "GK1";
  secret_access_key = lit "s";
  name = lit "ci";
  created_at = 1;
  expires_at = some 5000;
  revoked = false;
  policy = lit "purger";
  created_by = none;
  upstream_token_id = some (lit "r2");
}

abbrev cold : Manager literal_patterns S3Credential
cold = record { table = row ∷ []; cache = []; regexes = [] }

cold-IsConsistent : IsConsistent literal_patterns parse s3_credential 60 cold
unfolding lookup resolve_policy
cold-IsConsistent = record {
  cached = λ k entry e. absurd (none-ne-some _ e);
  regexes = nothing_compiled;
  shallow = λ k found e. purger-IsShallow;
}

-- The store once the credential is in its cache.
abbrev warm : Manager literal_patterns S3Credential
warm = (get_cached_or_load literal_patterns parse s3_credential 60 100 (lit "GK1") cold).1

warm-IsConsistent : IsConsistent literal_patterns parse s3_credential 60 warm
warm-IsConsistent =
    (get_cached_or_load-IsCurrent literal_patterns parse s3_credential 60 100 (lit "GK1") cold
      cold-IsConsistent).2

get_secret_for_auth_iff_example :
    (((get_secret_for_auth literal_patterns parse stringify 60 120 (lit "GK1") warm).0
        ≡ some (lit "s"))
      ↔ Opens literal_patterns parse stringify 60 warm.table 120 (lit "GK1") (lit "s"))
    × ((get_secret_for_auth literal_patterns parse stringify 60 120 (lit "GK1") warm).1.table
        ≡ warm.table)
    × IsConsistent literal_patterns parse s3_credential 60
        (get_secret_for_auth literal_patterns parse stringify 60 120 (lit "GK1") warm).1
get_secret_for_auth_iff_example =
    get_secret_for_auth_iff literal_patterns parse stringify 60 120 (lit "GK1") (lit "s") warm
      warm-IsConsistent

get_secret_for_auth-revoke_by_id_example :
    (get_secret_for_auth literal_patterns parse stringify 60 120
      (lit "GK1")
      (revoke_by_id literal_patterns parse s3_credential 60 (lit "GK1") warm).1).0
    ≡ none
get_secret_for_auth-revoke_by_id_example =
    get_secret_for_auth-revoke_by_id literal_patterns parse stringify 60 120 (lit "GK1") warm
      warm-IsConsistent

authorize_credential-Outcome_example :
    Outcome literal_patterns parse s3_credential 60
      (Grants literal_patterns parse s3_credential 60 warm.table 120 (lit "GK1") (request ∷ []))
      warm
      (authorize_credential literal_patterns parse stringify 60 120 (lit "GK1") (request ∷ []) warm)
authorize_credential-Outcome_example =
    authorize_credential-Outcome literal_patterns parse stringify 60 120 (lit "GK1") (request ∷ [])
      warm warm-IsConsistent

list_credentials-Shown_example :
    Shown literal_patterns parse stringify 60 only_active 120 warm.table
      (list_credentials literal_patterns parse stringify 60 only_active 120 warm)
list_credentials-Shown_example =
    list_credentials-Shown literal_patterns parse stringify 60 only_active 120 warm

abbrev no_overrides : RotateOverrides
no_overrides = record { name = none; expires_in_days = none }

one_row : find (λ (c : S3Credential). c.access_key_id) (lit "GK1") cold.table ≡ some row
unfolding find str_eq
one_row = refl

free : find (λ (c : S3Credential). c.access_key_id) (lit "GK2") cold.table ≡ none
unfolding find str_eq
free = refl

in_time : is_expired row.expires_at 120 ≡ false
unfolding is_expired
in_time = refl

rotate_credential-Succeeded_example :
    Succeeded literal_patterns parse stringify 60
      (lit "GK2")
      (lit "t")
      (lit "GK1")
      120
      no_overrides
      cold
      row
      purger
rotate_credential-Succeeded_example =
    rotate_credential-Succeeded literal_patterns parse stringify 60 (lit "GK2") (lit "t")
      (lit "GK1") 120 no_overrides cold row purger cold-IsConsistent one_row refl in_time refl refl
      free
