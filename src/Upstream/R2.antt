-- ===== src/Upstream/R2.antt =====
-- `UpstreamR2Manager` of src/s3/upstream-r2.ts: the registry of R2 endpoints for buckets. The
-- generated id is `fresh`.
pub mod Buckets
use purge_api_gateway.Base.{
  List, [], ◌∷◌, true, false, not, ℕ, Option, none, some, Str, lit, map, if◌then◌else◌,
}
use mathlib.Core.Option
use purge_api_gateway.Policy.Conditions.{join_by_comma}
use purge_api_gateway.Credentials.Table.{find, select_where}
use purge_api_gateway.Credentials.Keys.{Result, ok, throws, expiry}
use purge_api_gateway.Upstream.Registry.{
  Entry, Registry, any_scope, by_id, Updates, is_lapsed, serves, resolve, create, update, listing,
}
use purge_api_gateway.Upstream.Tokens.{make_preview}

pub record UpstreamR2 : Type 0 where
  pub id : Str
  pub name : Str
  pub bucket_names : Str
  pub access_key_preview : Str
  pub endpoint : Str
  pub created_at : ℕ
  pub expires_at : Option ℕ
  pub created_by : Option Str

pub record UpstreamR2Row : Type 0 where
  pub shown : UpstreamR2
  pub access_key_id : Str
  pub secret_access_key : Str

pub record CreateUpstreamR2Request : Type 0 where
  pub name : Str
  pub access_key_id : Str
  pub secret_access_key : Str
  pub endpoint : Str
  pub bucket_names : List Str
  pub expires_in_days : Option ℕ
  pub created_by : Option Str

pub record R2Credentials : Type 0 where
  pub access_key_id : Str
  pub secret_access_key : Str
  pub endpoint : Str

abbrev pub credentials_of : UpstreamR2Row → R2Credentials
credentials_of row = record {
  access_key_id = row.access_key_id;
  secret_access_key = row.secret_access_key;
  endpoint = row.shown.endpoint;
}

-- Credentials are an object, and so are true. There are no accounts.
abbrev pub r2_entry : Entry UpstreamR2Row R2Credentials
r2_entry = record {
  id = λ row. row.shown.id;
  scopes = λ row. row.shown.bucket_names;
  is_account = λ row. false;
  created_at = λ row. row.shown.created_at;
  expires_at = λ row. row.shown.expires_at;
  secret = credentials_of;
  is_truthy = λ creds. true;
  set_name = λ name row. record row { shown = record row.shown { name = name } };
  set_expires_at = λ expiry row. record row { shown = record row.shown { expires_at = expiry } };
}

abbrev pub R2Registry : Type 0
R2Registry = Registry UpstreamR2Row R2Credentials

unfoldable pub new_endpoint : Str → ℕ → CreateUpstreamR2Request → UpstreamR2Row
new_endpoint fresh now req = record {
  shown = record {
    id = fresh;
    name = req.name;
    bucket_names = join_by_comma req.bucket_names;
    access_key_preview = make_preview req.access_key_id;
    endpoint = req.endpoint;
    created_at = now;
    expires_at = expiry now req.expires_in_days;
    created_by = req.created_by;
  };
  access_key_id = req.access_key_id;
  secret_access_key = req.secret_access_key;
}

unfoldable pub create_endpoint :
    Str → ℕ → CreateUpstreamR2Request → R2Registry → Result UpstreamR2 × R2Registry
create_endpoint fresh now req r =
    let (result, r') = create r2_entry (new_endpoint fresh now req) r in
    (elim result [ ok row ↦ ok row.shown | throws ↦ throws ], r')

unfoldable pub list_endpoints : R2Registry → List UpstreamR2
list_endpoints r = map (λ row. row.shown) (listing r2_entry r)

unfoldable pub get_endpoint : Str → R2Registry → Option UpstreamR2
get_endpoint id r = Option.map (λ row. row.shown) (find r2_entry.id id r.rows)

unfoldable pub update_endpoint : Str → Updates → R2Registry → Option UpstreamR2 × R2Registry
update_endpoint id u r =
    let (row, r') = update r2_entry id u r in (Option.map (λ row. row.shown) row, r')

unfoldable pub resolve_for_bucket : ℕ → ℕ → Str → R2Registry → Option R2Credentials × R2Registry
resolve_for_bucket ttl now bucket r = resolve r2_entry ttl now (any_scope bucket) r

unfoldable pub resolve_r2_by_id : ℕ → ℕ → Str → R2Registry → Option R2Credentials × R2Registry
resolve_r2_by_id ttl now endpoint_id r = resolve r2_entry ttl now (by_id endpoint_id) r

-- The first row that serves every bucket.
unfoldable pub first_wildcard : List UpstreamR2Row → Option UpstreamR2Row
first_wildcard [] = none
first_wildcard (row ∷ rows) =
    let rest = first_wildcard rows in if serves r2_entry (lit "*") row then some row else rest

unfoldable pub resolve_for_list_buckets : ℕ → R2Registry → Option R2Credentials
resolve_for_list_buckets now r =
    let active_rows =
      select_where (λ row. not (is_lapsed row.shown.expires_at now)) (listing r2_entry r) in
    elim (first_wildcard active_rows) [
      | some row ↦ some (credentials_of row)
      | none ↦ elim active_rows [ [] ↦ none | row ∷ rows ↦ some (credentials_of row) ]
    ]
