-- ===== src/Upstream/Tokens.antt =====
-- `UpstreamTokenManager` of src/upstream-tokens.ts: the registry of API tokens for zones and
-- accounts. The generated id is `fresh`.
use purge_api_gateway.Base.{
  List, [], ◌∷◌, ◌++◌, Bool, true, false, ℕ, ◌-◌, leb, Option, Str, lit, length, take, drop, map,
  if◌then◌else◌,
}
use mathlib.Core.Option
use purge_api_gateway.Policy.Conditions.{join_by_comma}
use purge_api_gateway.Credentials.Keys.{Result, ok, throws, expiry}
use purge_api_gateway.Upstream.Registry.{
  Entry, Registry, any_scope, account_scope, by_id, Updates, resolve, create, update, listing,
}
use purge_api_gateway.Credentials.Table.{find}

pub data UpstreamTokenScopeType : Type 0 where
  zone account : UpstreamTokenScopeType

pub record UpstreamToken : Type 0 where
  pub id : Str
  pub name : Str
  pub scope_type : UpstreamTokenScopeType
  pub zone_ids : Str
  pub token_preview : Str
  pub created_at : ℕ
  pub expires_at : Option ℕ
  pub created_by : Option Str

-- A row of the table: what is shown, and the secret.
pub record UpstreamTokenRow : Type 0 where
  pub shown : UpstreamToken
  pub token : Str

pub record CreateUpstreamTokenRequest : Type 0 where
  pub name : Str
  pub token : Str
  pub scope_type : Option UpstreamTokenScopeType
  pub zone_ids : List Str
  pub expires_in_days : Option ℕ
  pub created_by : Option Str

-- `makePreview` of src/crypto.ts
unfoldable pub make_preview : Str → Str
make_preview secret =
    if leb (length secret) 10
    then lit "****"
    else take 4 secret ++ (lit "..." ++ drop (length secret - 4) secret)

abbrev pub covers_accounts : UpstreamTokenScopeType → Bool
covers_accounts zone = false
covers_accounts account = true

-- A text is false if it is empty.
abbrev pub is_nonempty : Str → Bool
is_nonempty [] = false
is_nonempty (a ∷ s) = true

abbrev pub token_entry : Entry UpstreamTokenRow Str
token_entry = record {
  id = λ row. row.shown.id;
  scopes = λ row. row.shown.zone_ids;
  is_account = λ row. covers_accounts row.shown.scope_type;
  created_at = λ row. row.shown.created_at;
  expires_at = λ row. row.shown.expires_at;
  secret = λ row. row.token;
  is_truthy = is_nonempty;
  set_name = λ name row. record row { shown = record row.shown { name = name } };
  set_expires_at = λ expiry row. record row { shown = record row.shown { expires_at = expiry } };
}

abbrev pub TokenRegistry : Type 0
TokenRegistry = Registry UpstreamTokenRow Str

unfoldable pub new_token : Str → ℕ → CreateUpstreamTokenRequest → UpstreamTokenRow
new_token fresh now req = record {
  shown = record {
    id = fresh;
    name = req.name;
    scope_type = Option.get_or req.scope_type zone;
    zone_ids = join_by_comma req.zone_ids;
    token_preview = make_preview req.token;
    created_at = now;
    expires_at = expiry now req.expires_in_days;
    created_by = req.created_by;
  };
  token = req.token;
}

unfoldable pub create_token :
    Str → ℕ → CreateUpstreamTokenRequest → TokenRegistry → Result UpstreamToken × TokenRegistry
create_token fresh now req r =
    let (result, r') = create token_entry (new_token fresh now req) r in
    (elim result [ ok row ↦ ok row.shown | throws ↦ throws ], r')

unfoldable pub list_tokens : TokenRegistry → List UpstreamToken
list_tokens r = map (λ row. row.shown) (listing token_entry r)

unfoldable pub get_token : Str → TokenRegistry → Option UpstreamToken
get_token id r = Option.map (λ row. row.shown) (find token_entry.id id r.rows)

unfoldable pub update_token : Str → Updates → TokenRegistry → Option UpstreamToken × TokenRegistry
update_token id u r =
    let (row, r') = update token_entry id u r in (Option.map (λ row. row.shown) row, r')

unfoldable pub resolve_token_for_zone : ℕ → ℕ → Str → TokenRegistry → Option Str × TokenRegistry
resolve_token_for_zone ttl now zone_id r = resolve token_entry ttl now (any_scope zone_id) r

unfoldable pub resolve_token_for_account : ℕ → ℕ → Str → TokenRegistry → Option Str × TokenRegistry
resolve_token_for_account ttl now account_id r =
    resolve token_entry ttl now (account_scope account_id) r

unfoldable pub resolve_token_by_id : ℕ → ℕ → Str → TokenRegistry → Option Str × TokenRegistry
resolve_token_by_id ttl now token_id r = resolve token_entry ttl now (by_id token_id) r
