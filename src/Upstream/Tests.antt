-- ===== src/Upstream/Tests.antt =====
-- The theorems of the registries at concrete tokens.
use purge_api_gateway.Base.{
  [], ◌∷◌, List, true, ℕ, ◌+◌, ◌≤◌, ◌<◌, ◌≡◌, ◌⊎◌, inl, inr, refl, none, some, lit, arith, str_eq,
  starts_with, split_on,
}
use purge_api_gateway.Policy.Types.{allow, deny, PolicyDocument, RequestContext}
use purge_api_gateway.Policy.Matching.{CoversAction, CoversResource}
use purge_api_gateway.Policy.Evaluate.Laws.{Permits}
use purge_api_gateway.Policy.Sample.{literal_patterns}
use purge_api_gateway.Credentials.Table.{find}
use purge_api_gateway.Credentials.Ordered.{newest_first, place}
use purge_api_gateway.Upstream.Registry.{
  any_scope, load, resolve, scan, next_wildcard, serves, is_vacant, is_lapsed,
}
use purge_api_gateway.Upstream.Registry.Choice.{Answers, load-Answers}
use purge_api_gateway.Upstream.Registry.Refinement.{
  add, ask, write, perform, Run, start, then_call, resolve-Answers,
}
use purge_api_gateway.Upstream.Tokens.{
  zone, UpstreamToken, UpstreamTokenRow, TokenRegistry, token_entry, get_token,
}
use purge_api_gateway.Upstream.R2.{UpstreamR2Row, R2Registry, resolve_for_list_buckets}
use purge_api_gateway.Upstream.R2.Buckets.{ListsBuckets, resolve_for_list_buckets-ListsBuckets}
use purge_api_gateway.Upstream.Binding.{
  validate_token_binding, scope_ids_of, binding_result, validate_statements, validate_actions,
  validate_resources, reject_wildcards, resource_errors, zone_resource_errors, is_wildcard,
  allowed_prefixes, zone_action_prefixes,
}
use purge_api_gateway.Upstream.Binding.Scope.{
  ActionInScope, InScope, AreSpecific, validate_token_binding-InScope,
}

abbrev token : UpstreamToken
token = record {
  id = lit "upt_1";
  name = lit "zones";
  scope_type = zone;
  zone_ids = lit "z1,z2";
  token_preview = lit "****";
  created_at = 5;
  expires_at = none;
  created_by = none;
}

abbrev row : UpstreamTokenRow
row = record { shown = token; token = lit "secret" }

abbrev wildcard : UpstreamTokenRow
wildcard = record {
  shown = record token {
    id = lit "upt_2";
    zone_ids = lit "*";
    created_at = 7;
    expires_at = some 90;
  };
  token = lit "catch-all";
}

abbrev registered : List UpstreamTokenRow
registered = row ∷ wildcard ∷ []

-- The zone's own token is chosen before a newer one for all zones; another zone gets the latter,
-- until it expires.
chosen_exact : load token_entry 80 (any_scope (lit "z1")) registered ≡ some (lit "secret")
unfolding load newest_first place scan next_wildcard serves is_vacant is_lapsed split_on str_eq
chosen_exact = refl

chosen_wildcard : load token_entry 80 (any_scope (lit "z3")) registered ≡ some (lit "catch-all")
unfolding load newest_first place scan next_wildcard serves is_vacant is_lapsed split_on str_eq
chosen_wildcard = refl

chosen_none : load token_entry 90 (any_scope (lit "z3")) registered ≡ none
unfolding load newest_first place scan next_wildcard serves is_vacant is_lapsed split_on str_eq
chosen_none = refl

load-Answers_example :
    Answers token_entry 80
      (any_scope (lit "z1"))
      registered
      (load token_entry 80 (any_scope (lit "z1")) registered)
load-Answers_example = load-Answers token_entry 80 (any_scope (lit "z1")) registered

abbrev fresh_registry : TokenRegistry
fresh_registry = record { rows = []; resolve_cache = [] }

-- The registry after a token is added and its zone is asked for.
abbrev asked : TokenRegistry
asked =
    perform token_entry 60000 9 (ask (any_scope (lit "z1")))
      (perform token_entry 60000 8 (add row) fresh_registry)

abbrev asked_table : List UpstreamTokenRow
asked_table =
    write token_entry 60000 9 (ask (any_scope (lit "z1"))) (write token_entry 60000 8 (add row) [])

asked-Run : Run token_entry 60000 9 asked_table asked
asked-Run =
    then_call (then_call start 8 (omega arith) (add row) tt) 9 (omega arith)
      (ask (any_scope (lit "z1"))) refl

resolve-Answers_example :
    (t : ℕ) × (t ≤ 70)
    × ((t ≡ 70) ⊎ (70 < t + 60000))
    × Answers token_entry t
        (any_scope (lit "z1"))
        asked_table
        (resolve token_entry 60000 70 (any_scope (lit "z1")) asked).0
resolve-Answers_example =
    resolve-Answers token_entry 60000 asked-Run 70 (any_scope (lit "z1")) (omega arith) refl

-- Purges of the first zone.
abbrev purges : PolicyDocument
purges = record {
  statements =
      (record {
        effect = allow;
        actions = lit "purge:*" ∷ [];
        resources = lit "zone:z1" ∷ [];
        conditions = [];
      })
      ∷ [];
}

abbrev a_purge : RequestContext
a_purge = record { action = lit "purge:host"; resource = lit "zone:z1"; fields = [] }

abbrev token_registry : TokenRegistry
token_registry = record { rows = registered; resolve_cache = [] }

found_token : get_token (lit "upt_1") token_registry ≡ some token
unfolding get_token find str_eq
found_token = refl

purges_bound : (validate_token_binding (λ s. s) token_registry (lit "upt_1") purges).valid ≡ true
unfolding validate_token_binding get_token find str_eq starts_with scope_ids_of split_on
    binding_result validate_statements validate_actions validate_resources reject_wildcards
    resource_errors zone_resource_errors is_wildcard allowed_prefixes zone_action_prefixes
purges_bound = refl

purges_permitted : Permits literal_patterns a_purge purges
purges_permitted = (
  inl (
    refl,
    (
      inl (CoversAction.service (lit "purge") (lit "host") refl refl),
      inl (CoversResource.exact refl),
      tt,
    ),
  ),
  λ h. elim h [ inl denies ↦ absurd (allowed denies.0) | inr later ↦ later ],
)
  where
    allowed : allow ≡ deny → ⊥
    allowed e = cc

specific_zones : AreSpecific (scope_ids_of (λ s. s) token)
unfolding scope_ids_of split_on
specific_zones = (refl, (refl, tt))

validate_token_binding-InScope_example :
    ActionInScope zone a_purge.action × InScope zone (scope_ids_of (λ s. s) token) a_purge.resource
validate_token_binding-InScope_example =
    validate_token_binding-InScope (λ s. s) token_registry (lit "upt_1") token purges found_token
      specific_zones purges_bound literal_patterns a_purge purges_permitted

abbrev endpoint_row : UpstreamR2Row
endpoint_row = record {
  shown = record {
    id = lit "upr2_1";
    name = lit "media";
    bucket_names = lit "media,logs";
    access_key_preview = lit "****";
    endpoint = lit "https://r2";
    created_at = 5;
    expires_at = some 90;
    created_by = none;
  };
  access_key_id = lit "ak";
  secret_access_key = lit "sk";
}

abbrev endpoints : R2Registry
endpoints = record { rows = endpoint_row ∷ []; resolve_cache = [] }

resolve_for_list_buckets-ListsBuckets_example :
    ListsBuckets 80 endpoints.rows (resolve_for_list_buckets 80 endpoints)
resolve_for_list_buckets-ListsBuckets_example = resolve_for_list_buckets-ListsBuckets 80 endpoints
