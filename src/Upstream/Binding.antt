-- ===== src/Upstream/Binding.antt =====
-- `validateTokenBinding` of src/routes/token-binding.ts. An error message is a constructor with the
-- values that the text names; `String.prototype.trim` is the parameter `trim`.
pub mod Covers
pub mod Scope
use purge_api_gateway.Base.{
  List, [], ◌∷◌, ◌++◌, Bool, true, false, not, ◌&&◌, ◌||◌, ℕ, zero, suc, Option, none, some, Str,
  lit, str_eq, starts_with, split_on, drop, some_of, map, if◌then◌else◌,
}
use purge_api_gateway.Policy.Types.{Statement, PolicyDocument}
use purge_api_gateway.Upstream.Tokens.{
  UpstreamTokenScopeType, zone, account, UpstreamToken, TokenRegistry, get_token,
}

pub data BindingError : Type 0 where
  token_not_found : Str → BindingError
  invalid_action bare_wildcard wrong_scope : ℕ → Str → BindingError
  zone_wildcard account_wildcard : ℕ → BindingError
  zone_not_covered account_mismatch : ℕ → Str → BindingError

pub record TokenBindingResult : Type 0 where
  pub valid : Bool
  pub errors : List BindingError

unfoldable pub zone_action_prefixes : List Str
zone_action_prefixes = lit "purge:" ∷ lit "dns:" ∷ []

unfoldable pub account_action_prefixes : List Str
account_action_prefixes =
    lit "d1:"
    ∷ lit "kv:"
    ∷ lit "workers:"
    ∷ lit "queues:"
    ∷ lit "vectorize:"
    ∷ lit "hyperdrive:"
    ∷ []

unfoldable pub allowed_prefixes : UpstreamTokenScopeType → List Str
allowed_prefixes zone = zone_action_prefixes
allowed_prefixes account = account_action_prefixes

unfoldable pub validate_actions : UpstreamTokenScopeType → ℕ → List Str → List BindingError
validate_actions scope_type i [] = []
validate_actions scope_type i (action ∷ actions) =
    let rest = validate_actions scope_type i actions in
    if some_of (λ p. starts_with action p) (allowed_prefixes scope_type)
    then rest
    else invalid_action i action ∷ rest

unfoldable pub reject_wildcards : ℕ → List Str → List BindingError
reject_wildcards i [] = []
reject_wildcards i (resource ∷ resources) =
    let rest = reject_wildcards i resources in
    if str_eq resource (lit "*") then bare_wildcard i resource ∷ rest else rest

-- `scopeIds.length === 1 && scopeIds[0] === '*'`
unfoldable pub is_wildcard : List Str → Bool
is_wildcard (s ∷ []) = str_eq s (lit "*")
is_wildcard _ = false

unfoldable pub zone_resource_errors : List Str → ℕ → Str → List BindingError
zone_resource_errors scope_ids i resource =
    let zone_id = drop 5 resource in
    if str_eq resource (lit "*")
    then []
    else if not (starts_with resource (lit "zone:"))
    then wrong_scope i resource ∷ []
    else if str_eq zone_id (lit "*")
    then (if is_wildcard scope_ids then [] else zone_wildcard i ∷ [])
    else if not (is_wildcard scope_ids) && not (some_of (λ s. str_eq s zone_id) scope_ids)
    then zone_not_covered i zone_id ∷ []
    else []

-- The first element, and the test that it is a text.
abbrev pub first : List Str → Option Str
first [] = none
first (s ∷ ss) = some s

abbrev pub is_text : Option Str → Str → Bool
is_text none s = false
is_text (some t) s = str_eq t s

unfoldable pub account_resource_errors : List Str → ℕ → Str → List BindingError
account_resource_errors scope_ids i resource =
    let account_id = first scope_ids in
    let resource_account_id = first (split_on b'/' (drop 8 resource)) in
    if str_eq resource (lit "*")
    then []
    else if not (starts_with resource (lit "account:"))
    then wrong_scope i resource ∷ []
    else elim resource_account_id [
      | none ↦ []
      | some found ↦
          if str_eq found (lit "*")
          then (if is_text account_id (lit "*") then [] else account_wildcard i ∷ [])
          else if is_text account_id found
          then []
          else account_mismatch i found ∷ []
    ]

unfoldable pub resource_errors : UpstreamTokenScopeType → List Str → ℕ → Str → List BindingError
resource_errors zone = zone_resource_errors
resource_errors account = account_resource_errors

unfoldable pub validate_resources :
    UpstreamTokenScopeType → List Str → ℕ → List Str → List BindingError
validate_resources scope_type scope_ids i [] = []
validate_resources scope_type scope_ids i (resource ∷ resources) =
    resource_errors scope_type scope_ids i resource
    ++ validate_resources scope_type scope_ids i resources

-- The loop over the statements, from the index `i` on.
unfoldable pub validate_statements :
    UpstreamTokenScopeType → List Str → ℕ → List Statement → List BindingError
validate_statements scope_type scope_ids i [] = []
validate_statements scope_type scope_ids i (stmt ∷ stmts) =
    validate_actions scope_type i stmt.actions
    ++ (reject_wildcards i stmt.resources
        ++ (validate_resources scope_type scope_ids i stmt.resources
            ++ validate_statements scope_type scope_ids (suc i) stmts))

abbrev pub no_errors : List BindingError → Bool
no_errors [] = true
no_errors (e ∷ es) = false

unfoldable pub binding_result : List BindingError → TokenBindingResult
binding_result errors = record { valid = no_errors errors; errors = errors }

module _ (trim : Str → Str) where
  unfoldable pub scope_ids_of : UpstreamToken → List Str
  scope_ids_of token = map trim (split_on b',' token.zone_ids)

  unfoldable pub validate_token_binding : TokenRegistry → Str → PolicyDocument → TokenBindingResult
  validate_token_binding r upstream_token_id policy = elim (get_token upstream_token_id r) [
    | none ↦ binding_result (token_not_found upstream_token_id ∷ [])
    | some token ↦
        binding_result
          (validate_statements token.scope_type (scope_ids_of token) 0 policy.statements)
  ]
