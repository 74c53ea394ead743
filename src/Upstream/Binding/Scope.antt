-- ===== src/Upstream/Binding/Scope.antt =====
-- What a bound policy can permit: nothing beyond the scope of its token.
use purge_api_gateway.Base.{
  List, [], ◌∷◌, ◌++◌, true, false, ℕ, suc, ◌≡◌, inl, inr, refl, sym, ap, ◌∙◌, subst, Option, none,
  some, Str, lit, str_eq, str_eq_iff, starts_with, starts_with_iff, some_of_iff, lacks, split_on,
  drop, some_of, All, Any, Bool-cases, arith,
}
use mathlib.Core.Bool.{false≢true}
use mathlib.Core.Option.{some-injective, none-ne-some}
use purge_api_gateway.Policy.Runtime.{Runtime}
use purge_api_gateway.Policy.Types.{Statement, PolicyDocument, RequestContext}
use purge_api_gateway.Policy.Matching.{CoversResource}
use purge_api_gateway.Policy.Evaluate.Laws.{Permits}
use purge_api_gateway.Upstream.Tokens.{
  UpstreamTokenScopeType, zone, account, UpstreamToken, TokenRegistry, get_token,
}
use purge_api_gateway.Upstream.Binding.{
  BindingError, zone_action_prefixes, account_action_prefixes, allowed_prefixes, validate_actions,
  reject_wildcards, is_wildcard, zone_resource_errors, first, is_text, account_resource_errors,
  resource_errors, validate_resources, validate_statements, no_errors, binding_result, scope_ids_of,
  validate_token_binding,
}
use purge_api_gateway.Upstream.Binding.Covers.{
  Inside, IsSpecific, CoversResource-Inside, split_on-some, split_on-first, IsPrefix,
  covered_prefix,
}

module _ {A : Type 0} where
  append-empty : (xs ys : List A) → xs ++ ys ≡ [] → (xs ≡ []) × (ys ≡ [])
  append-empty [] ys h = (refl, h)
  append-empty (x ∷ xs) ys h = absurd (ground (arith, h))

  Any-map : (P Q : A → Type 0) (xs : List A) → ((x : A) → P x → Q x) → Any P xs → Any Q xs
  Any-map P Q [] f h = h
  Any-map P Q (x ∷ xs) f h = elim h [
    | inl here ↦ inl (f x here)
    | inr there ↦ inr (Any-map P Q xs f there)
  ]

  All-Any :
      (P Q : A → Type 0) (R : Type 0) (xs : List A)
      → All P xs
      → Any Q xs
      → ((x : A) → P x → Q x → R)
      → R
  All-Any P Q R [] hs h f = absurd h
  All-Any P Q R (x ∷ xs) (first_holds, rest) h f = elim h [
    | inl here ↦ f x first_holds here
    | inr there ↦ All-Any P Q R xs rest there f
  ]

-- What a token covers: its zones, or the account that it names first, with all that stands below.
abbrev pub InScope : UpstreamTokenScopeType → List Str → Str → Type 0
InScope zone scope_ids resource = Any (λ s. Inside (lit "zone:" ++ s) resource) scope_ids
InScope account scope_ids resource =
    (s : Str) × (first scope_ids ≡ some s) × Inside (lit "account:" ++ s) resource

-- The action is of a service that tokens of the kind serve.
abbrev pub ActionInScope : UpstreamTokenScopeType → Str → Type 0
ActionInScope scope_type action =
    Any (λ p. starts_with action p ≡ true) (allowed_prefixes scope_type)

abbrev pub AreSpecific : List Str → Type 0
AreSpecific scope_ids = All IsSpecific scope_ids

specific_wildcard : (scope_ids : List Str) → AreSpecific scope_ids → is_wildcard scope_ids ≡ false
unfolding is_wildcard
specific_wildcard [] h = refl
specific_wildcard (s ∷ []) h = elim (Bool-cases (str_eq s (lit "*"))) [
  | inl star ↦ absurd (false≢true (ap (lacks b'*') (sym ((str_eq_iff _ _).0 star)) ∙ h.0))
  | inr other ↦ other
]
specific_wildcard (s ∷ t ∷ ss) h = refl

zone_part :
    (resource : Str)
    → starts_with resource (lit "zone:") ≡ true
    → resource ≡ lit "zone:" ++ drop 5 resource
zone_part resource h =
    let (rest, e) = (starts_with_iff resource (lit "zone:")).0 h in
    e ∙ ap (λ x. lit "zone:" ++ drop 5 x) (sym e)

account_part :
    (resource : Str)
    → starts_with resource (lit "account:") ≡ true
    → resource ≡ lit "account:" ++ drop 8 resource
account_part resource h =
    let (rest, e) = (starts_with_iff resource (lit "account:")).0 h in
    e ∙ ap (λ x. lit "account:" ++ drop 8 x) (sym e)

zone_resource_errors-InScope :
    (scope_ids : List Str) (i : ℕ) (resource : Str)
    → AreSpecific scope_ids
    → str_eq resource (lit "*") ≡ false
    → zone_resource_errors scope_ids i resource ≡ []
    → InScope zone scope_ids resource
unfolding zone_resource_errors
zone_resource_errors-InScope scope_ids i resource h unstarred accepted =
    let specific = specific_wildcard scope_ids h in
    let starts : starts_with resource (lit "zone:") ≡ true =
      ground (arith, accepted, unstarred, specific) in
    let covered : some_of (λ s. str_eq s (drop 5 resource)) scope_ids ≡ true =
      ground (arith, accepted, unstarred, specific) in
    Any-map _ _ scope_ids
      (λ s same.
        inl
          (zone_part resource starts ∙ ap (λ x. lit "zone:" ++ x) (sym ((str_eq_iff _ _).0 same))))
      ((some_of_iff _ scope_ids).0 covered)

is_text_sound : (o : Option Str) (s : Str) → is_text o s ≡ true → o ≡ some s
is_text_sound none s h = absurd (false≢true h)
is_text_sound (some t) s h = ap some ((str_eq_iff t s).0 h)

IsSpecific-first :
    (scope_ids : List Str) (s : Str)
    → AreSpecific scope_ids
    → first scope_ids ≡ some s
    → IsSpecific s
IsSpecific-first [] s h e = absurd (none-ne-some _ e)
IsSpecific-first (t ∷ ts) s h e = subst IsSpecific (some-injective _ _ e) h.0

specific_star :
    (scope_ids : List Str) → AreSpecific scope_ids → is_text (first scope_ids) (lit "*") ≡ false
specific_star scope_ids h = elim (Bool-cases (is_text (first scope_ids) (lit "*"))) [
  | inl star ↦ absurd (false≢true (IsSpecific-first scope_ids (lit "*") h (is_text_sound _ _ star)))
  | inr other ↦ other
]

account_below :
    (rest found : Str)
    → first (split_on b'/' rest) ≡ some found
    → Inside (lit "account:" ++ found) (lit "account:" ++ rest)
unfolding starts_with
account_below rest found h = elim (split_on-first b'/' rest found h) [
  | inl whole ↦ inl (ap (λ x. lit "account:" ++ x) whole)
  | inr below ↦ inr below
]

account_resource_errors-InScope :
    (scope_ids : List Str) (i : ℕ) (resource : Str)
    → AreSpecific scope_ids
    → str_eq resource (lit "*") ≡ false
    → account_resource_errors scope_ids i resource ≡ []
    → InScope account scope_ids resource
unfolding account_resource_errors
account_resource_errors-InScope scope_ids i resource h unstarred accepted =
    let (found, e) = split_on-some b'/' (drop 8 resource) in
    let unwild = specific_star scope_ids h in
    let starts : starts_with resource (lit "account:") ≡ true =
      ground (arith, accepted, unstarred, unwild) in
    let same : is_text (first scope_ids) found ≡ true =
      ground (arith, accepted, unstarred, unwild, starts, e) in
    (
      found,
      is_text_sound _ _ same,
      subst (Inside (lit "account:" ++ found)) (sym (account_part resource starts))
          (account_below (drop 8 resource) found e),
    )

resource_errors-InScope :
    (scope_type : UpstreamTokenScopeType) (scope_ids : List Str) (i : ℕ) (resource : Str)
    → AreSpecific scope_ids
    → str_eq resource (lit "*") ≡ false
    → resource_errors scope_type scope_ids i resource ≡ []
    → InScope scope_type scope_ids resource
unfolding resource_errors
resource_errors-InScope zone = zone_resource_errors-InScope
resource_errors-InScope account = account_resource_errors-InScope

module _ (scope_type : UpstreamTokenScopeType) (scope_ids : List Str)
    (h : AreSpecific scope_ids) where
  validate_resources-InScope :
      (i : ℕ) (resources : List Str)
      → reject_wildcards i resources ≡ []
      → validate_resources scope_type scope_ids i resources ≡ []
      → All (InScope scope_type scope_ids) resources
  unfolding reject_wildcards validate_resources
  validate_resources-InScope i [] stars errors = tt
  validate_resources-InScope i (resource ∷ resources) stars errors =
      let unstarred : str_eq resource (lit "*") ≡ false = ground (arith, stars) in
      let (here, later) = append-empty (resource_errors scope_type scope_ids i resource) _ errors in
      (
        resource_errors-InScope scope_type scope_ids i resource h unstarred here,
        validate_resources-InScope i resources (ground (arith, stars)) later,
      )

  validate_actions-InScope :
      (i : ℕ) (actions : List Str)
      → validate_actions scope_type i actions ≡ []
      → All (ActionInScope scope_type) actions
  unfolding validate_actions
  validate_actions-InScope i [] errors = tt
  validate_actions-InScope i (action ∷ actions) errors =
      let starts : some_of (λ p. starts_with action p) (allowed_prefixes scope_type) ≡ true =
        ground (arith, errors) in
      (
        (some_of_iff _ (allowed_prefixes scope_type)).0 starts,
        validate_actions-InScope i actions (ground (arith, errors, starts)),
      )

  -- Every pattern of the statement is within the scope.
  IsBound : Statement → Type 0
  IsBound stmt =
      All (ActionInScope scope_type) stmt.actions
      × All (InScope scope_type scope_ids) stmt.resources

  validate_statements-IsBound :
      (i : ℕ) (stmts : List Statement)
      → validate_statements scope_type scope_ids i stmts ≡ []
      → All IsBound stmts
  unfolding validate_statements IsBound
  validate_statements-IsBound i [] errors = tt
  validate_statements-IsBound i (stmt ∷ stmts) errors =
      let (actions, rest) = append-empty _ _ errors in
      let (stars, rest') = append-empty _ _ rest in
      let (resources, later) = append-empty _ _ rest' in
      (
        (
          validate_actions-InScope i stmt.actions actions,
          validate_resources-InScope i stmt.resources stars resources,
        ),
        validate_statements-IsBound (suc i) stmts later,
      )

allowed_prefixes-All :
    (scope_type : UpstreamTokenScopeType) → All IsPrefix (allowed_prefixes scope_type)
unfolding allowed_prefixes zone_action_prefixes account_action_prefixes
allowed_prefixes-All zone = (refl, (refl, tt))
allowed_prefixes-All account = (refl, (refl, (refl, (refl, (refl, (refl, tt))))))

covered_InScope :
    (scope_type : UpstreamTokenScopeType) (scope_ids : List Str) (resource p : Str)
    → AreSpecific scope_ids
    → CoversResource resource p
    → InScope scope_type scope_ids p
    → InScope scope_type scope_ids resource
covered_InScope zone [] resource p h covers inside = absurd inside
covered_InScope zone (s ∷ ss) resource p (h, hs) covers inside = elim inside [
  | inl here ↦ inl (CoversResource-Inside (lit "zone:" ++ s) resource p h here covers)
  | inr there ↦ inr (covered_InScope zone ss resource p hs covers there)
]
covered_InScope account scope_ids resource p h covers (s, e, inside) = (
  s,
  e,
  CoversResource-Inside (lit "account:" ++ s) resource p (IsSpecific-first scope_ids s h e) inside
      covers,
)

no_errors_sound : (errors : List BindingError) → no_errors errors ≡ true → errors ≡ []
no_errors_sound [] h = refl
no_errors_sound (e ∷ es) h = absurd (false≢true h)

-- A policy that `validateTokenBinding` accepts for a token whose scopes have no star permits only
-- requests with an action of the token's kind on a resource that the token covers: one of its
-- zones, or the account that it names first, or what stands below these.
pub validate_token_binding-InScope :
    (trim : Str → Str) (r : TokenRegistry) (id : Str) (token : UpstreamToken)
    (policy : PolicyDocument)
    → get_token id r ≡ some token
    → AreSpecific (scope_ids_of trim token)
    → (validate_token_binding trim r id policy).valid ≡ true
    → (js : Runtime) (ctx : RequestContext) → Permits js ctx policy
    → ActionInScope token.scope_type ctx.action
      × InScope token.scope_type (scope_ids_of trim token) ctx.resource
unfolding validate_token_binding IsBound binding_result
validate_token_binding-InScope trim r id token policy found h valid js ctx permits =
    let scope_ids = scope_ids_of trim token in
    let bound =
      validate_statements-IsBound token.scope_type scope_ids h 0 policy.statements
        (no_errors_sound _ (rw (found, validate_token_binding) at valid)) in
    All-Any (IsBound token.scope_type scope_ids h) _ _ policy.statements bound permits.0
      (λ stmt (actions, resources) (effect, (covers_action, covers_resource, conditions)). (
        All-Any _ _ _ stmt.actions actions covers_action (λ p starts covers.
            covered_prefix ctx.action p (allowed_prefixes token.scope_type)
              (allowed_prefixes-All token.scope_type) covers starts),
        All-Any _ _ _ stmt.resources resources covers_resource (λ p inside covers.
            covered_InScope token.scope_type scope_ids ctx.resource p h covers inside),
      ))
