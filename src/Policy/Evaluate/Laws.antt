-- ===== src/Policy/Evaluate/Laws.antt =====
-- What a policy permits, and that `evaluatePolicy` decides it.
use purge_api_gateway.Base.{
  List, [], ◌∷◌, Bool, true, false, ◌≡◌, ◌≤◌, ◌⊎◌, inl, inr, ◌↔◌, ◌≢◌, refl, sym, ◌∙◌, All, Any,
  Bool-cases, if◌then◌else◌,
}
use mathlib.Core.Bool.{false≢true}
use purge_api_gateway.Policy.Runtime.{Runtime}
use purge_api_gateway.Policy.Types.{
  Effect, allow, deny, Condition, Statement, PolicyDocument, RequestContext,
}
use purge_api_gateway.Policy.Regex.{RegexCache, IsCoherent}
use purge_api_gateway.Policy.Decides.{
  Decides, Decides-pure, Decides-and, Decides-if, Decides-iff, Test, pure,
}
use purge_api_gateway.Policy.Matching.{
  matches_action, matches_resource, CoversAction, CoversResource, matches_action_iff,
  matches_resource_iff,
}
use purge_api_gateway.Policy.Conditions.{max_condition_depth}
use purge_api_gateway.Policy.Conditions.Laws.{nesting, Holds, evaluate_condition-Decides}
use purge_api_gateway.Policy.Evaluate.{
  is_deny, conditions_hold, matches_statement, evaluate_statements, evaluate_policy_for_context,
  evaluate_policy,
}

-- No condition of the policy is nested deeper than evaluation follows.
abbrev pub IsShallowStatement : Statement → Type 0
IsShallowStatement stmt = All (λ cond. nesting cond ≤ max_condition_depth) stmt.conditions

abbrev pub IsShallow : PolicyDocument → Type 0
IsShallow policy = All IsShallowStatement policy.statements

allow≢deny : allow ≢ deny
allow≢deny = cc

false_iff : {P : Type 0} → ¬ P → (false ≡ true) ↔ P
false_iff n = (λ h. absurd (false≢true h), λ p. absurd (n p))

module _ (js : Runtime) (ctx : RequestContext) where
  -- A statement applies: its action and resource patterns cover the request, and its conditions hold.
  abbrev pub Applies : Statement → Type 0
  Applies stmt =
      Any (CoversAction ctx.action) stmt.actions
      × Any (CoversResource ctx.resource) stmt.resources
      × All (λ cond. Holds js cond ctx.fields) stmt.conditions

  abbrev pub Allows : Statement → Type 0
  Allows stmt = (stmt.effect ≡ allow) × Applies stmt

  abbrev pub Denies : Statement → Type 0
  Denies stmt = (stmt.effect ≡ deny) × Applies stmt

  -- Deny first: some statement that applies allows, and none that applies denies.
  abbrev pub Permits : PolicyDocument → Type 0
  Permits policy = Any Allows policy.statements × (¬ Any Denies policy.statements)

  conditions_hold-Decides :
      (conds : List Condition)
      → All (λ cond. nesting cond ≤ max_condition_depth) conds
      → Decides
          (IsCoherent js)
          (conditions_hold js conds ctx.fields)
          (All (λ cond. Holds js cond ctx.fields) conds)
  unfolding conditions_hold
  conditions_hold-Decides [] h = Decides-pure true (λ _. tt, λ _. refl)
  conditions_hold-Decides (cond ∷ conds) (h, hs) =
      Decides-and _ _ (evaluate_condition-Decides js cond ctx.fields h)
        (conditions_hold-Decides conds hs)

  matches_statement-Decides :
      (stmt : Statement)
      → IsShallowStatement stmt
      → Decides (IsCoherent js) (matches_statement js stmt ctx) (Applies stmt)
  unfolding matches_statement
  matches_statement-Decides stmt h =
      let action = matches_action_iff stmt.actions ctx.action in
      let resource = matches_resource_iff stmt.resources ctx.resource in
      elim (Bool-cases (matches_action stmt.actions ctx.action)) [
        | inr e ↦ rw e (Decides-pure false (false_iff (λ a. false≢true (sym e ∙ action.1 a.0))))
        | inl e ↦ elim (Bool-cases (matches_resource stmt.resources ctx.resource)) [
          | inr e' ↦
              rw (e, e')
                (Decides-pure false (false_iff (λ a. false≢true (sym e' ∙ resource.1 a.1))))
          | inl e' ↦
              rw (e, e')
                (Decides-iff (λ c. (action.0 e, resource.0 e', c), λ a. a.2)
                  (conditions_hold-Decides stmt.conditions h))
        ]
      ]

  -- The loop of `evaluatePolicyForContext`, from any value of `allowed`.
  abbrev Verdict : List Statement → Bool → Type 0
  Verdict stmts allowed = ((allowed ≡ true) ⊎ Any Allows stmts) × (¬ Any Denies stmts)

  -- What a statement that applies makes of the verdict.
  after_match :
      (effect : Effect) (n : Test (RegexCache js)) {A X D : Type 0} {allowed : Bool}
      → A
      → Decides (IsCoherent js) n (((true ≡ true) ⊎ X) × (¬ D))
      → Decides
          (IsCoherent js)
          (if is_deny effect then pure false else n)
          (((allowed ≡ true) ⊎ (((effect ≡ allow) × A) ⊎ X)) × (¬ (((effect ≡ deny) × A) ⊎ D)))
  after_match allow n a d =
      Decides-iff
        (
          λ v. (inr (inl (refl, a)), λ c. elim c [ inl e ↦ allow≢deny e.0 | inr r ↦ v.1 r ]),
          λ v. (inl refl, λ r. v.1 (inr r)),
        )
        d
  after_match deny n a d = Decides-pure false (false_iff (λ v. v.1 (inl (refl, a))))

  evaluate_statements-Decides :
      (stmts : List Statement) (allowed : Bool)
      → All IsShallowStatement stmts
      → Decides (IsCoherent js) (evaluate_statements js stmts ctx allowed) (Verdict stmts allowed)
  unfolding evaluate_statements
  evaluate_statements-Decides [] allowed h =
      Decides-pure allowed (λ e. (inl e, λ n. n), λ v. elim v.0 [ inl e ↦ e | inr n ↦ absurd n ])
  evaluate_statements-Decides (stmt ∷ stmts) allowed (h, hs) =
      let after = evaluate_statements-Decides stmts true hs in
      let rest = evaluate_statements-Decides stmts allowed hs in
      Decides-if _ _ _ (matches_statement-Decides stmt h) (λ a. after_match stmt.effect _ a after)
        (λ n.
          Decides-iff
            (
              λ v. (
                elim v.0 [ inl e ↦ inl e | inr r ↦ inr (inr r) ],
                λ c. elim c [ inl e ↦ n e.1 | inr r ↦ v.1 r ],
              ),
              λ v. (
                elim v.0 [
                  | inl e ↦ inl e
                  | inr c ↦ elim c [ inl e ↦ absurd (n e.1) | inr r ↦ inr r ]
                ],
                λ r. v.1 (inr r),
              ),
            )
            rest)

  -- From a coherent cache a policy is evaluated to true for a request exactly when some statement
  -- that applies allows it and none that applies denies it; the order of the statements and the
  -- cache's contents make no difference, and the cache stays coherent.
  pub evaluate_policy_for_context-Decides :
      (policy : PolicyDocument)
      → IsShallow policy
      → Decides (IsCoherent js) (evaluate_policy_for_context js policy ctx) (Permits policy)
  unfolding evaluate_policy_for_context
  evaluate_policy_for_context-Decides policy h =
      Decides-iff
        (λ v. (elim v.0 [ inl e ↦ absurd (false≢true e) | inr r ↦ r ], v.1), λ v. (inr v.0, v.1))
        (evaluate_statements-Decides policy.statements false h)

-- From a coherent cache `evaluatePolicy` answers true exactly when the policy permits every one of
-- the requests, where a policy permits a request if some statement that applies allows it and none
-- that applies denies it; and the cache stays coherent.
pub evaluate_policy-Decides :
    (js : Runtime) (policy : PolicyDocument) (ctxs : List RequestContext)
    → IsShallow policy
    → Decides
        (IsCoherent js)
        (evaluate_policy js policy ctxs)
        (All (λ ctx. Permits js ctx policy) ctxs)
unfolding evaluate_policy
evaluate_policy-Decides js policy [] h = Decides-pure true (λ _. tt, λ _. refl)
evaluate_policy-Decides js policy (ctx ∷ ctxs) h =
    Decides-and _ _ (evaluate_policy_for_context-Decides js ctx policy h)
      (evaluate_policy-Decides js policy ctxs h)

-- From a coherent cache of regular expressions `evaluatePolicy` answers true exactly when the policy,
-- whose conditions are nested at most 20 deep, permits every one of the requests: some statement
-- that applies to the request allows it and none that applies denies it, whatever the order of the
-- statements and the contents of the cache; and the cache stays coherent.
pub evaluate_policy_iff :
    (js : Runtime) (policy : PolicyDocument) (ctxs : List RequestContext) (cache : RegexCache js)
    → IsShallow policy
    → IsCoherent js cache
    → (((evaluate_policy js policy ctxs cache).0 ≡ true) ↔ All (λ ctx. Permits js ctx policy) ctxs)
      × IsCoherent js (evaluate_policy js policy ctxs cache).1
evaluate_policy_iff js policy ctxs cache shallow coherent =
    (evaluate_policy-Decides js policy ctxs shallow).run cache coherent
