-- ===== src/Policy/Evaluate.antt =====
-- `evaluatePolicy`, `evaluatePolicyForContext` and `matchesStatement` of src/policy-engine.ts.
pub mod Laws
use purge_api_gateway.Base.{List, [], ◌∷◌, Bool, true, false, if◌then◌else◌}
use purge_api_gateway.Policy.Runtime.{Runtime}
use purge_api_gateway.Policy.Types.{
  Effect, allow, deny, Condition, Fields, Statement, PolicyDocument, RequestContext,
}
use purge_api_gateway.Policy.Regex.{RegexCache}
use purge_api_gateway.Policy.Decides.{Test, pure, ◌>>=◌}
use purge_api_gateway.Policy.Matching.{matches_action, matches_resource}
use purge_api_gateway.Policy.Conditions.{evaluate_condition}

abbrev pub is_deny : Effect → Bool
is_deny allow = false
is_deny deny = true

module _ (js : Runtime) where
  -- The loop over the conditions of a statement, which are joined by "and".
  unfoldable pub conditions_hold : List Condition → Fields → Test (RegexCache js)
  conditions_hold [] fields = pure true
  conditions_hold (cond ∷ conds) fields =
      let rest = conditions_hold conds fields in
      evaluate_condition js cond fields 0 >>= λ b. if b then rest else pure false

  unfoldable pub matches_statement : Statement → RequestContext → Test (RegexCache js)
  matches_statement stmt ctx =
      if matches_action stmt.actions ctx.action
      then if matches_resource stmt.resources ctx.resource
        then conditions_hold stmt.conditions ctx.fields
        else pure false
      else pure false

  -- The loop of `evaluatePolicyForContext`, with its variable `allowed`.
  unfoldable pub evaluate_statements : List Statement → RequestContext → Bool → Test (RegexCache js)
  evaluate_statements [] ctx allowed = pure allowed
  evaluate_statements (stmt ∷ stmts) ctx allowed =
      let matched = evaluate_statements stmts ctx true in
      let unmatched = evaluate_statements stmts ctx allowed in
      matches_statement stmt ctx >>= λ b.
      if b then (if is_deny stmt.effect then pure false else matched) else unmatched

  unfoldable pub evaluate_policy_for_context :
      PolicyDocument → RequestContext → Test (RegexCache js)
  evaluate_policy_for_context policy ctx = evaluate_statements policy.statements ctx false

  unfoldable pub evaluate_policy : PolicyDocument → List RequestContext → Test (RegexCache js)
  evaluate_policy policy [] = pure true
  evaluate_policy policy (ctx ∷ ctxs) =
      let rest = evaluate_policy policy ctxs in
      evaluate_policy_for_context policy ctx >>= λ b. if b then rest else pure false
