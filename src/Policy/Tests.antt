-- ===== src/Policy/Tests.antt =====
-- The theorems of the policy engine at concrete policies and requests.
use purge_api_gateway.Base.{[], ◌∷◌, true, ◌≡◌, ◌↔◌, ◌≤◌, lit, Any, All, arith}
use purge_api_gateway.Policy.Types.{FieldValue, ConditionValue}
use purge_api_gateway.Policy.Sample.{
  literal_patterns, nothing_compiled, host_is, purger, purger-IsShallow, request,
}
use purge_api_gateway.Policy.Regex.{IsCoherent, eval_regex, eval_regex-compile, regex_answer}
use purge_api_gateway.Policy.Matching.{
  matches_action, matches_resource, CoversAction, CoversResource, matches_action_iff,
  matches_resource_iff,
}
use purge_api_gateway.Policy.Conditions.{evaluate_condition}
use purge_api_gateway.Policy.Conditions.Laws.{nesting, Holds, evaluate_condition_iff}
use purge_api_gateway.Policy.Evaluate.{evaluate_policy}
use purge_api_gateway.Policy.Evaluate.Laws.{Permits, evaluate_policy_iff}

evaluate_policy_iff_example :
    (((evaluate_policy literal_patterns purger (request ∷ []) []).0 ≡ true)
      ↔ All (λ ctx. Permits literal_patterns ctx purger) (request ∷ []))
    × IsCoherent literal_patterns (evaluate_policy literal_patterns purger (request ∷ []) []).1
evaluate_policy_iff_example =
    evaluate_policy_iff literal_patterns purger (request ∷ []) [] purger-IsShallow nothing_compiled

shallow_host : nesting (host_is (lit "a.org")) ≤ 20
unfolding nesting
shallow_host = omega arith

evaluate_condition_iff_example :
    (((evaluate_condition literal_patterns (host_is (lit "a.org")) request.fields 0 []).0 ≡ true)
      ↔ Holds literal_patterns (host_is (lit "a.org")) request.fields)
    × IsCoherent literal_patterns
        (evaluate_condition literal_patterns (host_is (lit "a.org")) request.fields 0 []).1
evaluate_condition_iff_example =
    evaluate_condition_iff literal_patterns (host_is (lit "a.org")) request.fields [] shallow_host
      nothing_compiled

eval_regex-compile_example :
    ((eval_regex literal_patterns
        (FieldValue.text (lit "a"))
        (ConditionValue.text (lit "b"))
        true
        []).0
      ≡ regex_answer literal_patterns (literal_patterns.compile (lit "b")) (lit "a") true)
    × IsCoherent literal_patterns
        (eval_regex literal_patterns
          (FieldValue.text (lit "a"))
          (ConditionValue.text (lit "b"))
          true
          []).1
eval_regex-compile_example =
    eval_regex-compile literal_patterns (lit "a") (lit "b") true [] nothing_compiled

matches_action_iff_example :
    (matches_action (lit "s3:*" ∷ lit "purge:*" ∷ []) (lit "purge:url") ≡ true)
    ↔ Any (CoversAction (lit "purge:url")) (lit "s3:*" ∷ lit "purge:*" ∷ [])
matches_action_iff_example = matches_action_iff (lit "s3:*" ∷ lit "purge:*" ∷ []) (lit "purge:url")

matches_resource_iff_example :
    (matches_resource (lit "bucket:b" ∷ []) (lit "bucket:b/k") ≡ true)
    ↔ Any (CoversResource (lit "bucket:b/k")) (lit "bucket:b" ∷ [])
matches_resource_iff_example = matches_resource_iff (lit "bucket:b" ∷ []) (lit "bucket:b/k")
