-- ===== src/Policy/Conditions/Laws.antt =====
-- The meaning of a condition, and that `evaluateCondition` decides it as deep as validation allows.
use purge_api_gateway.Base.{true, false, ℕ, suc, ◌+◌, ◌≤◌, ltb, ◌≡◌, ◌⊎◌, ◌↔◌, max, arith, refl}
use mathlib.Core.Bool.{false≢true}
use purge_api_gateway.Policy.Runtime.{Runtime}
use purge_api_gateway.Policy.Types.{
  Condition, Conditions, Fields, leaf, any, all, negated, nil, cons,
}
use purge_api_gateway.Policy.Regex.{RegexCache, IsCoherent}
use purge_api_gateway.Policy.Decides.{Decides, Decides-pure, Decides-or, Decides-and, Decides-not}
use purge_api_gateway.Policy.Conditions.{
  evaluate_condition, evaluate_some, evaluate_every, max_condition_depth,
}
use purge_api_gateway.Policy.Conditions.Leaf.{LeafHolds, evaluate_leaf-Decides}

-- How many compound conditions stand above the deepest one.
unfoldable mutual
  pub nesting : Condition → ℕ
  nesting (leaf cond) = 0
  nesting (any conds) = nesting_all conds
  nesting (all conds) = nesting_all conds
  nesting (negated cond) = suc (nesting cond)

  -- One more than the nesting of the deepest child; 0 of no children.
  pub nesting_all : Conditions → ℕ
  nesting_all nil = 0
  nesting_all (cons cond conds) = max (suc (nesting cond)) (nesting_all conds)

module _ (js : Runtime) where
  abbrev mutual
    pub Holds : Condition → Fields → Type 0
    Holds (leaf cond) fields = LeafHolds js cond fields
    Holds (any conds) fields = SomeHold conds fields
    Holds (all conds) fields = EveryHolds conds fields
    Holds (negated cond) fields = ¬ Holds cond fields

    pub SomeHold : Conditions → Fields → Type 0
    SomeHold nil fields = ⊥
    SomeHold (cons cond conds) fields = Holds cond fields ⊎ SomeHold conds fields

    pub EveryHolds : Conditions → Fields → Type 0
    EveryHolds nil fields = Unit
    EveryHolds (cons cond conds) fields = Holds cond fields × EveryHolds conds fields

  not_too_deep : (depth : ℕ) → depth ≤ max_condition_depth → ltb max_condition_depth depth ≡ false
  not_too_deep depth h = ground arith

  mutual
    unfolding evaluate_condition nesting

    condition-Decides :
        (cond : Condition) (fields : Fields) (depth : ℕ)
        → nesting cond + depth ≤ max_condition_depth
        → Decides (IsCoherent js) (evaluate_condition js cond fields depth) (Holds cond fields)
    condition-Decides (leaf cond) fields depth h =
        rw (not_too_deep depth (omega arith)) (evaluate_leaf-Decides js cond fields)
    condition-Decides (any conds) fields depth h =
        rw (not_too_deep depth (omega arith)) (some-Decides conds fields (depth + 1) (omega arith))
    condition-Decides (all conds) fields depth h =
        rw (not_too_deep depth (omega arith)) (every-Decides conds fields (depth + 1) (omega arith))
    condition-Decides (negated cond) fields depth h =
        rw (not_too_deep depth (omega arith))
          (Decides-not _ (condition-Decides cond fields (depth + 1) (omega arith)))

    some-Decides :
        (conds : Conditions) (fields : Fields) (depth : ℕ)
        → nesting_all conds + depth ≤ suc max_condition_depth
        → Decides (IsCoherent js) (evaluate_some js conds fields depth) (SomeHold conds fields)
    some-Decides nil fields depth h = Decides-pure false (λ e. absurd (false≢true e), λ e. absurd e)
    some-Decides (cons cond conds) fields depth h =
        Decides-or _ _ (condition-Decides cond fields depth (omega arith))
          (some-Decides conds fields depth (omega arith))

    every-Decides :
        (conds : Conditions) (fields : Fields) (depth : ℕ)
        → nesting_all conds + depth ≤ suc max_condition_depth
        → Decides (IsCoherent js) (evaluate_every js conds fields depth) (EveryHolds conds fields)
    every-Decides nil fields depth h = Decides-pure true (λ _. tt, λ _. refl)
    every-Decides (cons cond conds) fields depth h =
        Decides-and _ _ (condition-Decides cond fields depth (omega arith))
          (every-Decides conds fields depth (omega arith))

  -- From a coherent cache a condition whose compound conditions are nested at most 20 deep is
  -- true exactly when it holds, and the cache stays coherent.
  pub evaluate_condition-Decides :
      (cond : Condition) (fields : Fields)
      → nesting cond ≤ max_condition_depth
      → Decides (IsCoherent js) (evaluate_condition js cond fields 0) (Holds cond fields)
  evaluate_condition-Decides cond fields h = condition-Decides cond fields 0 (omega arith)

  -- From a coherent cache a condition whose compound conditions are nested at most 20 deep is
  -- evaluated to true exactly when it holds of the fields, and the cache stays coherent.
  pub evaluate_condition_iff :
      (cond : Condition) (fields : Fields) (cache : RegexCache js)
      → nesting cond ≤ max_condition_depth
      → IsCoherent js cache
      → (((evaluate_condition js cond fields 0 cache).0 ≡ true) ↔ Holds cond fields)
        × IsCoherent js (evaluate_condition js cond fields 0 cache).1
  evaluate_condition_iff cond fields cache shallow coherent =
      (evaluate_condition-Decides cond fields shallow).run cache coherent
