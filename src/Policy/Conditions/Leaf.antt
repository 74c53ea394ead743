-- ===== src/Policy/Conditions/Leaf.antt =====
-- What each leaf operator means, and that `evaluateLeaf` decides it with any coherent cache.
use purge_api_gateway.Base.{
  List, [], ◌∷◌, ◌++◌, Bool, true, false, not, Option, none, some, Str, str_eq, str_eq_iff,
  starts_with_iff, ends_with_iff, includes_iff, lookup, some_of, Any, ◌≡◌, ◌↔◌, refl, arith, sym,
  subst, inl, inr, Option-cases,
}
use mathlib.Core.Bool.{false≢true}
use mathlib.Core.Option.{some-injective, none-ne-some}
use purge_api_gateway.Policy.Runtime.{Runtime}
use purge_api_gateway.Policy.Types.{
  FieldValue, ConditionValue, LeafOperator, LeafCondition, Fields, op_eq, op_ne, op_contains,
  op_not_contains, op_starts_with, op_ends_with, op_matches, op_not_matches, op_in, op_not_in,
  op_wildcard, op_exists, op_not_exists, op_lt, op_gt, op_lte, op_gte,
}
use purge_api_gateway.Policy.Regex.{IsCoherent, eval_regex, eval_regex-compile, regex_answer}
use purge_api_gateway.Policy.Decides.{Decides, Decides-pure}
use purge_api_gateway.Policy.Conditions.{
  strictly_equal, both_texts, listed, text_of_field, number_of_field, number_of_value, glob_source,
  eval_numeric, eval_wildcard, eval_present, eval_operator, evaluate_leaf,
}

-- The two values are the same text or the same Boolean.
abbrev pub Same : FieldValue → ConditionValue → Type 0
Same (FieldValue.text s) (ConditionValue.text t) = s ≡ t
Same (FieldValue.flag a) (ConditionValue.flag b) = a ≡ b
Same _ _ = ⊥

-- Both values are texts, in the relation.
abbrev pub Texts : (Str → Str → Type 0) → FieldValue → ConditionValue → Type 0
Texts R (FieldValue.text s) (ConditionValue.text t) = R s t
Texts R _ _ = ⊥

-- The value is a list, of which the property holds.
abbrev pub Listed : (List Str → Type 0) → ConditionValue → Type 0
Listed P (ConditionValue.texts values) = P values
Listed P _ = ⊥

module _ (js : Runtime) where
  -- A text matches a regular expression that compiles, or fails to.
  abbrev pub RegexAnswers : Bool → Str → Str → Type 0
  RegexAnswers answer s pattern =
      (re : js.Regex) × (js.compile pattern ≡ some re) × (js.test re s ≡ answer)

  abbrev pub GlobMatches : Str → Str → Type 0
  GlobMatches s pattern =
      (re : js.Regex) × (js.compile_ignoring_case (glob_source pattern) ≡ some re)
      × (js.test re s ≡ true)

  -- Both values are numbers, in the order.
  abbrev pub Compares : (js.Number → js.Number → Bool) → FieldValue → ConditionValue → Type 0
  Compares cmp f v =
      (js.is_nan (number_of_field js f) ≡ false)
      × (js.is_nan (number_of_value js v) ≡ false)
      × (cmp (number_of_field js f) (number_of_value js v) ≡ true)

  abbrev pub PresentHolds : LeafOperator → FieldValue → ConditionValue → Type 0
  PresentHolds op_eq f v = Same f v
  PresentHolds op_ne f v = ¬ Same f v
  PresentHolds op_contains f v =
      Texts (λ s t. (front : Str) × (rest : Str) × (s ≡ front ++ (t ++ rest))) f v
  PresentHolds op_not_contains f v =
      Texts (λ s t. ¬ ((front : Str) × (rest : Str) × (s ≡ front ++ (t ++ rest)))) f v
  PresentHolds op_starts_with f v = Texts (λ s t. (rest : Str) × (s ≡ t ++ rest)) f v
  PresentHolds op_ends_with f v = Texts (λ s t. (front : Str) × (s ≡ front ++ t)) f v
  PresentHolds op_matches f v = Texts (RegexAnswers true) f v
  PresentHolds op_not_matches f v = Texts (RegexAnswers false) f v
  PresentHolds op_in f v = Listed (Any (λ t. text_of_field f ≡ t)) v
  PresentHolds op_not_in f v = Listed (λ ts. ¬ Any (λ t. text_of_field f ≡ t) ts) v
  PresentHolds op_wildcard f v = Texts GlobMatches f v
  PresentHolds op_exists f v = Unit
  PresentHolds op_not_exists f v = ⊥
  PresentHolds op_lt f v = Compares js.less f v
  PresentHolds op_gt f v = Compares (λ a b. js.less b a) f v
  PresentHolds op_lte f v = Compares js.less_or_equal f v
  PresentHolds op_gte f v = Compares (λ a b. js.less_or_equal b a) f v

  -- A missing field satisfies `not_exists` alone.
  abbrev pub OperatorHolds : LeafOperator → Option FieldValue → ConditionValue → Type 0
  OperatorHolds operator (some field) value = PresentHolds operator field value
  OperatorHolds op_not_exists none value = Unit
  OperatorHolds _ none value = ⊥

  abbrev pub LeafHolds : LeafCondition → Fields → Type 0
  LeafHolds cond fields = OperatorHolds cond.operator (lookup cond.field fields) cond.value

not_iff : {P : Type 0} (b : Bool) → (b ≡ true) ↔ P → (not b ≡ true) ↔ (¬ P)
not_iff true e = (λ h. absurd (false≢true h), λ n. absurd (n (e.0 refl)))
not_iff false e = (λ _ p. false≢true (e.1 p), λ _. refl)

never : {P : Type 0} → ¬ P → (false ≡ true) ↔ P
never n = (λ h. absurd (false≢true h), λ p. absurd (n p))

strictly_equal_iff : (f : FieldValue) (v : ConditionValue) → (strictly_equal f v ≡ true) ↔ Same f v
unfolding strictly_equal
strictly_equal_iff (FieldValue.text s) (ConditionValue.text t) = str_eq_iff s t
strictly_equal_iff (FieldValue.flag true) (ConditionValue.flag b) = (λ h. sym h, λ h. sym h)
strictly_equal_iff (FieldValue.flag false) (ConditionValue.flag b) = ground arith
strictly_equal_iff (FieldValue.text s) (ConditionValue.texts t) = never (λ h. h)
strictly_equal_iff (FieldValue.text s) (ConditionValue.flag t) = never (λ h. h)
strictly_equal_iff (FieldValue.flag true) (ConditionValue.text t) = never (λ h. h)
strictly_equal_iff (FieldValue.flag true) (ConditionValue.texts t) = never (λ h. h)
strictly_equal_iff (FieldValue.flag false) (ConditionValue.text t) = never (λ h. h)
strictly_equal_iff (FieldValue.flag false) (ConditionValue.texts t) = never (λ h. h)

both_texts_iff :
    (test : Str → Str → Bool) (R : Str → Str → Type 0)
    → ((s t : Str) → (test s t ≡ true) ↔ R s t)
    → (f : FieldValue) (v : ConditionValue) → (both_texts test f v ≡ true) ↔ Texts R f v
unfolding both_texts
both_texts_iff test R e (FieldValue.text s) (ConditionValue.text t) = e s t
both_texts_iff test R e (FieldValue.text s) _ = never (λ h. h)
both_texts_iff test R e (FieldValue.flag s) v = never (λ h. h)

listed_iff :
    (test : Bool → Bool) (P : List Str → Type 0) (f : FieldValue)
    → ((ts : List Str) → (test (some_of (str_eq (text_of_field f)) ts) ≡ true) ↔ P ts)
    → (v : ConditionValue) → (listed test f v ≡ true) ↔ Listed P v
unfolding listed
listed_iff test P f e (ConditionValue.texts ts) = e ts
listed_iff test P f e _ = never (λ h. h)

mem_iff : (s : Str) (ts : List Str) → (some_of (str_eq s) ts ≡ true) ↔ Any (λ t. s ≡ t) ts
mem_iff s [] = never (λ h. h)
mem_iff s (t ∷ ts) = ground (arith, str_eq_iff s t, mem_iff s ts)

module _ (js : Runtime) where
  eval_wildcard_iff :
      (s pattern : Str) → (eval_wildcard js s pattern ≡ true) ↔ GlobMatches js s pattern
  unfolding eval_wildcard
  eval_wildcard_iff s pattern =
      elim (Option-cases (js.compile_ignoring_case (glob_source pattern))) [
        | inl bad ↦ rw (bad, eval_wildcard) (never (λ (re, e, _). none-ne-some _ e))
        | inr (re, good) ↦
            rw (good, eval_wildcard)
              (
                λ h. (re, refl, h),
                λ (re', e, h). subst (λ r. js.test r s ≡ true) (sym (some-injective _ _ e)) h,
              )
      ]

  eval_numeric_iff :
      (f : FieldValue) (v : ConditionValue) (cmp : js.Number → js.Number → Bool)
      → (eval_numeric js f v cmp ≡ true) ↔ Compares js cmp f v
  unfolding eval_numeric
  eval_numeric_iff f v cmp = ground arith

  regex_answer_iff :
      (compiles : Option js.Regex) (s : Str) (negate : Bool)
      → (regex_answer js compiles s negate ≡ true)
        ↔ ((re : js.Regex) × (compiles ≡ some re) × (js.test re s ≡ not negate))
  regex_answer_iff none s negate = never (λ (re, e, _). none-ne-some _ e)
  regex_answer_iff (some re) s true = (
    λ h. (re, refl, ground arith),
    λ (re', e, h).
        let h' : js.test re s ≡ false =
          subst (λ r. js.test r s ≡ false) (sym (some-injective _ _ e)) h in
        ground arith,
  )
  regex_answer_iff (some re) s false = (
    λ h. (re, refl, h),
    λ (re', e, h). subst (λ r. js.test r s ≡ true) (sym (some-injective _ _ e)) h,
  )

  eval_regex-Decides :
      (f : FieldValue) (v : ConditionValue) (negate : Bool)
      → Decides
          (IsCoherent js)
          (eval_regex js f v negate)
          (Texts (RegexAnswers js (not negate)) f v)
  unfolding eval_regex
  eval_regex-Decides (FieldValue.text s) (ConditionValue.text pattern) negate = record {
    run = λ cache h.
        let (same, kept) = eval_regex-compile js s pattern negate cache h in
        (rw same (regex_answer_iff (js.compile pattern) s negate), kept);
  }
  eval_regex-Decides (FieldValue.text s) (ConditionValue.texts p) negate =
      Decides-pure false (never (λ h. h))
  eval_regex-Decides (FieldValue.text s) (ConditionValue.flag p) negate =
      Decides-pure false (never (λ h. h))
  eval_regex-Decides (FieldValue.flag s) v negate = Decides-pure false (never (λ h. h))

  eval_present-Decides :
      (op : LeafOperator) (f : FieldValue) (v : ConditionValue)
      → Decides (IsCoherent js) (eval_present js op f v) (PresentHolds js op f v)
  unfolding eval_present
  eval_present-Decides op_eq f v = Decides-pure _ (strictly_equal_iff f v)
  eval_present-Decides op_ne f v = Decides-pure _ (not_iff _ (strictly_equal_iff f v))
  eval_present-Decides op_contains f v = Decides-pure _ (both_texts_iff _ _ includes_iff f v)
  eval_present-Decides op_not_contains f v =
      Decides-pure _ (both_texts_iff _ _ (λ s t. not_iff _ (includes_iff s t)) f v)
  eval_present-Decides op_starts_with f v = Decides-pure _ (both_texts_iff _ _ starts_with_iff f v)
  eval_present-Decides op_ends_with f v = Decides-pure _ (both_texts_iff _ _ ends_with_iff f v)
  eval_present-Decides op_matches f v = eval_regex-Decides f v false
  eval_present-Decides op_not_matches f v = eval_regex-Decides f v true
  eval_present-Decides op_in f v = Decides-pure _ (listed_iff _ _ f (mem_iff (text_of_field f)) v)
  eval_present-Decides op_not_in f v =
      Decides-pure _ (listed_iff _ _ f (λ ts. not_iff _ (mem_iff (text_of_field f) ts)) v)
  eval_present-Decides op_wildcard f v = Decides-pure _ (both_texts_iff _ _ eval_wildcard_iff f v)
  eval_present-Decides op_exists f v = Decides-pure true (λ _. tt, λ _. refl)
  eval_present-Decides op_not_exists f v = Decides-pure false (never (λ h. h))
  eval_present-Decides op_lt f v = Decides-pure _ (eval_numeric_iff f v _)
  eval_present-Decides op_gt f v = Decides-pure _ (eval_numeric_iff f v _)
  eval_present-Decides op_lte f v = Decides-pure _ (eval_numeric_iff f v _)
  eval_present-Decides op_gte f v = Decides-pure _ (eval_numeric_iff f v _)

  eval_operator-Decides :
      (op : LeafOperator) (f : Option FieldValue) (v : ConditionValue)
      → Decides (IsCoherent js) (eval_operator js op f v) (OperatorHolds js op f v)
  unfolding eval_operator
  eval_operator-Decides op (some f) v = eval_present-Decides op f v
  eval_operator-Decides op_not_exists none v = Decides-pure true (λ _. tt, λ _. refl)
  eval_operator-Decides _ none v = Decides-pure false (never (λ h. h))

  -- From a coherent cache a leaf condition is true exactly when its operator's meaning holds of the
  -- field's value, and the cache stays coherent.
  pub evaluate_leaf-Decides :
      (cond : LeafCondition) (fields : Fields)
      → Decides (IsCoherent js) (evaluate_leaf js cond fields) (LeafHolds js cond fields)
  unfolding evaluate_leaf
  evaluate_leaf-Decides cond fields =
      eval_operator-Decides cond.operator (lookup cond.field fields) cond.value
