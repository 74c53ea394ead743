-- ===== src/Policy/Conditions.antt =====
-- `evaluateCondition`, `evaluateLeaf`, `evalNumeric` and `evalWildcard` of src/policy-engine.ts.
-- The fields of a request are the own properties of its record: names that an object inherits from
-- `Object.prototype` are left out. Log lines are left out.
pub mod Leaf
pub mod Laws
use purge_api_gateway.Base.{
  List, [], ◌∷◌, ◌++◌, Bool, true, false, not, ◌||◌, ◌&&◌, ℕ, ◌+◌, ◌==◌, ltb, Option, none, some,
  Str, String, lit, str_eq, starts_with, ends_with, includes, lookup, if◌then◌else◌, some_of,
}
use purge_api_gateway.Policy.Runtime.{Runtime}
use purge_api_gateway.Policy.Types.{
  FieldValue, ConditionValue, LeafOperator, LeafCondition, Condition, Conditions, Fields, leaf, any,
  all, negated, nil, cons, op_eq, op_ne, op_contains, op_not_contains, op_starts_with, op_ends_with,
  op_matches, op_not_matches, op_in, op_not_in, op_wildcard, op_exists, op_not_exists, op_lt, op_gt,
  op_lte, op_gte,
}
use purge_api_gateway.Policy.Regex.{RegexCache, eval_regex}
use purge_api_gateway.Policy.Decides.{Test, pure, ◌>>=◌}

abbrev pub max_condition_depth : ℕ
max_condition_depth = 20

-- `fieldValue === cond.value`
unfoldable pub strictly_equal : FieldValue → ConditionValue → Bool
strictly_equal (FieldValue.text s) (ConditionValue.text t) = str_eq s t
strictly_equal (FieldValue.flag true) (ConditionValue.flag b) = b
strictly_equal (FieldValue.flag false) (ConditionValue.flag b) = not b
strictly_equal _ _ = false

-- `typeof fieldValue === 'string' && typeof cond.value === 'string' && test(fieldValue, cond.value)`
unfoldable pub both_texts : (Str → Str → Bool) → FieldValue → ConditionValue → Bool
both_texts test (FieldValue.text s) (ConditionValue.text t) = test s t
both_texts test _ _ = false

abbrev pub text_of_bool : Bool → Str
text_of_bool true = lit "true"
text_of_bool false = lit "false"

-- `String(fieldValue)`
abbrev pub text_of_field : FieldValue → Str
text_of_field (FieldValue.text s) = s
text_of_field (FieldValue.flag b) = text_of_bool b

-- `Array.isArray(cond.value) && test(cond.value.includes(String(fieldValue)))`
unfoldable pub listed : (Bool → Bool) → FieldValue → ConditionValue → Bool
listed test field (ConditionValue.texts values) =
    test (some_of (str_eq (text_of_field field)) values)
listed test field _ = false

-- `values.join(',')`, which `Number(values)` reads.
abbrev pub join_by_comma : List Str → Str
join_by_comma [] = []
join_by_comma (s ∷ []) = s
join_by_comma (s ∷ t ∷ rest) = s ++ (lit "," ++ join_by_comma (t ∷ rest))

-- `pattern.replace(/[.+?^${}()|[\]\\]/g, '\\$&')`
abbrev pub special_units : Str
special_units = lit ".+?^${}()|[]\\"

unfoldable pub escape_specials : Str → Str
escape_specials [] = []
escape_specials (c ∷ s) =
    let rest = escape_specials s in
    if some_of (λ d. d == c) special_units then b'\\' ∷ c ∷ rest else c ∷ rest

-- `.replace(/\*/g, '.*')`
unfoldable pub expand_stars : Str → Str
expand_stars [] = []
expand_stars (c ∷ s) =
    let rest = expand_stars s in if c == b'*' then b'.' ∷ b'*' ∷ rest else c ∷ rest

-- The source of the regular expression of a glob.
abbrev pub glob_source : Str → Str
glob_source pattern = lit "^" ++ (expand_stars (escape_specials pattern) ++ lit "$")

module _ (js : Runtime) where
  abbrev pub number_of_field : FieldValue → js.Number
  number_of_field (FieldValue.text s) = js.number_of_text s
  number_of_field (FieldValue.flag b) = js.number_of_bool b

  abbrev pub number_of_value : ConditionValue → js.Number
  number_of_value (ConditionValue.text s) = js.number_of_text s
  number_of_value (ConditionValue.texts values) = js.number_of_text (join_by_comma values)
  number_of_value (ConditionValue.flag b) = js.number_of_bool b

  unfoldable pub eval_numeric : FieldValue → ConditionValue → (js.Number → js.Number → Bool) → Bool
  eval_numeric field value cmp =
      let a = number_of_field field in
      let b = number_of_value value in if js.is_nan a || js.is_nan b then false else cmp a b

  unfoldable pub eval_wildcard : Str → Str → Bool
  eval_wildcard value pattern = elim (js.compile_ignoring_case (glob_source pattern)) [
    | none ↦ false
    | some re ↦ js.test re value
  ]

  -- The operators that the `switch` of `evaluateLeaf` tells apart, for a field that is present.
  unfoldable pub eval_present : LeafOperator → FieldValue → ConditionValue → Test (RegexCache js)
  eval_present op_eq f v = pure (strictly_equal f v)
  eval_present op_ne f v = pure (not (strictly_equal f v))
  eval_present op_contains f v = pure (both_texts includes f v)
  eval_present op_not_contains f v = pure (both_texts (λ s t. not (includes s t)) f v)
  eval_present op_starts_with f v = pure (both_texts starts_with f v)
  eval_present op_ends_with f v = pure (both_texts ends_with f v)
  eval_present op_matches f v = eval_regex js f v false
  eval_present op_not_matches f v = eval_regex js f v true
  eval_present op_in f v = pure (listed (λ b. b) f v)
  eval_present op_not_in f v = pure (listed not f v)
  eval_present op_wildcard f v = pure (both_texts eval_wildcard f v)
  eval_present op_exists f v = pure true
  eval_present op_not_exists f v = pure false
  eval_present op_lt f v = pure (eval_numeric f v js.less)
  eval_present op_gt f v = pure (eval_numeric f v (λ a b. js.less b a))
  eval_present op_lte f v = pure (eval_numeric f v js.less_or_equal)
  eval_present op_gte f v = pure (eval_numeric f v (λ a b. js.less_or_equal b a))

  -- A missing field fails every operator but `not_exists`.
  unfoldable pub eval_operator :
      LeafOperator → Option FieldValue → ConditionValue → Test (RegexCache js)
  eval_operator operator (some field) value = eval_present operator field value
  eval_operator op_not_exists none value = pure true
  eval_operator _ none value = pure false

  unfoldable pub evaluate_leaf : LeafCondition → Fields → Test (RegexCache js)
  evaluate_leaf cond fields = eval_operator cond.operator (lookup cond.field fields) cond.value

  unfoldable mutual
    pub evaluate_condition : Condition → Fields → ℕ → Test (RegexCache js)
    evaluate_condition (leaf cond) fields depth =
        if ltb max_condition_depth depth then pure false else evaluate_leaf cond fields
    evaluate_condition (any conds) fields depth =
        let children = evaluate_some conds fields (depth + 1) in
        if ltb max_condition_depth depth then pure false else children
    evaluate_condition (all conds) fields depth =
        let children = evaluate_every conds fields (depth + 1) in
        if ltb max_condition_depth depth then pure false else children
    evaluate_condition (negated cond) fields depth =
        let child = evaluate_condition cond fields (depth + 1) in
        if ltb max_condition_depth depth then pure false else (child >>= λ b. pure (not b))

    -- `conds.some((c) => evaluateCondition(c, fields, depth))`
    pub evaluate_some : Conditions → Fields → ℕ → Test (RegexCache js)
    evaluate_some nil fields depth = pure false
    evaluate_some (cons cond conds) fields depth =
        let rest = evaluate_some conds fields depth in
        evaluate_condition cond fields depth >>= λ b. if b then pure true else rest

    -- `conds.every((c) => evaluateCondition(c, fields, depth))`
    pub evaluate_every : Conditions → Fields → ℕ → Test (RegexCache js)
    evaluate_every nil fields depth = pure true
    evaluate_every (cons cond conds) fields depth =
        let rest = evaluate_every conds fields depth in
        evaluate_condition cond fields depth >>= λ b. if b then rest else pure false
