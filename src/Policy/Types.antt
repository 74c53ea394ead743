-- ===== src/Policy/Types.antt =====
-- The policy document and the request context of src/policy-types.ts. A union of object types is a
-- data type; a list of conditions inside a condition is a type of its own, `Conditions`.
use purge_api_gateway.Base.{List, Bool, ℕ, Str}

pub data Effect : Type 0 where
  allow deny : Effect

pub data LeafOperator : Type 0 where
  op_eq op_ne op_contains op_not_contains op_starts_with op_ends_with : LeafOperator
  op_matches op_not_matches op_in op_not_in op_wildcard op_exists op_not_exists : LeafOperator
  op_lt op_gt op_lte op_gte : LeafOperator

pub data ConditionValue : Type 0 where
  text : Str → ConditionValue
  texts : List Str → ConditionValue
  flag : Bool → ConditionValue

-- A value of `Record<string, string | boolean>`.
pub data FieldValue : Type 0 where
  text : Str → FieldValue
  flag : Bool → FieldValue

pub record LeafCondition : Type 0 where
  pub field : Str
  pub operator : LeafOperator
  pub value : ConditionValue

mutual
  pub data Condition : Type 0 where
    leaf : LeafCondition → Condition
    any : Conditions → Condition
    all : Conditions → Condition
    negated : Condition → Condition

  pub data Conditions : Type 0 where
    nil : Conditions
    cons : Condition → Conditions → Conditions

-- `conditions` is optional in the source; a missing one and `[]` are read alike there.
pub record Statement : Type 0 where
  pub effect : Effect
  pub actions : List Str
  pub resources : List Str
  pub conditions : List Condition

pub record PolicyDocument : Type 0 where
  pub statements : List Statement

abbrev pub Fields : Type 0
Fields = List (Str × FieldValue)

pub record RequestContext : Type 0 where
  pub action : Str
  pub resource : Str
  pub fields : Fields

abbrev pub max_regex_length : ℕ
max_regex_length = 256
