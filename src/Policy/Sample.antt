-- ===== src/Policy/Sample.antt =====
-- A small runtime, policy and request, at which the theorems of all parts are applied.
use purge_api_gateway.Base.{
  [], ◌∷◌, ltb, leb, some, Str, lit, str_eq, length, if◌then◌else◌, false, arith, lookup,
}
use mathlib.Core.Option.{none-ne-some}
use purge_api_gateway.Policy.Runtime.{Runtime}
use purge_api_gateway.Policy.Types.{
  allow, deny, op_eq, leaf, negated, Condition, FieldValue, ConditionValue, PolicyDocument,
  RequestContext,
}
use purge_api_gateway.Policy.Regex.{IsCoherent}
use purge_api_gateway.Policy.Conditions.Laws.{nesting}
use purge_api_gateway.Policy.Evaluate.Laws.{IsShallow}

-- Patterns without special characters, anchored at both ends; numbers by the length of their text.
abbrev pub literal_patterns : Runtime
literal_patterns = record {
  Regex = Str;
  compile = λ pattern. some pattern;
  compile_ignoring_case = λ pattern. some pattern;
  test = λ re s. str_eq re s;
  Number = Str;
  number_of_text = λ s. s;
  number_of_bool = λ b. if b then lit "1" else [];
  is_nan = λ n. false;
  less = λ m n. ltb (length m) (length n);
  less_or_equal = λ m n. leb (length m) (length n);
}

pub nothing_compiled : IsCoherent literal_patterns []
unfolding lookup
nothing_compiled = record {
  sound = λ pattern re e. absurd (none-ne-some _ e);
  bounded = omega arith;
}

abbrev pub host_is : Str → Condition
host_is host =
    leaf (record { field = lit "host"; operator = op_eq; value = ConditionValue.text host })

-- Purges of the zone z1 for one host, but never of everything.
abbrev pub purger : PolicyDocument
purger = record {
  statements =
      (record {
        effect = allow;
        actions = lit "purge:*" ∷ [];
        resources = lit "zone:z1" ∷ [];
        conditions = negated (host_is (lit "b.org")) ∷ [];
      })
      ∷ (record {
        effect = deny;
        actions = lit "purge:everything" ∷ [];
        resources = lit "*" ∷ [];
        conditions = [];
      })
      ∷ [];
}

pub purger-IsShallow : IsShallow purger
unfolding nesting
purger-IsShallow = ((omega arith, tt), (tt, tt))

abbrev pub request : RequestContext
request = record {
  action = lit "purge:host";
  resource = lit "zone:z1";
  fields = (lit "host", FieldValue.text (lit "a.org")) ∷ [];
}
