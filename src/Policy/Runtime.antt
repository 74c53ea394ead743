-- ===== src/Policy/Runtime.antt =====
-- What the policy engine takes from the JavaScript engine: regular expressions and
-- floating-point numbers. They are parameters; no law is assumed of them.
use purge_api_gateway.Base.{Bool, Option, Str}

pub record Runtime : Type 1 where
  pub Regex : Type 0
  -- `new RegExp(pattern)`; `none` stands for the SyntaxError that it throws.
  pub compile : Str → Option Regex
  -- `new RegExp(pattern, 'i')`
  pub compile_ignoring_case : Str → Option Regex
  -- `re.test(s)` for a regular expression without the flags g and y
  pub test : Regex → Str → Bool
  pub Number : Type 0
  -- `Number(s)` and `Number(b)`
  pub number_of_text : Str → Number
  pub number_of_bool : Bool → Number
  pub is_nan : Number → Bool
  pub less : Number → Number → Bool
  pub less_or_equal : Number → Number → Bool
