-- ===== src/Policy/Regex.antt =====
-- `evalRegex` of src/policy-engine.ts with its per-isolate cache of compiled regular expressions,
-- a `Map` in insertion order whose oldest entry makes room for a new one. A computation on the
-- cache is a function from the cache to its result and the next cache.
use purge_api_gateway.Base.{
  List, [], ◌∷◌, Bool, false, not, ℕ, ◌≤◌, ◌+◌, ◌≡◌, refl, Option, none, some, Str, str_eq_iff,
  lookup, insert, delete, lookup-insert, lookup-delete, length, length-insert-le, length-delete-le,
  leb, if◌then◌else◌, Option-cases, inl, inr, arith, ap,
}
use purge_api_gateway.Policy.Runtime.{Runtime}
use purge_api_gateway.Policy.Types.{FieldValue, ConditionValue}

abbrev pub max_regex_cache_size : ℕ
max_regex_cache_size = 256

-- `null` is the entry of a pattern that does not compile.
abbrev pub RegexCache : Runtime → Type 0
RegexCache js = List (Str × Option js.Regex)

module _ (js : Runtime) where
  -- Dropping the entry of the first key, at capacity.
  unfoldable pub evict_oldest : RegexCache js → RegexCache js
  evict_oldest [] = []
  evict_oldest ((first, re) ∷ rest) =
      if leb max_regex_cache_size (length ((first, re) ∷ rest))
      then delete first ((first, re) ∷ rest)
      else (first, re) ∷ rest

  unfoldable pub compiled : Str → RegexCache js → Option js.Regex × RegexCache js
  compiled pattern cache = elim (lookup pattern cache) [
    | some re ↦ (re, cache)
    | none ↦ let re = js.compile pattern in (re, insert pattern re (evict_oldest cache))
  ]

  abbrev pub regex_answer : Option js.Regex → Str → Bool → Bool
  regex_answer none value negate = false
  regex_answer (some re) value negate = if negate then not (js.test re value) else js.test re value

  unfoldable pub eval_regex :
      FieldValue → ConditionValue → Bool → RegexCache js → Bool × RegexCache js
  eval_regex (FieldValue.text value) (ConditionValue.text pattern) negate cache =
      let (re, next) = compiled pattern cache in (regex_answer re value negate, next)
  eval_regex field value negate cache = (false, cache)

  -- The cache holds what the engine would compile, and never more entries than its capacity.
  pub record IsCoherent (cache : RegexCache js) : Type 0 where
    pub sound :
        (pattern : Str) (re : Option js.Regex)
        → lookup pattern cache ≡ some re
        → re ≡ js.compile pattern
    pub bounded : length cache ≤ max_regex_cache_size

  evict_oldest_sound :
      (cache : RegexCache js) (pattern : Str) (re : Option js.Regex)
      → lookup pattern (evict_oldest cache) ≡ some re
      → lookup pattern cache ≡ some re
  unfolding evict_oldest
  evict_oldest_sound [] pattern re h = h
  evict_oldest_sound ((first, r) ∷ rest) pattern re h =
      ground (arith, lookup-delete first pattern ((first, r) ∷ rest))

  evict_oldest-bounded :
      (cache : RegexCache js)
      → length cache ≤ max_regex_cache_size
      → length (evict_oldest cache) + 1 ≤ max_regex_cache_size
  unfolding evict_oldest delete
  evict_oldest-bounded [] h = omega arith
  evict_oldest-bounded ((first, r) ∷ rest) h =
      ground (arith, str_eq_iff first first, length-delete-le first rest)

  compiled-IsCoherent :
      (pattern : Str) (cache : RegexCache js)
      → IsCoherent cache
      → ((compiled pattern cache).0 ≡ js.compile pattern) × IsCoherent (compiled pattern cache).1
  unfolding compiled
  compiled-IsCoherent pattern cache h = elim (Option-cases (lookup pattern cache)) [
    | inr (re, hit) ↦ rw (hit, compiled) (h.sound pattern re hit, h)
    | inl miss ↦
        rw (miss, compiled)
          (
            refl,
            record {
              sound = λ p re e. ground (
                arith,
                lookup-insert pattern p (js.compile pattern) (evict_oldest cache),
                str_eq_iff pattern p,
                evict_oldest_sound cache p re,
                h.sound p re,
              );
              bounded = omega (
                arith,
                length-insert-le pattern (js.compile pattern) (evict_oldest cache),
                evict_oldest-bounded cache h.bounded,
              );
            },
          )
  ]

  -- From a coherent cache the answer is that of a fresh compilation, whatever the cache holds, and
  -- the cache stays coherent.
  pub eval_regex-compile :
      (value pattern : Str) (negate : Bool) (cache : RegexCache js)
      → IsCoherent cache
      → ((eval_regex (FieldValue.text value) (ConditionValue.text pattern) negate cache).0
          ≡ regex_answer (js.compile pattern) value negate)
        × IsCoherent
            (eval_regex (FieldValue.text value) (ConditionValue.text pattern) negate cache).1
  unfolding eval_regex
  eval_regex-compile value pattern negate cache h =
      let (same, kept) = compiled-IsCoherent pattern cache h in
      (ap (λ re. regex_answer re value negate) same, kept)
