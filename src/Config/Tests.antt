-- ===== src/Config/Tests.antt =====
-- The theorems of the configuration at concrete numbers and overrides.
use purge_api_gateway.Base.{
  [], ◌∷◌, List, Bool, true, false, ℕ, ltb, ◌≡◌, inl, refl, Option, none, some, Str, lit, str_eq,
  lookup, if◌then◌else◌,
}
use mathlib.Core.Option
use purge_api_gateway.Config.{
  Numbers, Config, not_positive, upsert, is_known, config_defaults, env_value, get_config, set_rows,
  set_config, reset_key,
}
use purge_api_gateway.Config.Registry.{or_else}
use purge_api_gateway.Config.Laws.{Ends, last_of, IsSettled, set_config-Ends}
use purge_api_gateway.Config.RoundTrip.{set_config-get_config, reset_key-get_config}

-- Whole numbers, each with one code unit for its text.
abbrev number_in : Str → ℕ
number_in (n ∷ []) = n
number_in _ = 0

abbrev whole : Numbers ℕ
whole = record {
  of_nat = λ n. n;
  of_text = number_in;
  to_text = λ n. n ∷ [];
  is_positive = λ n. ltb 0 n;
  is_finite = λ n. true;
}

abbrev no_inherited : Str → Bool
no_inherited s = false

abbrev unset : Str → Option Str
unset s = none

abbrev stored : Config ℕ
stored = record {
  rows = (record { key = lit "s3_rps"; value = 7 ∷ []; updated_at = 1; updated_by = none }) ∷ [];
  cache = none;
}

abbrev updates : List (Str × ℕ)
updates = (lit "s3_rps", 9) ∷ (lit "bulk_rate", 60) ∷ []

abbrev updated : Config ℕ
updated = (set_config whole no_inherited 2 none updates stored).1

no_error : (set_config whole no_inherited 2 none updates stored).0 ≡ none
unfolding set_config set_rows is_known config_defaults str_eq upsert
no_error = refl

bulk_rate_known : lookup (lit "bulk_rate") config_defaults ≡ some 50
unfolding lookup config_defaults str_eq
bulk_rate_known = refl

s3_rps_known : lookup (lit "s3_rps") config_defaults ≡ some 100
unfolding lookup config_defaults str_eq
s3_rps_known = refl

s3_rps_reset : is_known no_inherited (lit "s3_rps") ≡ true
unfolding is_known config_defaults str_eq
s3_rps_reset = refl

-- An unknown key is not taken, and what was written before it stays.
thrown :
    (set_config whole no_inherited 2 none ((lit "s3_rps", 9) ∷ (lit "s3_rps", 0) ∷ []) stored).0
    ≡ some (not_positive (lit "s3_rps"))
unfolding set_config set_rows is_known config_defaults str_eq upsert
thrown = refl

set_config-Ends_example :
    Ends whole no_inherited 2 none updates stored.rows
      (set_config whole no_inherited 2 none updates stored).0
      (set_config whole no_inherited 2 none updates stored).1.rows
    × ((set_config whole no_inherited 2 none updates stored).1.cache
        ≡ elim (set_config whole no_inherited 2 none updates stored).0 [
          | none ↦ none
          | some error ↦ stored.cache
        ])
set_config-Ends_example = set_config-Ends whole no_inherited 2 none updates stored

set_config-get_config_example :
    (lookup (lit "bulk_rate") (get_config whole unset updated).0
      ≡ or_else
          (last_of whole (lit "bulk_rate") updates)
          (lookup (lit "bulk_rate") (get_config whole unset stored).0))
    × IsSettled whole updated
set_config-get_config_example =
    set_config-get_config whole (λ v positive. refl) no_inherited unset 2 none updates stored
      (inl refl) no_error (lit "bulk_rate") 50 bulk_rate_known

reset_key-get_config_example :
    ((reset_key whole no_inherited (lit "s3_rps") stored).0 ≡ none)
    × (lookup
          (lit "s3_rps")
          (get_config whole unset (reset_key whole no_inherited (lit "s3_rps") stored).2).0
        ≡ (if str_eq (lit "s3_rps") (lit "s3_rps")
            then some (Option.get_or (env_value whole unset (lit "s3_rps")) 100)
            else lookup (lit "s3_rps") (get_config whole unset stored).0))
    × IsSettled whole (reset_key whole no_inherited (lit "s3_rps") stored).2
reset_key-get_config_example =
    reset_key-get_config whole (λ v positive. refl) no_inherited unset (lit "s3_rps") stored
      (inl refl) s3_rps_reset (lit "s3_rps") 100 s3_rps_known
