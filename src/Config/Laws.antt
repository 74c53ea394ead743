-- ===== src/Config/Laws.antt =====
-- What is set is read back, what is reset falls back, and what an error leaves behind.
use purge_api_gateway.Base.{
  List, [], ◌∷◌, ◌++◌, Bool, true, false, ◌&&◌, ℕ, ◌≡◌, ◌⊎◌, inl, inr, refl, ap, ◌∙◌, Option, none,
  some, Str, str_eq, str_eq_iff, map, lookup, Bool-cases, Option-cases, All, arith, if◌then◌else◌,
}
use mathlib.Core.Option
use mathlib.Core.Option.{some-injective, none-ne-some}
use purge_api_gateway.Config.{
  Numbers, ConfigOverride, Config, ConfigError, unknown_key, not_positive, upsert, is_known,
  config_defaults, load_rows, load_registry, env_value, resolve_key, get_config, set_rows,
  set_config,
}
use purge_api_gateway.Config.Registry.{or_else, override, lookup-load_rows}

module _ {N : Type 0} (numbers : Numbers N) where
  -- The cache, if there is one, is that of the rows.
  abbrev pub IsSettled : Config N → Type 0
  IsSettled c = (c.cache ≡ none) ⊎ (c.cache ≡ some (load_rows numbers c.rows []))

  -- The value of a key: the override, the environment, or the default.
  abbrev pub effective : (Str → Option Str) → Str → ℕ → List ConfigOverride → N
  effective env k d rows =
      Option.get_or (override numbers k rows)
        (Option.get_or (env_value numbers env k) (numbers.of_nat d))

  load_registry-Settled :
      (c : Config N)
      → IsSettled c
      → ((load_registry numbers c).0 ≡ load_rows numbers c.rows [])
        × IsSettled (load_registry numbers c).1
  unfolding load_registry
  load_registry-Settled c (inl empty) = rw (empty, load_registry) (refl, inr refl)
  load_registry-Settled c (inr loaded) = rw (loaded, load_registry) (refl, inr loaded)

  lookup-map :
      (f : Str → ℕ → N) (k : Str) (d : ℕ) (entries : List (Str × ℕ))
      → lookup k entries ≡ some d
      → lookup k (map (λ entry. (entry.0, f entry.0 entry.1)) entries) ≡ some (f k d)
  unfolding lookup
  lookup-map f k d [] h = absurd (none-ne-some _ h)
  lookup-map f k d ((j, x) ∷ entries) h = elim (Bool-cases (str_eq j k)) [
    | inl here ↦
        let same : x ≡ d = some-injective _ _ (ground (arith, h, here)) in
        rw (here) (ap some (rw ((str_eq_iff j k).0 here, same) refl))
    | inr later ↦ ground (arith, lookup-map f k d entries, h, later)
  ]

  registry_lem :
      (c : Config N) (k : Str)
      → IsSettled c
      → lookup k (load_registry numbers c).0 ≡ override numbers k c.rows
  unfolding lookup
  registry_lem c k h =
      ap (lookup k) (load_registry-Settled c h).0
      ∙ (lookup-load_rows numbers k c.rows [] ∙ or_else-none (override numbers k c.rows))
    where
      or_else-none : (o : Option N) → or_else o none ≡ o
      or_else-none none = refl
      or_else-none (some v) = refl

  resolve_key_lem :
      (env : Str → Option Str) (registry : List (Str × N)) (k : Str) (d : ℕ) (o : Option N)
      → lookup k registry ≡ o
      → resolve_key numbers registry env k d
        ≡ Option.get_or o (Option.get_or (env_value numbers env k) (numbers.of_nat d))
  unfolding resolve_key
  resolve_key_lem env registry k d o h = elim (Option-cases (env_value numbers env k)) [
    | inl unset ↦ ground (arith, h, unset)
    | inr (v, set) ↦ ground (arith, h, set)
  ]

  -- On a settled configuration every known key resolves to its override, or else to the positive
  -- number of its environment variable, or else to its default.
  pub get_config_lem :
      (env : Str → Option Str) (c : Config N) (k : Str) (d : ℕ)
      → IsSettled c
      → lookup k config_defaults ≡ some d
      → lookup k (get_config numbers env c).0 ≡ some (effective env k d c.rows)
  unfolding get_config
  get_config_lem env c k d h known =
      lookup-map (resolve_key numbers (load_registry numbers c).0 env) k d config_defaults known
      ∙ ap some (
          resolve_key_lem env (load_registry numbers c).0 k d (override numbers k c.rows)
            (registry_lem c k h))

  -- The last value that the updates give to a key.
  abbrev pub last_of : Str → List (Str × N) → Option N
  last_of k [] = none
  last_of k ((key, value) ∷ updates) =
      or_else (last_of k updates) (if str_eq key k then some value else none)

  module _ (inherited : Str → Bool) where
    -- What `setConfig` takes: a known key with a positive and finite number.
    abbrev pub IsAccepted : Str × N → Type 0
    IsAccepted (key, value) =
        (is_known inherited key ≡ true)
        × (numbers.is_positive value ≡ true)
        × (numbers.is_finite value ≡ true)

    -- The rows after updates that are all taken.
    abbrev pub written : ℕ → Option Str → List (Str × N) → List ConfigOverride → List ConfigOverride
    written now by [] rows = rows
    written now by ((key, value) ∷ updates) rows = written now by updates (
        upsert
          (record { key = key; value = numbers.to_text value; updated_at = now; updated_by = by })
          rows)

    -- How the loop ends: all updates are taken, or the first that is not is thrown.
    abbrev pub Ends :
        ℕ
        → Option Str
        → List (Str × N)
        → List ConfigOverride
        → Option ConfigError
        → List ConfigOverride
        → Type 0
    Ends now by updates rows none rows' =
        All IsAccepted updates × (rows' ≡ written now by updates rows)
    Ends now by updates rows (some error) rows' =
        (taken : List (Str × N)) × (key : Str) × (value : N) × (rest : List (Str × N)) × (updates
          ≡ taken ++ (key, value) ∷ rest)
        × All IsAccepted taken
        × (rows' ≡ written now by taken rows)
        × (((error ≡ unknown_key key) × (is_known inherited key ≡ false))
            ⊎ ((error ≡ not_positive key)
                × ((numbers.is_positive value && numbers.is_finite value) ≡ false)))

    extend :
        (now : ℕ) (by : Option Str) (key : Str) (value : N) (updates : List (Str × N))
        (rows rows' : List ConfigOverride) (o : Option ConfigError)
        → IsAccepted (key, value)
        → Ends now by updates (written now by ((key, value) ∷ []) rows) o rows'
        → Ends now by ((key, value) ∷ updates) rows o rows'
    extend now by key value updates rows rows' none ok (all, same) = ((ok, all), same)
    extend now by key value updates rows rows' (some error) ok
          (taken, k, v, rest, split, all, same, why) =
        ((key, value) ∷ taken, k, v, rest, ap (◌∷◌ (key, value)) split, (ok, all), same, why)

    set_rows-Ends :
        (now : ℕ) (by : Option Str) (updates : List (Str × N)) (rows : List ConfigOverride)
        → Ends now by updates rows
            (set_rows numbers inherited now by updates rows).0
            (set_rows numbers inherited now by updates rows).1
    unfolding set_rows
    set_rows-Ends now by [] rows = (tt, refl)
    set_rows-Ends now by ((key, value) ∷ updates) rows =
        elim (Bool-cases (is_known inherited key)) [
          | inr unknown ↦
              rw (unknown, set_rows) ([], key, value, updates, refl, tt, refl, inl (refl, unknown))
          | inl known ↦ elim (Bool-cases (numbers.is_positive value)) [
            | inr bad ↦
                rw (known, bad, set_rows)
                  ([], key, value, updates, refl, tt, refl, inr (refl, ground (arith, bad)))
            | inl positive ↦ elim (Bool-cases (numbers.is_finite value)) [
              | inr bad ↦
                  rw (known, positive, bad, set_rows)
                    ([], key, value, updates, refl, tt, refl, inr (refl, ground (arith, bad)))
              | inl finite ↦
                  rw (known, positive, finite, set_rows)
                    (extend now by key value updates rows _ _ (known, positive, finite)
                      (set_rows-Ends now by updates (written now by ((key, value) ∷ []) rows)))
            ]
          ]
        ]

    -- `setConfig` either takes every update, writes them all and clears the cache, or throws at the
    -- first update that has an unknown key or a number that is not positive and finite; then the
    -- updates before it stay written, and the cache is left as it was.
    pub set_config-Ends :
        (now : ℕ) (by : Option Str) (updates : List (Str × N)) (c : Config N)
        → Ends now by updates c.rows
            (set_config numbers inherited now by updates c).0
            (set_config numbers inherited now by updates c).1.rows
          × ((set_config numbers inherited now by updates c).1.cache
              ≡ elim (set_config numbers inherited now by updates c).0 [
                | none ↦ none
                | some error ↦ c.cache
              ])
    unfolding set_config
    set_config-Ends now by updates c = (
      set_rows-Ends now by updates c.rows,
      cache_lem (set_rows numbers inherited now by updates c.rows).0,
    )
      where
        cache_lem :
            (o : Option ConfigError)
            → (elim o [ some thrown ↦ c.cache | none ↦ none ])
              ≡ (elim o [ none ↦ none | some error ↦ c.cache ])
        cache_lem none = refl
        cache_lem (some error) = refl
