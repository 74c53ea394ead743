-- ===== src/Config/RoundTrip.antt =====
-- What `setConfig` writes `getConfig` reads, and `resetKey` undoes.
use purge_api_gateway.Base.{
  List, [], ◌∷◌, Bool, true, false, ℕ, ◌≡◌, inl, refl, sym, ap, ◌∙◌, subst, Option, none, some, Str,
  str_eq, lookup, All, if◌then◌else◌,
}
use mathlib.Core.Option
use mathlib.Core.Option.{some-injective, none-ne-some}
use purge_api_gateway.Config.{
  Numbers, ConfigOverride, Config, upsert, is_known, config_defaults, env_value, get_config,
  set_config, reset_key,
}
use purge_api_gateway.Config.Registry.{or_else, override, override-upsert, override-delete}
use purge_api_gateway.Config.Laws.{
  IsSettled, get_config_lem, last_of, IsAccepted, written, Ends, set_config-Ends,
}

module _ {N : Type 0} (numbers : Numbers N)
    (reads_back : (v : N) → numbers.is_positive v ≡ true → numbers.of_text (numbers.to_text v) ≡ v)
    (inherited : Str → Bool) where
  choose_one :
      {x y : N} (b : Bool) (p : Option N)
      → x ≡ y
      → (if b then some x else p) ≡ or_else (if b then some y else none) p
  choose_one true p e = ap some e
  choose_one false p e = refl

  override-written :
      (now : ℕ) (by : Option Str) (k : Str) (updates : List (Str × N)) (rows : List ConfigOverride)
      → All (IsAccepted numbers inherited) updates
      → override numbers k (written numbers inherited now by updates rows)
        ≡ or_else (last_of numbers k updates) (override numbers k rows)
  override-written now by k [] rows h = refl
  override-written now by k ((key, value) ∷ updates) rows ((known, positive, finite), rest) =
      let new : ConfigOverride = record {
        key = key;
        value = numbers.to_text value;
        updated_at = now;
        updated_by = by;
      } in
      let back = reads_back value positive in
      override-written now by k updates (upsert new rows) rest
      ∙ (ap (or_else (last_of numbers k updates))
            (override-upsert numbers new (ap numbers.is_positive back ∙ positive) k rows)
          ∙ choose (str_eq key k) (override numbers k rows) (last_of numbers k updates) back)
    where
      choose :
          {x y : N} (b : Bool) (p o : Option N)
          → x ≡ y
          → or_else o (if b then some x else p) ≡ or_else (or_else o (if b then some y else none)) p
      choose b p none e = choose_one b p e
      choose b p (some v) e = refl

  -- On a settled configuration, once `setConfig` returns without an error, `getConfig` gives to
  -- every known key the number that the updates gave to it last, and to a key that they do not name
  -- what it gave before, whatever the environment; the configuration is settled again.
  pub set_config-get_config :
      (env : Str → Option Str) (now : ℕ) (by : Option Str) (updates : List (Str × N)) (c : Config N)
      → IsSettled numbers c
      → (set_config numbers inherited now by updates c).0 ≡ none
      → (k : Str) (d : ℕ) → lookup k config_defaults ≡ some d
      → (lookup k (get_config numbers env (set_config numbers inherited now by updates c).1).0
          ≡ or_else (last_of numbers k updates) (lookup k (get_config numbers env c).0))
        × IsSettled numbers (set_config numbers inherited now by updates c).1
  set_config-get_config env now by updates c h ok k d known =
      let after = (set_config numbers inherited now by updates c).1 in
      let (ends, cache) = set_config-Ends numbers inherited now by updates c in
      let (taken, rows) =
        subst (λ o. Ends numbers inherited now by updates c.rows o after.rows) ok ends in
      let settled : IsSettled numbers after =
        inl (cache ∙ ap (λ o. elim o [ none ↦ none | some error ↦ c.cache ]) ok) in
      (
        get_config_lem numbers env after k d settled known
            ∙ (ap
                  (λ o.
                    some (
                      Option.get_or o (Option.get_or (env_value numbers env k) (numbers.of_nat d))))
                  (ap (override numbers k) rows ∙ override-written now by k updates c.rows taken)
                ∙ (merge (last_of numbers k updates) (override numbers k c.rows) _
                    ∙ ap (or_else (last_of numbers k updates))
                        (sym (get_config_lem numbers env c k d h known)))),
        settled,
      )
    where
      merge :
          (o p : Option N) (v : N)
          → some (Option.get_or (or_else o p) v) ≡ or_else o (some (Option.get_or p v))
      merge none p v = refl
      merge (some w) p v = refl

  -- On a settled configuration `resetKey` of a known key throws nothing, and `getConfig` gives to
  -- the key what the environment or the default has and to every other key what it gave before.
  pub reset_key-get_config :
      (env : Str → Option Str) (key : Str) (c : Config N)
      → IsSettled numbers c
      → is_known inherited key ≡ true
      → (k : Str) (d : ℕ) → lookup k config_defaults ≡ some d
      → ((reset_key numbers inherited key c).0 ≡ none)
        × (lookup k (get_config numbers env (reset_key numbers inherited key c).2).0 ≡ (
            if str_eq key k
            then some (Option.get_or (env_value numbers env k) (numbers.of_nat d))
            else lookup k (get_config numbers env c).0))
        × IsSettled numbers (reset_key numbers inherited key c).2
  unfolding reset_key
  reset_key-get_config env key c h reset k d known =
      let before = get_config_lem numbers env c k d h known in
      let rest = override-delete numbers k key c.rows in
      rw (reset, reset_key)
        (
          refl,
          get_config_lem numbers env _ k d (inl refl) known
              ∙ (ap
                    (λ o. some (
                      Option.get_or o (Option.get_or (env_value numbers env k) (numbers.of_nat d))))
                    rest
                  ∙ fallen _ (str_eq key k) _ _ (sym before)),
          inl refl,
        )
    where
      fallen :
          (v : N) (b : Bool) (p : Option N) (q : Option N)
          → some (Option.get_or p v) ≡ q
          → some (Option.get_or (if b then none else p) v) ≡ (if b then some v else q)
      fallen v true p q e = refl
      fallen v false p q e = e
