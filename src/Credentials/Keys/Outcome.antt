-- ===== src/Credentials/Keys/Outcome.antt =====
-- Every way in which a rotation of an API key can end.
use purge_api_gateway.Base.{
  Bool-cases, Option-cases, ◌||◌, false, ℕ, ◌≡◌, refl, sym, subst, ◌∙◌, inl, inr, Option, none,
  some, Str, arith,
}
use mathlib.Core.Option.{none-ne-some, some-injective}
use purge_api_gateway.Policy.Runtime.{Runtime}
use purge_api_gateway.Policy.Types.{PolicyDocument}
use purge_api_gateway.Credentials.Table.{find}
use purge_api_gateway.Credentials.Manager.{Manager, is_expired}
use purge_api_gateway.Credentials.Keys.{
  ApiKey, RotateOverrides, Result, ok, throws, get_key, create_key, replace_key, rotate_key,
}
use purge_api_gateway.Credentials.Keys.Access.{IsConsistentKeys}
use purge_api_gateway.Credentials.Keys.Lifecycle.{RoundTrips}
use purge_api_gateway.Credentials.Keys.Rotation.{Rotated, rotate_key-Rotated}
use purge_api_gateway.Credentials.Keys.Succession.{rotate_key-Completes}

module _ (js : Runtime) (parse : Str → Option PolicyDocument) (stringify : PolicyDocument → Str)
    (ttl : ℕ) where
  -- The key can be rotated: it is stored, live and in time, and its policy parses.
  pub record IsReady (id : Str) (now : ℕ) (m : Manager js ApiKey) : Type 0 where
    pub old : ApiKey
    pub policy : PolicyDocument
    pub stored : find (λ k. k.id) id m.table ≡ some old
    pub live : old.revoked ≡ false
    pub in_time : is_expired old.expires_at now ≡ false
    pub parsed : parse old.policy ≡ some policy

  -- What the result of a rotation says of the manager before it, and of the one after it.
  abbrev pub Ends :
      Str
      → Str
      → ℕ
      → RotateOverrides
      → Manager js ApiKey
      → Result (Option (ApiKey × ApiKey) × Manager js ApiKey)
      → Type 0
  Ends fresh id now overrides m throws =
      IsReady id now m × (taken : ApiKey) × (find (λ k. k.id) fresh m.table ≡ some taken)
  Ends fresh id now overrides m (ok (none, m')) = (¬ IsReady id now m) × (m' ≡ m)
  Ends fresh id now overrides m (ok (some (old', key), m')) =
      (find (λ k. k.id) fresh m.table ≡ none)
      × Rotated js parse stringify ttl fresh id now overrides m old' key m'

  rotate_key-taken :
      (fresh id : Str) (now : ℕ) (overrides : RotateOverrides) (m : Manager js ApiKey)
      (ready : IsReady id now m) (taken : ApiKey)
      → find (λ k. k.id) fresh m.table ≡ some taken
      → rotate_key js parse stringify ttl fresh id now overrides m ≡ throws
  unfolding rotate_key replace_key create_key get_key
  rotate_key-taken fresh id now overrides m ready taken clash =
      ground (arith, ready.stored, ready.live, ready.in_time, ready.parsed)

  not_ready :
      (id : Str) (now : ℕ) (m : Manager js ApiKey) (old : ApiKey)
      → find (λ k. k.id) id m.table ≡ some old
      → (r : IsReady id now m) → r.old ≡ old
  not_ready id now m old found r = some-injective _ _ (sym r.stored ∙ found)

  rotate_key-ready :
      (fresh id : Str) (now : ℕ) (overrides : RotateOverrides) (m : Manager js ApiKey)
      → IsConsistentKeys js parse stringify ttl m
      → ((text : Str) (policy : PolicyDocument)
          → parse text ≡ some policy
          → RoundTrips js parse stringify ttl policy)
      → IsReady id now m
      → Ends fresh id now overrides m (rotate_key js parse stringify ttl fresh id now overrides m)
  rotate_key-ready fresh id now overrides m h trips r =
      elim (Option-cases (find (λ (k : ApiKey). k.id) fresh m.table)) [
        | inr (taken, clash) ↦
            subst (Ends fresh id now overrides m)
              (sym (rotate_key-taken fresh id now overrides m r taken clash)) (r, taken, clash)
        | inl free ↦
            let (keys, m', e) =
              rotate_key-Completes js parse stringify ttl fresh id now overrides m r.old r.policy
                r.stored r.live r.in_time r.parsed free in
            subst (Ends fresh id now overrides m) (sym e) (
              free,
              rotate_key-Rotated js parse stringify ttl fresh id now overrides m keys.0 keys.1 m' h
                  trips e,
            )
      ]

  -- On a consistent manager, where what parses as a policy comes back from its own text, a rotation
  -- throws exactly when the key is stored, live and in time with a policy that parses, but the fresh
  -- id is taken; it returns nothing, and the manager as it was, exactly when the key is not like
  -- that; otherwise it returns two keys and has done everything that `Rotated` lists.
  pub rotate_key-Ends :
      (fresh id : Str) (now : ℕ) (overrides : RotateOverrides) (m : Manager js ApiKey)
      → IsConsistentKeys js parse stringify ttl m
      → ((text : Str) (policy : PolicyDocument)
          → parse text ≡ some policy
          → RoundTrips js parse stringify ttl policy)
      → Ends fresh id now overrides m (rotate_key js parse stringify ttl fresh id now overrides m)
  unfolding rotate_key get_key
  rotate_key-Ends fresh id now overrides m h trips =
      elim (Option-cases (find (λ (k : ApiKey). k.id) id m.table)) [
        | inl missing ↦
            rw (missing, rotate_key) (λ r. none-ne-some _ (sym missing ∙ r.stored), refl)
        | inr (old, found) ↦ elim (Bool-cases (old.revoked || is_expired old.expires_at now)) [
          | inl spent ↦
              rw (found, rotate_key, spent)
                (
                  λ r.
                      let same = not_ready id now m old found r in
                      ground (arith, r.live, r.in_time, same),
                  refl,
                )
          | inr usable ↦ elim (Option-cases (parse old.policy)) [
            | inl corrupt ↦
                rw (found, rotate_key, usable, corrupt)
                  (
                    λ r.
                        let same = not_ready id now m old found r in ground (arith, r.parsed, same),
                    refl,
                  )
            | inr (policy, parsed) ↦ rotate_key-ready fresh id now overrides m h trips (record {
              old = old;
              policy = policy;
              stored = found;
              live = ground arith;
              in_time = ground arith;
              parsed = parsed;
            })
          ]
        ]
      ]
