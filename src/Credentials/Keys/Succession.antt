-- ===== src/Credentials/Keys/Succession.antt =====
-- What a rotated key and its successor are granted.
use purge_api_gateway.Base.{
  List, [], ◌∷◌, ◌++◌, none, true, false, ℕ, zero, suc, ◌≡◌, refl, sym, ap, subst, ◌∙◌, ◌↔◌, Option,
  some, Str, All, arith,
}
use mathlib.Core.Bool.{false≢true}
use purge_api_gateway.Policy.Runtime.{Runtime}
use purge_api_gateway.Policy.Types.{PolicyDocument, RequestContext}
use purge_api_gateway.Policy.Evaluate.Laws.{Permits}
use purge_api_gateway.Credentials.Table.{find}
use purge_api_gateway.Credentials.Manager.{Manager, resolve_policy, is_expired, revoke_by_id}
use purge_api_gateway.Credentials.Manager.Authorize.{same_row}
use purge_api_gateway.Credentials.Keys.{
  ApiKey, RotateOverrides, replace_key, create_key, get_key, key_credential, expiry, new_key,
  inserted_row, rotation_request, zone_mismatch, ok, rotate_key,
}
use purge_api_gateway.Credentials.Keys.Access.{IsConsistentKeys, KeyGrants}
use purge_api_gateway.Credentials.Keys.Lifecycle.{RoundTrips}
use purge_api_gateway.Credentials.Keys.Inheritance.{Expires, expiry-end_of}
use purge_api_gateway.Credentials.Keys.Rotation.{rotate_key-Rotated}

-- A key that is created now is in time now.
pub expiry-in_time : (now : ℕ) (days : Option ℕ) → is_expired (expiry now days) now ≡ false
unfolding is_expired expiry
expiry-in_time now none = refl
expiry-in_time now (some zero) = refl
expiry-in_time zero (some (suc d)) = ground arith
expiry-in_time (suc n) (some (suc d)) = ground arith

Expires-in_time : (now : ℕ) (days at : Option ℕ) → Expires now days at → is_expired at now ≡ false
Expires-in_time now days at h =
    ap (λ t. is_expired t now) (h ∙ sym (expiry-end_of now days)) ∙ expiry-in_time now days

module _ (js : Runtime) (parse : Str → Option PolicyDocument) (stringify : PolicyDocument → Str)
    (ttl : ℕ) where
  -- On a consistent manager, where what parses as a policy comes back from its own text, at the time
  -- of a rotation that returns keys the new key is granted exactly the requests that the old one was
  -- granted before, on the same zones, and the old key is granted none.
  pub rotate_key-KeyGrants :
      (fresh id : Str) (now : ℕ) (overrides : RotateOverrides) (m : Manager js ApiKey)
      (old' key : ApiKey) (m' : Manager js ApiKey) (zone : Str) (ctxs : List RequestContext)
      → IsConsistentKeys js parse stringify ttl m
      → ((text : Str) (policy : PolicyDocument)
          → parse text ≡ some policy
          → RoundTrips js parse stringify ttl policy)
      → rotate_key js parse stringify ttl fresh id now overrides m ≡ ok (some (old', key), m')
      → (KeyGrants js parse stringify ttl m.table now id zone ctxs
          ↔ KeyGrants js parse stringify ttl m'.table now fresh zone ctxs)
        × (¬ KeyGrants js parse stringify ttl m'.table now id zone ctxs)
  unfolding resolve_policy
  rotate_key-KeyGrants fresh id now overrides m old' key m' zone ctxs h trips e =
      let r =
        rotate_key-Rotated js parse stringify ttl fresh id now overrides m old' key m' h trips e in
      let old_policy : resolve_policy js parse key_credential ttl r.old.policy ≡ r.policy =
        rw (r.parsed, resolve_policy) in
      let new_policy : resolve_policy js parse key_credential ttl key.policy ≡ r.policy =
        ap (resolve_policy js parse key_credential ttl) r.its_policy
        ∙ rw (trips r.old.policy r.policy r.parsed, resolve_policy) in
      let same_policy = old_policy ∙ sym new_policy in
      let same_zone : key.zone_id ≡ r.old.zone_id = r.its_zone in
      (
        (
          λ g.
              let same = same_row js parse key_credential ttl m.table id g.stored r.was_stored in
              record {
                key = key;
                stored = r.stored;
                live = r.its_revocation;
                in_time = Expires-in_time now overrides.expires_in_days key.expires_at r.its_expiry;
                zoned =
                    ap (λ z. zone_mismatch z zone)
                      (same_zone ∙ sym (ap (λ (k : ApiKey). k.zone_id) same))
                    ∙ g.zoned;
                permitted =
                    subst (λ d. All (λ ctx. Permits js ctx d) ctxs)
                      (ap (λ (k : ApiKey). resolve_policy js parse key_credential ttl k.policy) same
                        ∙ same_policy)
                      g.permitted;
              },
          λ g.
              let same = same_row js parse key_credential ttl m'.table fresh g.stored r.stored in
              record {
                key = r.old;
                stored = r.was_stored;
                live = r.was_live;
                in_time = r.was_in_time;
                zoned =
                    ap (λ z. zone_mismatch z zone)
                      (sym same_zone ∙ sym (ap (λ (k : ApiKey). k.zone_id) same))
                    ∙ g.zoned;
                permitted =
                    subst (λ d. All (λ ctx. Permits js ctx d) ctxs)
                      (ap (λ (k : ApiKey). resolve_policy js parse key_credential ttl k.policy) same
                        ∙ sym same_policy)
                      g.permitted;
              },
        ),
        λ g. false≢true (
            sym g.live
            ∙ ap (λ (k : ApiKey). k.revoked)
                (same_row js parse key_credential ttl m'.table id g.stored r.retired)),
      )

  -- A rotation goes through whenever the key is stored, live and in time, its policy parses, and
  -- the fresh id is free: it returns two keys.
  pub rotate_key-Completes :
      (fresh id : Str) (now : ℕ) (overrides : RotateOverrides) (m : Manager js ApiKey)
      (old : ApiKey) (policy : PolicyDocument)
      → find (λ k. k.id) id m.table ≡ some old
      → old.revoked ≡ false
      → is_expired old.expires_at now ≡ false
      → parse old.policy ≡ some policy
      → find (λ k. k.id) fresh m.table ≡ none
      → (keys : ApiKey × ApiKey) × (m' : Manager js ApiKey) × (rotate_key js parse stringify ttl
            fresh id now overrides m
          ≡ ok (some keys, m'))
  unfolding rotate_key replace_key create_key get_key
  rotate_key-Completes fresh id now overrides m old policy found live in_time parsed free =
      let req = rotation_request old policy overrides in
      (
        (record old { revoked = true }, new_key stringify fresh now req),
        (revoke_by_id js parse key_credential ttl old.id
            (record m { table = m.table ++ inserted_row stringify fresh now req ∷ [] })).1,
        ground arith,
      )
