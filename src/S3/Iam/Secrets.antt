-- ===== src/S3/Iam/Secrets.antt =====
-- Which secrets leave the store of S3 credentials (src/s3/iam.ts).
use purge_api_gateway.Base.{
  List, false, ℕ, ◌≡◌, sym, ap, ◌∙◌, ◌↔◌, Option, none, some, Str, Bool-cases, Option-cases, inl,
  inr, arith,
}
use mathlib.Core.Bool.{false≢true}
use mathlib.Core.Option.{none-ne-some}
use purge_api_gateway.Policy.Runtime.{Runtime}
use purge_api_gateway.Policy.Types.{PolicyDocument}
use purge_api_gateway.Credentials.Table.{find}
use purge_api_gateway.Credentials.Types.{CachedEntry}
use purge_api_gateway.Credentials.Manager.{Manager, is_expired, revoke_by_id}
use purge_api_gateway.Credentials.Manager.Cache.{
  IsConsistent, IsCurrent, get_cached_or_load-IsCurrent,
}
use purge_api_gateway.Credentials.Manager.Authorize.{same_row}
use purge_api_gateway.Credentials.Manager.Revocation.{revoke_by_id-IsConsistent}
use purge_api_gateway.Credentials.Manager.Effects.{IsRefused, revoke_by_id-IsRefused}
use purge_api_gateway.S3.Iam.{S3Credential, s3_credential, usable_secret, get_secret_for_auth}

module _ (js : Runtime) (parse : Str → Option PolicyDocument) (stringify : PolicyDocument → Str)
    (ttl : ℕ) where
  -- A secret that a key id opens at a time: that of its row, which is neither revoked nor expired.
  pub record Opens (table : List S3Credential) (now : ℕ) (id secret : Str) : Type 0 where
    pub row : S3Credential
    pub stored : find (λ c. c.access_key_id) id table ≡ some row
    pub live : row.revoked ≡ false
    pub in_time : is_expired row.expires_at now ≡ false
    pub own : row.secret_access_key ≡ secret

  usable_secret_iff :
      (now : ℕ) (id secret : Str) (table : List S3Credential)
      (entry : Option (CachedEntry S3Credential))
      → IsCurrent js parse s3_credential ttl table id entry
      → (usable_secret now entry ≡ some secret) ↔ Opens table now id secret
  unfolding usable_secret
  usable_secret_iff now id secret table none missing =
      (λ e. absurd (none-ne-some _ e), λ g. absurd (none-ne-some _ (sym missing ∙ g.stored)))
  usable_secret_iff now id secret table (some entry) (found, _) =
      elim (Bool-cases entry.entity.revoked) [
        | inl bad ↦ (
          λ e. ground (arith, bad, e),
          λ g.
              absurd
                (false≢true (sym g.live ∙ (ap (λ (c : S3Credential). c.revoked) (same g) ∙ bad))),
        )
        | inr live ↦ elim (Bool-cases (is_expired entry.entity.expires_at now)) [
          | inl bad ↦ (
            λ e. ground (arith, live, bad, e),
            λ g. absurd (
                false≢true (
                  sym g.in_time
                  ∙ (ap (λ (c : S3Credential). is_expired c.expires_at now) (same g) ∙ bad))),
          )
          | inr in_time ↦ (
            λ e. record {
              row = entry.entity;
              stored = found;
              live = live;
              in_time = in_time;
              own = ground (arith, live, in_time, e);
            },
            λ g.
                let own : entry.entity.secret_access_key ≡ secret =
                  ap (λ (c : S3Credential). c.secret_access_key) (sym (same g)) ∙ g.own in
                ground (arith, live, in_time, own),
          )
        ]
      ]
    where
      same : (g : Opens table now id secret) → g.row ≡ entry.entity
      same g = same_row js parse s3_credential ttl table id g.stored found

  -- On a consistent manager `getSecretForAuth` returns a secret exactly when it is that of the
  -- stored credential of the key id, which is neither revoked nor expired; the table is left alone
  -- and the manager stays consistent.
  pub get_secret_for_auth_iff :
      (now : ℕ) (id secret : Str) (m : Manager js S3Credential)
      → IsConsistent js parse s3_credential ttl m
      → (((get_secret_for_auth js parse stringify ttl now id m).0 ≡ some secret)
          ↔ Opens m.table now id secret)
        × ((get_secret_for_auth js parse stringify ttl now id m).1.table ≡ m.table)
        × IsConsistent js parse s3_credential ttl
            (get_secret_for_auth js parse stringify ttl now id m).1
  unfolding get_secret_for_auth
  get_secret_for_auth_iff now id secret m h =
      let (current, kept, h') =
        get_cached_or_load-IsCurrent js parse s3_credential ttl now id m h in
      (usable_secret_iff now id secret m.table _ current, kept, h')

  -- On a consistent manager `getSecretForAuth` returns no secret for a key id at any time after its
  -- revocation, whatever was cached before.
  pub get_secret_for_auth-revoke_by_id :
      (now : ℕ) (id : Str) (m : Manager js S3Credential)
      → IsConsistent js parse s3_credential ttl m
      → (get_secret_for_auth js parse stringify ttl now id
          (revoke_by_id js parse s3_credential ttl id m).1).0
        ≡ none
  unfolding IsRefused
  get_secret_for_auth-revoke_by_id now id m h =
      let after = (revoke_by_id js parse s3_credential ttl id m).1 in
      elim (Option-cases (get_secret_for_auth js parse stringify ttl now id after).0) [
        | inl nothing ↦ nothing
        | inr (secret, given) ↦
            let g =
              (get_secret_for_auth_iff now id secret after
                  (revoke_by_id-IsConsistent js parse s3_credential ttl id m h)).0.0
                given in
            absurd (
              false≢true (
                sym g.live ∙ revoke_by_id-IsRefused js parse s3_credential ttl id m g.row g.stored))
      ]
