-- ===== src/S3/Iam/Rotation.antt =====
-- What a rotation of an S3 credential does (src/s3/iam.ts).
use purge_api_gateway.Base.{
  [], ◌∷◌, ◌++◌, true, false, ℕ, ◌≡◌, ◌≢◌, refl, sym, ap, subst, ◌∙◌, Option, none, some, Str, lit,
  arith,
}
use mathlib.Core.Option.{none-ne-some}
use purge_api_gateway.Policy.Runtime.{Runtime}
use purge_api_gateway.Policy.Types.{PolicyDocument}
use purge_api_gateway.Policy.Evaluate.Laws.{IsShallow}
use purge_api_gateway.Credentials.Table.{find, find-id}
use purge_api_gateway.Credentials.Manager.{Manager, resolve_policy, is_expired, revoke_by_id}
use purge_api_gateway.Credentials.Manager.Cache.{IsConsistent}
use purge_api_gateway.Credentials.Manager.Revocation.{revoke_by_id-IsConsistent}
use purge_api_gateway.Credentials.Manager.Insertion.{
  find_fresh, append-IsConsistent, find-revoke_by_id_other,
}
use purge_api_gateway.Credentials.Keys.{RotateOverrides, ok}
use purge_api_gateway.Credentials.Keys.Succession.{expiry-in_time}
use purge_api_gateway.S3.Iam.{
  S3Credential, s3_credential, new_credential, successor_request, load_from_sql, create_credential,
  replace_credential, rotate_credential, get_secret_for_auth,
}
use purge_api_gateway.S3.Iam.Secrets.{get_secret_for_auth_iff, get_secret_for_auth-revoke_by_id}

module _ (js : Runtime) (parse : Str → Option PolicyDocument) (stringify : PolicyDocument → Str)
    (ttl : ℕ) (fresh secret id : Str) (now : ℕ) (overrides : RotateOverrides)
    (m : Manager js S3Credential) (row : S3Credential) (policy : PolicyDocument) where
  -- The successor of the row, and the manager before the revocation and after it.
  abbrev pub successor : S3Credential
  successor = new_credential stringify fresh secret now (successor_request row policy overrides)

  abbrev grown : Manager js S3Credential
  grown = record m { table = m.table ++ successor ∷ [] }

  abbrev pub rotated : Manager js S3Credential
  rotated = (revoke_by_id js parse s3_credential ttl row.access_key_id grown).1

  -- A rotation of a credential that is stored, live and in time, with a policy that parses, under a
  -- fresh key id, returns the old credential as revoked and without its secret, and its successor.
  rotate_credential_lem :
      find (λ c. c.access_key_id) id m.table ≡ some row
      → row.revoked ≡ false
      → is_expired row.expires_at now ≡ false
      → parse row.policy ≡ some policy
      → find (λ c. c.access_key_id) fresh m.table ≡ none
      → rotate_credential js parse stringify ttl fresh secret id now overrides m
        ≡ ok (
          some (record row { revoked = true; secret_access_key = lit "***" }, successor),
          rotated,
        )
  unfolding rotate_credential replace_credential create_credential load_from_sql
  rotate_credential_lem found live in_time parsed free = ground arith

  grown-IsConsistent :
      find (λ c. c.access_key_id) id m.table ≡ some row
      → parse row.policy ≡ some policy
      → parse (stringify policy) ≡ some policy
      → find (λ c. c.access_key_id) fresh m.table ≡ none
      → IsConsistent js parse s3_credential ttl m
      → IsConsistent js parse s3_credential ttl grown
  unfolding new_credential successor_request resolve_policy
  grown-IsConsistent found parsed trip free h =
      let old_policy : resolve_policy js parse s3_credential ttl row.policy ≡ policy =
        rw (parsed, resolve_policy) in
      let new_policy : resolve_policy js parse s3_credential ttl (stringify policy) ≡ policy =
        rw (trip, resolve_policy) in
      append-IsConsistent js parse s3_credential ttl m successor h free
        (subst IsShallow (old_policy ∙ sym new_policy) (h.shallow id row found))

  -- What a rotation has done: it returned these two credentials, the secret of the old key id is no
  -- longer given out at any time, and that of the new one is, at the time of the rotation.
  pub record Succeeded : Type 0 where
    pub returned :
        rotate_credential js parse stringify ttl fresh secret id now overrides m
        ≡ ok (
          some (record row { revoked = true; secret_access_key = lit "***" }, successor),
          rotated,
        )
    pub old_closed :
        (later : ℕ) → (get_secret_for_auth js parse stringify ttl later id rotated).0 ≡ none
    pub new_open : (get_secret_for_auth js parse stringify ttl now fresh rotated).0 ≡ some secret
    pub consistent : IsConsistent js parse s3_credential ttl rotated

  -- On a consistent manager a rotation of a credential that is stored, live and in time, with a
  -- policy that parses and comes back from its text, under a key id that is free, returns the old
  -- credential as revoked and without its secret, and a new one; afterwards the old key id opens no
  -- secret at any time, the new one opens the new secret at the time of the rotation, and the manager
  -- is consistent.
  pub rotate_credential-Succeeded :
      IsConsistent js parse s3_credential ttl m
      → find (λ c. c.access_key_id) id m.table ≡ some row
      → row.revoked ≡ false
      → is_expired row.expires_at now ≡ false
      → parse row.policy ≡ some policy
      → parse (stringify policy) ≡ some policy
      → find (λ c. c.access_key_id) fresh m.table ≡ none
      → Succeeded
  unfolding new_credential successor_request
  rotate_credential-Succeeded h found live in_time parsed trip free =
      let same_id : row.access_key_id ≡ id =
        find-id (λ (c : S3Credential). c.access_key_id) id m.table row found in
      let h' = grown-IsConsistent found parsed trip free h in
      let kept = revoke_by_id-IsConsistent js parse s3_credential ttl row.access_key_id grown h' in
      let differs : fresh ≢ row.access_key_id = λ e. none-ne-some _ (
        sym free
        ∙ (ap (λ i. find (λ (c : S3Credential). c.access_key_id) i m.table) (e ∙ same_id)
            ∙ found)) in
      record {
        returned = rotate_credential_lem found live in_time parsed free;
        old_closed = λ later.
            subst (λ i. (get_secret_for_auth js parse stringify ttl later i rotated).0 ≡ none)
              same_id
              (get_secret_for_auth-revoke_by_id js parse stringify ttl later row.access_key_id grown
                h');
        new_open =
            (get_secret_for_auth_iff js parse stringify ttl now fresh secret rotated kept).0.1
              (record {
                row = successor;
                stored =
                    find-revoke_by_id_other js parse s3_credential ttl row.access_key_id fresh grown
                      differs
                    ∙ find_fresh (λ (c : S3Credential). c.access_key_id) fresh m.table successor
                        refl free;
                live = refl;
                in_time = expiry-in_time now overrides.expires_in_days;
                own = refl;
              });
        consistent = kept;
      }
