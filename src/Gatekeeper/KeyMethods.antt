-- ===== src/Gatekeeper/KeyMethods.antt =====
-- The methods of `Gatekeeper` that change keys, and clear the buckets of the keys that they change.
use purge_api_gateway.Base.{
  List, [], ◌∷◌, Bool, true, false, ℕ, Option, none, some, Str, delete, if◌then◌else◌,
}
use purge_api_gateway.Policy.Runtime.{Runtime}
use purge_api_gateway.Policy.Types.{PolicyDocument}
use purge_api_gateway.Credentials.Types.{BulkStatus, BulkItemResult, BulkResult}
use purge_api_gateway.Credentials.Manager.{revoke_by_id, delete_by_id, bulk_revoke, bulk_delete}
use purge_api_gateway.Credentials.Keys.{
  ApiKey, key_credential, Result, ok, throws, RotateOverrides, KeyUpdates, rotate_key, update_key,
}
use purge_api_gateway.Gatekeeper.{KeyBuckets, Gatekeeper}

-- Clears the buckets of the items with the status.
unfoldable pub clear_items :
    (BulkStatus → Bool) → List BulkItemResult → List (Str × KeyBuckets) → List (Str × KeyBuckets)
clear_items done [] m = m
clear_items done (item ∷ items) m =
    clear_items done items (if done item.status then delete item.id m else m)

abbrev pub was_revoked : BulkStatus → Bool
was_revoked BulkStatus.revoked = true
was_revoked _ = false

abbrev pub was_deleted : BulkStatus → Bool
was_deleted BulkStatus.deleted = true
was_deleted _ = false

module _ (js : Runtime) (parse : Str → Option PolicyDocument) (stringify : PolicyDocument → Str)
    (ttl : ℕ) where
  unfoldable pub revoke_key : Str → Gatekeeper js → Bool × Gatekeeper js
  revoke_key id g =
      let (done, iam) = revoke_by_id js parse key_credential ttl id g.iam in
      (done, record g { iam = iam; key_buckets = delete id g.key_buckets })

  unfoldable pub delete_key : Str → Gatekeeper js → Bool × Gatekeeper js
  delete_key id g =
      let (done, iam) = delete_by_id js parse key_credential ttl id g.iam in
      (done, record g { iam = iam; key_buckets = delete id g.key_buckets })

  unfoldable pub rotate :
      Str
      → Str
      → ℕ
      → RotateOverrides
      → Gatekeeper js
      → Result (Option (ApiKey × ApiKey) × Gatekeeper js)
  rotate fresh id now overrides g =
      elim (rotate_key js parse stringify ttl fresh id now overrides g.iam) [
        | throws ↦ throws
        | ok (none, iam) ↦ ok (none, record g { iam = iam })
        | ok (some keys, iam) ↦
            ok (some keys, record g { iam = iam; key_buckets = delete id g.key_buckets })
      ]

  unfoldable pub change_key : Str → KeyUpdates → Gatekeeper js → Option ApiKey × Gatekeeper js
  change_key id updates g =
      let (key, iam) = update_key js parse stringify ttl id updates g.iam in
      elim key [
        | none ↦ (none, record g { iam = iam })
        | some found ↦ (some found, record g { iam = iam; key_buckets = delete id g.key_buckets })
      ]

  unfoldable pub bulk_revoke_keys : List Str → Gatekeeper js → BulkResult × Gatekeeper js
  bulk_revoke_keys ids g =
      let (result, iam) = bulk_revoke js parse key_credential ttl ids g.iam in
      (
        result,
        record g { iam = iam; key_buckets = clear_items was_revoked result.results g.key_buckets },
      )

  unfoldable pub bulk_delete_keys : List Str → Gatekeeper js → BulkResult × Gatekeeper js
  bulk_delete_keys ids g =
      let (result, iam) = bulk_delete js parse key_credential ttl ids g.iam in
      (
        result,
        record g { iam = iam; key_buckets = clear_items was_deleted result.results g.key_buckets },
      )
