-- ===== src/Credentials/Manager.antt =====
-- `CredentialManager` of src/credential-manager.ts: the cache over the table, authorization and the
-- bulk operations. `JSON.parse` of a stored policy is the parameter `parse`; `Date.now()` is `now`.
-- The module-wide cache of regular expressions of the policy engine is part of the state.
pub mod Cache
pub mod Revocation
pub mod Authorize
pub mod Effects
pub mod Insertion
use purge_api_gateway.Base.{
  List, [], ◌∷◌, ◌++◌, Bool, true, false, not, ◌&&◌, ℕ, zero, suc, ◌+◌, ltb, Option, none, some,
  Str, str_eq, length, lit, map, lookup, insert, delete, if◌then◌else◌,
}
use purge_api_gateway.Policy.Runtime.{Runtime}
use purge_api_gateway.Policy.Types.{PolicyDocument, RequestContext}
use purge_api_gateway.Policy.Regex.{RegexCache}
use purge_api_gateway.Policy.Evaluate.{evaluate_policy}
use purge_api_gateway.Credentials.Table.{find, update_where, delete_where, count_where}
use purge_api_gateway.Credentials.Types.{
  Credential, CachedEntry, AuthResult, BulkStatus, BulkItemResult, BulkResult, CurrentStatus,
  BulkInspectItem, BulkDryRunResult, already_revoked, deleted, active, expired,
}

pub record Manager (js : Runtime) (T : Type 0) : Type 0 where
  pub table : List T
  pub cache : List (Str × CachedEntry T)
  pub regexes : RegexCache js

abbrev pub not_found_text : Str
not_found_text = lit "not_found"

abbrev pub refusal : Str → AuthResult
refusal message = record {
  authorized = false;
  error = some message;
  denied = none;
  key_name = none;
  upstream_token_id = none;
}

-- `rowsWritten > 0`
abbrev pub any_row : ℕ → Bool
any_row n = ltb 0 n

-- `expires_at && expires_at < now`: an expiry of 0 is none at all.
unfoldable pub is_expired : Option ℕ → ℕ → Bool
is_expired none now = false
is_expired (some zero) now = false
is_expired (some (suc e)) now = ltb (suc e) now

-- `expires_at IS NOT NULL AND expires_at <= now`
unfoldable pub has_run_out : Option ℕ → ℕ → Bool
has_run_out none now = false
has_run_out (some e) now = not (ltb now e)

module _ (js : Runtime) (parse : Str → Option PolicyDocument) {T : Type 0} (c : Credential T)
    (ttl : ℕ) where
  -- A corrupt policy denies everything.
  unfoldable pub resolve_policy : Str → PolicyDocument
  resolve_policy policy = elim (parse policy) [
    | some document ↦ document
    | none ↦ record { statements = [] }
  ]

  -- The end of `getCachedOrLoad`, behind the cache.
  unfoldable pub load : ℕ → Str → Manager js T → Option (CachedEntry T) × Manager js T
  load now id m = elim (find c.id id m.table) [
    | none ↦ (none, record m { cache = delete id m.cache })
    | some row ↦
        let entry : CachedEntry T = record {
          entity = row;
          resolved_policy = resolve_policy (c.policy row);
          cached_at = now;
        } in
        (some entry, record m { cache = insert id entry m.cache })
  ]

  unfoldable pub get_cached_or_load : ℕ → Str → Manager js T → Option (CachedEntry T) × Manager js T
  get_cached_or_load now id m = elim (lookup id m.cache) [
    | none ↦ load now id m
    | some entry ↦ if ltb now (entry.cached_at + ttl) then (some entry, m) else load now id m
  ]

  -- `evaluatePolicy`, with the regular expressions of the state.
  unfoldable pub policy_test :
      PolicyDocument → List RequestContext → Manager js T → Bool × Manager js T
  policy_test policy ctxs m =
      let (answer, regexes) = evaluate_policy js policy ctxs m.regexes in
      (answer, record m { regexes = regexes })

  -- The loop that collects the denied contexts.
  unfoldable pub denied_contexts :
      PolicyDocument
      → (RequestContext → Str)
      → List RequestContext
      → Manager js T
      → List Str × Manager js T
  denied_contexts policy format [] m = ([], m)
  denied_contexts policy format (ctx ∷ ctxs) m =
      let (answer, m') = policy_test policy (ctx ∷ []) m in
      let (rest, m'') = denied_contexts policy format ctxs m' in
      (if answer then rest else format ctx ∷ rest, m'')

  -- The end of the authorization: the policy against the contexts.
  unfoldable pub authorize_by_policy :
      PolicyDocument
      → (RequestContext → Str)
      → List RequestContext
      → AuthResult
      → Manager js T
      → AuthResult × Manager js T
  authorize_by_policy policy format ctxs granted m =
      let (answer, m') = policy_test policy ctxs m in
      let (denied, m'') = denied_contexts policy format ctxs m' in
      if answer
      then (granted, m')
      else (record (refusal (c.denied_message denied)) { denied = some denied }, m'')

  -- The checks on a loaded entity, in the order of the source.
  unfoldable pub authorize_entry :
      ℕ
      → (RequestContext → Str)
      → List RequestContext
      → Option (CachedEntry T)
      → Manager js T
      → AuthResult × Manager js T
  authorize_entry now format ctxs none m = (refusal c.invalid_message, m)
  authorize_entry now format ctxs (some entry) m =
      if c.is_revoked entry.entity
      then (refusal c.revoked_message, m)
      else if is_expired (c.expires_at entry.entity) now
      then (refusal c.expired_message, m)
      else authorize_by_policy entry.resolved_policy format ctxs
          (record {
            authorized = true;
            error = none;
            denied = none;
            key_name = some (c.name entry.entity);
            upstream_token_id = none;
          })
          m

  unfoldable pub authorize_with_contexts :
      ℕ
      → Str
      → List RequestContext
      → (RequestContext → Str)
      → Manager js T
      → AuthResult × Manager js T
  authorize_with_contexts now id ctxs format m =
      let (entry, m') = get_cached_or_load now id m in authorize_entry now format ctxs entry m'

  -- The row is not yet revoked and has the key.
  abbrev pub is_live : Str → T → Bool
  is_live id row = str_eq (c.id row) id && not (c.is_revoked row)

  unfoldable pub revoke_by_id : Str → Manager js T → Bool × Manager js T
  revoke_by_id id m = (
    any_row (count_where (is_live id) m.table),
    record m {
      table = update_where (is_live id) c.mark_revoked m.table;
      cache = delete id m.cache;
    },
  )

  unfoldable pub delete_by_id : Str → Manager js T → Bool × Manager js T
  delete_by_id id m = (
    any_row (count_where (λ row. str_eq (c.id row) id) m.table),
    record m {
      table = delete_where (λ row. str_eq (c.id row) id) m.table;
      cache = delete id m.cache;
    },
  )

  -- Revokes the rows whose time has run out; clears the cache if there are any.
  unfoldable pub revoke_expired : ℕ → Manager js T → ℕ × Manager js T
  revoke_expired now m =
      let due : T → Bool = λ row. not (c.is_revoked row) && has_run_out (c.expires_at row) now in
      let n = count_where due m.table in
      (
        n,
        record m {
          table = update_where due c.mark_revoked m.table;
          cache = if any_row n then [] else m.cache;
        },
      )

  -- One round of `bulkRevoke`.
  unfoldable pub revoke_item : Str → Manager js T → BulkStatus × Manager js T
  revoke_item id m = elim (find c.id id m.table) [
    | none ↦ (BulkStatus.not_found, m)
    | some row ↦
        if c.is_revoked row
        then (already_revoked, m)
        else (BulkStatus.revoked, (revoke_by_id id m).1)
  ]

  -- One round of `bulkDelete`.
  unfoldable pub delete_item : Str → Manager js T → BulkStatus × Manager js T
  delete_item id m =
      let (gone, m') = delete_by_id id m in (if gone then deleted else BulkStatus.not_found, m')

  -- A loop over ids that pushes one result for each.
  unfoldable pub for_each :
      (Str → Manager js T → BulkStatus × Manager js T)
      → List Str
      → Manager js T
      → List BulkItemResult × Manager js T
  for_each item [] m = ([], m)
  for_each item (id ∷ ids) m =
      let (status, m') = item id m in
      let (rest, m'') = for_each item ids m' in (record { id = id; status = status } ∷ rest, m'')

  abbrev pub bulk_result : List BulkItemResult × Manager js T → BulkResult × Manager js T
  bulk_result (results, m) = (record { processed = length results; results = results }, m)

  unfoldable pub bulk_revoke : List Str → Manager js T → BulkResult × Manager js T
  bulk_revoke ids m = bulk_result (for_each revoke_item ids m)

  unfoldable pub bulk_delete : List Str → Manager js T → BulkResult × Manager js T
  bulk_delete ids m = bulk_result (for_each delete_item ids m)

  unfoldable pub inspect_item : ℕ → Str → Str → Manager js T → BulkInspectItem
  inspect_item now would_become id m = elim (find c.id id m.table) [
    | none ↦ record {
      id = id;
      current_status = CurrentStatus.not_found;
      would_become = not_found_text;
    }
    | some row ↦ record {
      id = id;
      current_status =
          if c.is_revoked row
          then CurrentStatus.revoked
          else if is_expired (c.expires_at row) now
          then expired
          else active;
      would_become = would_become;
    }
  ]

  unfoldable pub bulk_inspect : ℕ → List Str → Str → Manager js T → BulkDryRunResult
  bulk_inspect now ids would_become m =
      let items = map (λ id. inspect_item now would_become id m) ids in
      record { would_process = length items; items = items }
