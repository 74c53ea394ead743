-- ===== src/Upstream/Registry.antt =====
-- What `UpstreamTokenManager` and `UpstreamR2Manager` share: a table of secrets with the scopes that
-- they serve, and a cache of resolved secrets, which every write clears. `Date.now()` is `now`.
pub mod Choice
pub mod Refinement
use purge_api_gateway.Base.{
  List, [], ◌∷◌, ◌++◌, Bool, true, false, not, ◌&&◌, ℕ, zero, suc, ◌+◌, ltb, leb, Option, none,
  some, Str, str_eq, lit, split_on, some_of, length, map, lookup, insert, if◌then◌else◌,
}
use purge_api_gateway.Credentials.Table.{
  find, update_where, delete_where, select_where, count_where,
}
use purge_api_gateway.Credentials.Types.{
  BulkStatus, BulkItemResult, BulkResult, CurrentStatus, BulkInspectItem, BulkDryRunResult, deleted,
  active,
}
use purge_api_gateway.Credentials.Manager.{any_row, has_run_out}
use purge_api_gateway.Credentials.Keys.{Result, ok, throws}
use purge_api_gateway.Credentials.Ordered.{newest_first}

-- The columns of a table of upstream secrets, and whether JavaScript takes a secret for true.
pub record Entry (T V : Type 0) : Type 0 where
  pub id : T → Str
  pub scopes : T → Str
  pub is_account : T → Bool
  pub created_at : T → ℕ
  pub expires_at : T → Option ℕ
  pub secret : T → V
  pub is_truthy : V → Bool
  pub set_name : Str → T → T
  pub set_expires_at : Option ℕ → T → T

pub record Cached (V : Type 0) : Type 0 where
  pub value : V
  pub cached_at : ℕ

pub record Registry (T V : Type 0) : Type 0 where
  pub rows : List T
  pub resolve_cache : List (Str × Cached V)

-- What is asked for: a zone or a bucket among all rows, an account among the rows of accounts, or
-- the row of an id.
pub data Query : Type 0 where
  any_scope account_scope by_id : Str → Query

unfoldable pub cache_key : Query → Str
cache_key (any_scope k) = k
cache_key (account_scope k) = lit "account:" ++ k
cache_key (by_id k) = lit "id:" ++ k

-- The optional fields of an update; `some none` sets the column to NULL.
pub record Updates : Type 0 where
  pub name : Option Str
  pub expires_at : Option (Option ℕ)

-- `expires_at && expires_at <= now`: an expiry of 0 is none at all.
unfoldable pub is_lapsed : Option ℕ → ℕ → Bool
is_lapsed none now = false
is_lapsed (some zero) now = false
is_lapsed (some (suc e)) now = leb (suc e) now

module _ {V : Type 0} where
  -- The cached answer, unless it is too old.
  unfoldable pub fresh_answer : ℕ → ℕ → Option (Cached V) → Option V
  fresh_answer ttl now none = none
  fresh_answer ttl now (some answer) =
      if ltb now (answer.cached_at + ttl) then some answer.value else none

module _ {T V : Type 0} (e : Entry T V) where
  -- `row.….split(',').includes(k)`
  unfoldable pub serves : Str → T → Bool
  serves k row = some_of (λ scope. str_eq scope k) (split_on b',' (e.scopes row))

  -- `!wildcardToken`
  unfoldable pub is_vacant : Option V → Bool
  is_vacant none = true
  is_vacant (some v) = not (e.is_truthy v)

  -- The wildcard secret after a row that does not serve the key itself.
  unfoldable pub next_wildcard : ℕ → T → Option V → Option V
  next_wildcard now row wild =
      if is_lapsed (e.expires_at row) now
      then wild
      else if serves (lit "*") row && is_vacant wild
      then some (e.secret row)
      else wild

  -- The loop over the rows, with the wildcard secret found so far.
  unfoldable pub scan : ℕ → Str → Option V → List T → Option V
  scan now k wild [] = if is_vacant wild then none else wild
  scan now k wild (row ∷ rows) =
      let rest = scan now k (next_wildcard now row wild) rows in
      if is_lapsed (e.expires_at row) now
      then rest
      else if serves k row
      then some (e.secret row)
      else rest

  -- What a query reads from the table, behind the cache.
  unfoldable pub load : ℕ → Query → List T → Option V
  load now (any_scope k) rows = scan now k none (newest_first e.created_at rows)
  load now (account_scope k) rows =
      scan now k none (newest_first e.created_at (select_where e.is_account rows))
  load now (by_id k) rows = elim (find e.id k rows) [
    | none ↦ none
    | some row ↦ if is_lapsed (e.expires_at row) now then none else some (e.secret row)
  ]

  -- `resolveTokenForZone`, `resolveTokenForAccount`, `resolveTokenById` and their like.
  unfoldable pub resolve : ℕ → ℕ → Query → Registry T V → Option V × Registry T V
  resolve ttl now q r = elim (fresh_answer ttl now (lookup (cache_key q) r.resolve_cache)) [
    | some v ↦ (some v, r)
    | none ↦ elim (load now q r.rows) [
      | none ↦ (none, r)
      | some v ↦
          let entry : Cached V = record { value = v; cached_at = now } in
          (some v, record r { resolve_cache = insert (cache_key q) entry r.resolve_cache })
    ]
  ]

  -- INSERT INTO …, which throws if the id is taken, and clears the cache otherwise.
  unfoldable pub create : T → Registry T V → Result T × Registry T V
  create row r = elim (find e.id (e.id row) r.rows) [
    | some taken ↦ (throws, r)
    | none ↦ (ok row, record { rows = r.rows ++ row ∷ []; resolve_cache = [] })
  ]

  unfoldable pub has_update : Updates → Bool
  has_update u = elim u.name [
    | some name ↦ true
    | none ↦ elim u.expires_at [ some expiry ↦ true | none ↦ false ]
  ]

  unfoldable pub apply_updates : Updates → T → T
  apply_updates u row =
      let named : T = elim u.name [ some name ↦ e.set_name name row | none ↦ row ] in
      elim u.expires_at [ some expiry ↦ e.set_expires_at expiry named | none ↦ named ]

  unfoldable pub update : Str → Updates → Registry T V → Option T × Registry T V
  update id u r = elim (find e.id id r.rows) [
    | none ↦ (none, r)
    | some row ↦
        let rows = update_where (λ row. str_eq (e.id row) id) (apply_updates u) r.rows in
        if has_update u
        then (find e.id id rows, record { rows = rows; resolve_cache = [] })
        else (some row, r)
  ]

  unfoldable pub count_expired : ℕ → Registry T V → ℕ
  count_expired now r = count_where (λ row. has_run_out (e.expires_at row) now) r.rows

  -- `DELETE FROM … WHERE …`, which clears the cache if a row was written.
  unfoldable pub delete_rows : (T → Bool) → Registry T V → ℕ × Registry T V
  delete_rows p r =
      let written = count_where p r.rows in
      let rest = record r { rows = delete_where p r.rows } in
      (written, if any_row written then record rest { resolve_cache = [] } else rest)

  unfoldable pub delete_expired : ℕ → Registry T V → ℕ × Registry T V
  delete_expired now r = delete_rows (λ row. has_run_out (e.expires_at row) now) r

  unfoldable pub delete_row : Str → Registry T V → Bool × Registry T V
  delete_row id r =
      let (written, r') = delete_rows (λ row. str_eq (e.id row) id) r in (any_row written, r')

  unfoldable pub delete_each : List Str → Registry T V → List BulkItemResult × Registry T V
  delete_each [] r = ([], r)
  delete_each (id ∷ ids) r =
      let (gone, r') = delete_row id r in
      let (results, r'') = delete_each ids r' in
      (record { id = id; status = if gone then deleted else BulkStatus.not_found } ∷ results, r'')

  unfoldable pub bulk_delete : List Str → Registry T V → BulkResult × Registry T V
  bulk_delete ids r =
      let (results, r') = delete_each ids r in
      (record { processed = length results; results = results }, r')

  unfoldable pub inspect_item : Str → Registry T V → Str → BulkInspectItem
  inspect_item would_become r id = elim (find e.id id r.rows) [
    | none ↦ record {
      id = id;
      current_status = CurrentStatus.not_found;
      would_become = lit "not_found";
    }
    | some row ↦ record { id = id; current_status = active; would_become = would_become }
  ]

  unfoldable pub bulk_inspect : List Str → Str → Registry T V → BulkDryRunResult
  bulk_inspect ids would_become r =
      let items = map (inspect_item would_become r) ids in
      record { would_process = length items; items = items }

  -- SELECT … ORDER BY created_at DESC
  unfoldable pub listing : Registry T V → List T
  listing r = newest_first e.created_at r.rows
