-- ===== src/Upstream/Registry/Refinement.antt =====
-- The registry with its cache against a table without one: what a resolution answers is what the
-- table gives, at the time of the call or less than the time to live before it.
use purge_api_gateway.Base.{
  List, [], ◌∷◌, ◌++◌, Bool, true, ℕ, ◌+◌, ◌≤◌, ◌<◌, ltb, ◌≡◌, ◌⊎◌, inl, inr, refl, sym, ap, ◌∙◌,
  subst, Option, none, some, Str, str_eq, lacks, lookup, insert_inv, Bool-cases, Option-cases,
  arith, if◌then◌else◌,
}
use purge_api_gateway.Upstream.Registry.Choice.{Answers, load-Answers}
use mathlib.Core.Option.{none-ne-some}
use purge_api_gateway.Credentials.Table.{
  find, update_where, delete_where, count_where, update_where-none, delete_where-none,
}
use purge_api_gateway.Credentials.Manager.{any_row, has_run_out}
use purge_api_gateway.Upstream.Registry.{
  Entry, Cached, Registry, Query, any_scope, account_scope, by_id, cache_key, Updates, fresh_answer,
  load, resolve, create, has_update, apply_updates, update, delete_rows, delete_expired, delete_row,
  delete_each, bulk_delete,
}

-- Zones and buckets have no colon, so that their keys are not those of accounts and ids.
abbrev pub IsPlain : Query → Type 0
IsPlain (any_scope k) = lacks b':' k ≡ true
IsPlain (account_scope k) = Unit
IsPlain (by_id k) = Unit

cache_key-injective : (q p : Query) → IsPlain q → IsPlain p → cache_key q ≡ cache_key p → q ≡ p
unfolding cache_key
cache_key-injective (any_scope k) (any_scope j) h i e = ap any_scope e
cache_key-injective (any_scope k) (account_scope j) h i e =
    absurd (ground (arith, ap (lacks b':') e, h))
cache_key-injective (any_scope k) (by_id j) h i e = absurd (ground (arith, ap (lacks b':') e, h))
cache_key-injective (account_scope k) (any_scope j) h i e =
    absurd (ground (arith, ap (lacks b':') e, i))
cache_key-injective (account_scope k) (account_scope j) h i e = ground (arith, e)
cache_key-injective (account_scope k) (by_id j) h i e = ground (arith, e)
cache_key-injective (by_id k) (any_scope j) h i e = absurd (ground (arith, ap (lacks b':') e, i))
cache_key-injective (by_id k) (account_scope j) h i e = ground (arith, e)
cache_key-injective (by_id k) (by_id j) h i e = ground (arith, e)

pub data Call (T : Type 0) : Type 0 where
  add : T → Call T
  change : Str → Updates → Call T
  remove : Str → Call T
  remove_expired : Call T
  remove_all : List Str → Call T
  ask : Query → Call T

abbrev pub IsPlainCall : {T : Type 0} → Call T → Type 0
IsPlainCall (ask q) = IsPlain q
IsPlainCall _ = Unit

module _ {T V : Type 0} (e : Entry T V) (ttl : ℕ) where
  -- The registry after a call.
  abbrev pub perform : ℕ → Call T → Registry T V → Registry T V
  perform now (add row) r = (create e row r).1
  perform now (change id u) r = (update e id u r).1
  perform now (remove id) r = (delete_row e id r).1
  perform now remove_expired r = (delete_expired e now r).1
  perform now (remove_all ids) r = (bulk_delete e ids r).1
  perform now (ask q) r = (resolve e ttl now q r).1

  unfoldable pub delete_all : List Str → List T → List T
  delete_all [] table = table
  delete_all (id ∷ ids) table = delete_all ids (delete_where (λ row. str_eq (e.id row) id) table)

  -- The table after a call, where there is no cache.
  unfoldable pub write : ℕ → Call T → List T → List T
  write now (add row) table = elim (find e.id (e.id row) table) [
    | some taken ↦ table
    | none ↦ table ++ row ∷ []
  ]
  write now (change id u) table =
      if has_update e u
      then update_where (λ row. str_eq (e.id row) id) (apply_updates e u) table
      else table
  write now (remove id) table = delete_where (λ row. str_eq (e.id row) id) table
  write now remove_expired table = delete_where (λ row. has_run_out (e.expires_at row) now) table
  write now (remove_all ids) table = delete_all ids table
  write now (ask q) table = table

  -- What the table gives to a query, now or less than the time to live ago.
  abbrev pub Served : ℕ → List T → Query → Option V → Type 0
  Served now table q answer =
      (t : ℕ) × (t ≤ now) × ((t ≡ now) ⊎ (now < t + ttl)) × (answer ≡ load e t q table)

  -- A cached secret is what the table as it stands gave to every query of its key when it was cached.
  abbrev pub IsFaithful : ℕ → Registry T V → Type 0
  IsFaithful last r =
      (k : Str) (entry : Cached V)
      → lookup k r.resolve_cache ≡ some entry
      → (q : Query) → IsPlain q
      → cache_key q ≡ k
      → (entry.cached_at ≤ last) × (load e entry.cached_at q r.rows ≡ some entry.value)

  load-Served :
      (now : ℕ) (q : Query) (r : Registry T V)
      → IsFaithful now r
      → fresh_answer ttl now (lookup (cache_key q) r.resolve_cache) ≡ none
      → IsPlain q
      → Served now r.rows q (resolve e ttl now q r).0
        × ((resolve e ttl now q r).1.rows ≡ r.rows)
        × IsFaithful now (resolve e ttl now q r).1
  unfolding resolve
  load-Served now q r h stale plain = elim (Option-cases (load e now q r.rows)) [
    | inl missing ↦
        rw (stale, resolve, missing) ((now, omega arith, inl refl, sym missing), refl, h)
    | inr (v, found) ↦
        rw (stale, resolve, found)
          (
            (now, omega arith, inl refl, sym found),
            refl,
            insert_inv
                (λ k entry.
                  (p : Query)
                  → IsPlain p
                  → cache_key p ≡ k
                  → (entry.cached_at ≤ now) × (load e entry.cached_at p r.rows ≡ some entry.value))
                (cache_key q) _ r.resolve_cache
                (λ p i same. (
                  omega arith,
                  subst (λ x. load e now x r.rows ≡ some v)
                      (sym (cache_key-injective p q i plain same)) found,
                ))
                h,
          )
  ]

  -- A resolution on a faithful registry.
  resolve-Served :
      (now : ℕ) (q : Query) (r : Registry T V)
      → IsFaithful now r
      → IsPlain q
      → Served now r.rows q (resolve e ttl now q r).0
        × ((resolve e ttl now q r).1.rows ≡ r.rows)
        × IsFaithful now (resolve e ttl now q r).1
  unfolding resolve fresh_answer
  resolve-Served now q r h plain = elim (Option-cases (lookup (cache_key q) r.resolve_cache)) [
    | inl miss ↦ load-Served now q r h (rw (miss, fresh_answer) refl) plain
    | inr (entry, hit) ↦ elim (Bool-cases (ltb now (entry.cached_at + ttl))) [
      | inl fresh ↦
          let (early, same) = h (cache_key q) entry hit q plain refl in
          rw (hit, resolve, fresh_answer, fresh)
            ((entry.cached_at, early, inr (ground (arith, fresh)), sym same), refl, h)
      | inr stale ↦ load-Served now q r h (rw (hit, fresh_answer, stale) refl) plain
    ]
  ]

  earlier : (last now : ℕ) (r : Registry T V) → last ≤ now → IsFaithful last r → IsFaithful now r
  earlier last now r le h k entry hit q plain same =
      let (early, given) = h k entry hit q plain same in (omega arith, given)

  cleared-IsFaithful :
      (last : ℕ) (rows : List T) → IsFaithful last (record { rows = rows; resolve_cache = [] })
  unfolding lookup
  cleared-IsFaithful last rows k entry hit q plain same = absurd (none-ne-some _ hit)

  delete_rows-Kept :
      (last : ℕ) (p : T → Bool) (r : Registry T V)
      → IsFaithful last r
      → ((delete_rows e p r).1.rows ≡ delete_where p r.rows) × IsFaithful last (delete_rows e p r).1
  unfolding delete_rows
  delete_rows-Kept last p r h = elim (Bool-cases (any_row (count_where p r.rows))) [
    | inl written ↦
        rw (delete_rows, written) (refl, cleared-IsFaithful last (delete_where p r.rows))
    | inr none_written ↦
        rw (delete_rows, none_written, delete_where-none p r.rows (ground (arith, none_written)))
          (refl, h)
  ]

  delete_each-Kept :
      (last : ℕ) (ids : List Str) (r : Registry T V)
      → IsFaithful last r
      → ((delete_each e ids r).1.rows ≡ delete_all ids r.rows)
        × IsFaithful last (delete_each e ids r).1
  unfolding delete_each delete_all delete_row
  delete_each-Kept last [] r h = (refl, h)
  delete_each-Kept last (id ∷ ids) r h =
      let (rows, kept) = delete_rows-Kept last (λ row. str_eq (e.id row) id) r h in
      let (rest, all_kept) = delete_each-Kept last ids (delete_row e id r).1 kept in
      (rest ∙ ap (delete_all ids) rows, all_kept)

  count_where-none :
      (k : Str) (rows : List T)
      → find e.id k rows ≡ none
      → count_where (λ row. str_eq (e.id row) k) rows ≡ 0
  unfolding find count_where
  count_where-none k [] h = refl
  count_where-none k (row ∷ rows) h = ground (arith, count_where-none k rows)

  update-Kept :
      (last : ℕ) (id : Str) (u : Updates) (r : Registry T V)
      → IsFaithful last r
      → ((update e id u r).1.rows ≡ write last (change id u) r.rows)
        × IsFaithful last (update e id u r).1
  unfolding update write
  update-Kept last id u r h = elim (Option-cases (find e.id id r.rows)) [
    | inl missing ↦
        rw (missing, update)
          (
            ground (
              arith,
              update_where-none _ (apply_updates e u) r.rows (count_where-none id r.rows missing),
            ),
            h,
          )
    | inr (row, found) ↦ elim (Bool-cases (has_update e u)) [
      | inl some_update ↦ rw (found, update, some_update) (refl, cleared-IsFaithful last _)
      | inr no_update ↦ rw (found, update, no_update) (refl, h)
    ]
  ]

  create-Kept :
      (last : ℕ) (row : T) (r : Registry T V)
      → IsFaithful last r
      → ((create e row r).1.rows ≡ write last (add row) r.rows) × IsFaithful last (create e row r).1
  unfolding create write
  create-Kept last row r h = elim (Option-cases (find e.id (e.id row) r.rows)) [
    | inl free ↦ rw (free, create, write) (refl, cleared-IsFaithful last _)
    | inr (old, taken) ↦ rw (taken, create, write) (refl, h)
  ]

  perform-Kept :
      (now : ℕ) (c : Call T) (r : Registry T V)
      → IsPlainCall c
      → IsFaithful now r
      → ((perform now c r).rows ≡ write now c r.rows) × IsFaithful now (perform now c r)
  unfolding write create delete_row delete_expired bulk_delete
  perform-Kept now (add row) r plain h = create-Kept now row r h
  perform-Kept now (change id u) r plain h = update-Kept now id u r h
  perform-Kept now (remove id) r plain h = delete_rows-Kept now _ r h
  perform-Kept now remove_expired r plain h = delete_rows-Kept now _ r h
  perform-Kept now (remove_all ids) r plain h = delete_each-Kept now ids r h
  perform-Kept now (ask q) r plain h =
      let (_, rows, kept) = resolve-Served now q r h plain in (rows, kept)

  -- A registry and the table without a cache that was made by the same calls, with a clock that does
  -- not run back; the time is that of the last call.
  pub data Run : ℕ → List T → Registry T V → Type 0 where
    start : Run 0 [] (record { rows = []; resolve_cache = [] })
    then_call :
        {last : ℕ} {table : List T} {r : Registry T V}
        → Run last table r
        → (now : ℕ) → last ≤ now
        → (c : Call T) → IsPlainCall c
        → Run now (write now c table) (perform now c r)

  Run-Kept :
      {last : ℕ} {table : List T} {r : Registry T V}
      → Run last table r
      → (r.rows ≡ table) × IsFaithful last r
  Run-Kept start = (refl, cleared-IsFaithful 0 [])
  Run-Kept (then_call {last} {table} {r} run now le c plain) =
      let (rows, faithful) = Run-Kept run in
      let (next, kept) = perform-Kept now c r plain (earlier last now r le faithful) in
      (next ∙ ap (write now c) rows, kept)

  -- After any calls a resolution answers what the table without a cache, made by the same calls,
  -- gives to the query at the time of the call or at a time less than the time to live before it:
  -- the secret of a row that is still stored, and that was live at that time.
  pub resolve-Answers :
      {last : ℕ} {table : List T} {r : Registry T V}
      → Run last table r
      → (now : ℕ) (q : Query) → last ≤ now
      → IsPlain q
      → (t : ℕ) × (t ≤ now)
        × ((t ≡ now) ⊎ (now < t + ttl))
        × Answers e t q table (resolve e ttl now q r).0
  resolve-Answers {last} {table} {r} run now q le plain =
      let (rows, faithful) = Run-Kept run in
      let (t, early, fresh, same) =
        (resolve-Served now q r (earlier last now r le faithful) plain).0 in
      (
        t,
        early,
        fresh,
        subst (λ rows. Answers e t q rows (resolve e ttl now q r).0) rows
            (subst (Answers e t q r.rows) (sym same) (load-Answers e t q r.rows)),
      )
