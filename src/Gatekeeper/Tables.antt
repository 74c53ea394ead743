-- ===== src/Gatekeeper/Tables.antt =====
-- The buckets of keys follow the changes that the methods make to the table of keys.
use purge_api_gateway.Base.{
  List, [], ◌∷◌, ◌++◌, Bool, true, false, ℕ, ◌||◌, ◌≡◌, ◌⊎◌, inl, inr, refl, sym, ap, ◌∙◌, subst,
  Option, none, some, Str, str_eq, str_eq_iff, delete, lookup-delete-some, Bool-cases, Option-cases,
  arith, if◌then◌else◌,
}
use mathlib.Core.Option
use mathlib.Core.Option.{some-injective, none-ne-some}
use purge_api_gateway.Policy.Runtime.{Runtime}
use purge_api_gateway.Policy.Types.{PolicyDocument}
use purge_api_gateway.Credentials.Table.{
  find, update_where, delete_where, count_where, find-update_where, find-delete_where, find-append,
  find-id, delete_where-none,
}
use purge_api_gateway.Credentials.Types.{BulkStatus, BulkItemResult}
use purge_api_gateway.Credentials.Manager.{
  Manager, any_row, revoke_by_id, delete_by_id, revoke_item, delete_item, for_each,
}
use purge_api_gateway.Credentials.Keys.{
  ApiKey, key_credential, Result, ok, throws, RotateOverrides, KeyUpdates, CreateKeyRequest,
  get_key, create_key, replace_key, rotate_key, rotation_request, has_update, apply_updates,
  write_updates, update_key,
}
use purge_api_gateway.Credentials.Manager.{is_expired}
use purge_api_gateway.Credentials.Keys.Updates.{find-write_updates}
use purge_api_gateway.Gatekeeper.{KeyBuckets}
use purge_api_gateway.Gatekeeper.KeyMethods.{clear_items, was_deleted}
use purge_api_gateway.Gatekeeper.KeyLimits.{Follows, Enforced, delete-Enforced}

-- A revocation changes no limits.
pub mark_revoked-Enforced :
    (p : ApiKey → Bool) (table : List ApiKey) (m : List (Str × KeyBuckets))
    → Enforced table m
    → Enforced (update_where p key_credential.mark_revoked table) m
mark_revoked-Enforced p table m h id b e =
    let (key, found, follows) = h id b e in
    let row = if p key then key_credential.mark_revoked key else key in
    (
      row,
      find-update_where (λ (k : ApiKey). k.id) p key_credential.mark_revoked (λ row. refl) id table
          ∙ ap (Option.map (λ row. if p row then key_credential.mark_revoked row else row)) found,
      still (p key) key follows,
    )
  where
    still :
        (c : Bool) (key : ApiKey)
        → Follows key b
        → Follows (if c then key_credential.mark_revoked key else key) b
    still true key f = f
    still false key f = f

pub append-Enforced :
    (new : ApiKey) (table : List ApiKey) (m : List (Str × KeyBuckets))
    → Enforced table m
    → Enforced (table ++ new ∷ []) m
append-Enforced new table m h id b e =
    let (key, found, follows) = h id b e in
    (
      key,
      find-append (λ (k : ApiKey). k.id) id table new
          ∙ ap
              (λ o. elim o [
                | some row ↦ some row
                | none ↦ if str_eq new.id id then some new else none
              ])
              found,
      follows,
    )

pub delete_where-Enforced :
    (id : Str) (table : List ApiKey) (m : List (Str × KeyBuckets))
    → Enforced table m
    → Enforced (delete_where (λ (k : ApiKey). str_eq k.id id) table) (delete id m)
delete_where-Enforced id table m h i b e =
    let (stored, other) = lookup-delete-some id i b m e in
    let (key, found, follows) = h i b stored in
    (
      key,
      find-delete_where (λ (k : ApiKey). k.id) id i table
          ∙ (ap (λ c. if c then none else find (λ (k : ApiKey). k.id) i table) other ∙ found),
      follows,
    )

pub Result-cases :
    {A B : Type 0} (r : Result (A × B)) → (r ≡ throws) ⊎ ((a : A) × (b : B) × (r ≡ ok (a, b)))
Result-cases throws = inl refl
Result-cases (ok (a, b)) = inr (a, b, refl)

module _ (js : Runtime) (parse : Str → Option PolicyDocument) (stringify : PolicyDocument → Str)
    (ttl : ℕ) where
  pub clear_items-Enforced :
      (table : List ApiKey) (done : BulkStatus → Bool) (items : List BulkItemResult)
      (m : List (Str × KeyBuckets))
      → Enforced table m
      → Enforced table (clear_items done items m)
  unfolding clear_items
  clear_items-Enforced table done [] m h = h
  clear_items-Enforced table done (item ∷ items) m h = elim (Bool-cases (done item.status)) [
    | inl yes_done ↦
        clear_items-Enforced table done items _ (rw (yes_done) (delete-Enforced table item.id m h))
    | inr not_done ↦ clear_items-Enforced table done items _ (rw (not_done) h)
  ]

  pub revoke_each-Enforced :
      (ids : List Str) (iam : Manager js ApiKey) (m : List (Str × KeyBuckets))
      → Enforced iam.table m
      → Enforced
          (for_each js parse key_credential ttl
            (revoke_item js parse key_credential ttl)
            ids
            iam).1.table
          m
  unfolding for_each revoke_item revoke_by_id
  revoke_each-Enforced [] iam m h = h
  revoke_each-Enforced (id ∷ ids) iam m h =
      revoke_each-Enforced ids (revoke_item js parse key_credential ttl id iam).1 m
        (elim (Option-cases (find key_credential.id id iam.table)) [
          | inl missing ↦ rw (missing, revoke_item) h
          | inr (row, found) ↦ elim (Bool-cases (key_credential.is_revoked row)) [
            | inl already ↦ rw (found, revoke_item, already) h
            | inr live ↦ rw (found, revoke_item, live) (mark_revoked-Enforced _ iam.table m h)
          ]
        ])

  pub delete_each-Enforced :
      (ids : List Str) (iam : Manager js ApiKey) (m : List (Str × KeyBuckets))
      → Enforced iam.table m
      → Enforced
          (for_each js parse key_credential ttl
            (delete_item js parse key_credential ttl)
            ids
            iam).1.table
          (clear_items was_deleted
            (for_each js parse key_credential ttl
              (delete_item js parse key_credential ttl)
              ids
              iam).0
            m)
  unfolding for_each delete_item delete_by_id clear_items
  delete_each-Enforced [] iam m h = h
  delete_each-Enforced (id ∷ ids) iam m h =
      delete_each-Enforced ids (delete_item js parse key_credential ttl id iam).1 _
        (elim (Bool-cases (any_row (count_where (λ (k : ApiKey). str_eq k.id id) iam.table))) [
          | inl gone ↦ rw (gone) (delete_where-Enforced id iam.table m h)
          | inr kept ↦ rw (kept) (
              subst (λ t. Enforced t m) (sym (delete_where-none _ iam.table (ground (arith, kept))))
                h)
        ])

  write_updates-Enforced :
      (id : Str) (u : KeyUpdates) (iam : Manager js ApiKey) (m : List (Str × KeyBuckets))
      → Enforced iam.table m
      → Enforced (write_updates js parse stringify ttl id u iam).table (delete id m)
  write_updates-Enforced id u iam m h i b e =
      let (stored, other) = lookup-delete-some id i b m e in
      let (key, found, follows) = h i b stored in
      let same = find-id (λ (k : ApiKey). k.id) i iam.table key found in
      let unlike : str_eq key.id id ≡ false =
        ground (arith, str_eq_iff key.id id, str_eq_iff id i, same, other) in
      (
        key,
        find-write_updates js parse stringify ttl id i u iam
            ∙ (ap (Option.map (λ row. if str_eq row.id id then apply_updates u row else row)) found
                ∙ ap (λ c. some (if c then apply_updates u key else key)) unlike),
        follows,
      )

  pub update_key-Enforced :
      (id : Str) (u : KeyUpdates) (iam : Manager js ApiKey) (m : List (Str × KeyBuckets))
      → Enforced iam.table m
      → Enforced
          (update_key js parse stringify ttl id u iam).1.table
          (elim (update_key js parse stringify ttl id u iam).0 [
            | none ↦ m
            | some found ↦ delete id m
          ])
  unfolding update_key get_key
  update_key-Enforced id u iam m h = (elim (Option-cases (get_key js parse stringify ttl id iam)) [
    | inl missing ↦ rw (missing, update_key) h
    | inr (key, found) ↦ elim (Bool-cases key.revoked) [
      | inl dead ↦ rw (found, update_key, dead) h
      | inr live ↦ elim (Bool-cases (has_update u)) [
        | inr no_update ↦ rw (found, update_key, live, no_update) (delete-Enforced iam.table id m h)
        | inl some_update ↦
            let back : get_key js parse stringify ttl id
                  (write_updates js parse stringify ttl id u iam)
                ≡ some (if str_eq key.id id then apply_updates u key else key) =
              find-write_updates js parse stringify ttl id id u iam
              ∙ ap (Option.map (λ row. if str_eq row.id id then apply_updates u row else row))
                  found in
            rw (found, update_key, live, some_update, back) (write_updates-Enforced id u iam m h)
      ]
    ]
  ])

  -- What a method returns has a table that the buckets follow; an exception has none.
  abbrev pub EnforcedIn :
      List (Str × KeyBuckets) → {A : Type 0} → Result (A × Manager js ApiKey) → Type 0
  EnforcedIn m throws = Unit
  EnforcedIn m (ok (a, iam)) = Enforced iam.table m

  pub create_key-Enforced :
      (fresh : Str) (now : ℕ) (req : CreateKeyRequest) (iam : Manager js ApiKey)
      (m : List (Str × KeyBuckets))
      → Enforced iam.table m
      → EnforcedIn m (create_key js parse stringify ttl fresh now req iam)
  unfolding create_key
  create_key-Enforced fresh now req iam m h =
      elim (Option-cases (get_key js parse stringify ttl fresh iam)) [
        | inr (row, taken) ↦ rw (taken, create_key) tt
        | inl free ↦ rw (free, create_key) (append-Enforced _ iam.table m h)
      ]

  replace_key-Enforced :
      (fresh : Str) (now : ℕ) (old : ApiKey) (req : CreateKeyRequest) (iam : Manager js ApiKey)
      (m : List (Str × KeyBuckets))
      → Enforced iam.table m
      → EnforcedIn m (replace_key js parse stringify ttl fresh now old req iam)
  unfolding replace_key revoke_by_id
  replace_key-Enforced fresh now old req iam m h =
      elim (Result-cases (create_key js parse stringify ttl fresh now req iam)) [
        | inl failed ↦ rw (failed, replace_key) tt
        | inr (key, iam', made) ↦
            rw (made, replace_key, revoke_by_id)
              (mark_revoked-Enforced _ iam'.table m
                (subst (EnforcedIn m) made (create_key-Enforced fresh now req iam m h)))
      ]

  pub rotate_key-Enforced :
      (fresh id : Str) (now : ℕ) (overrides : RotateOverrides) (iam : Manager js ApiKey)
      (m : List (Str × KeyBuckets))
      → Enforced iam.table m
      → EnforcedIn m (rotate_key js parse stringify ttl fresh id now overrides iam)
  unfolding rotate_key
  rotate_key-Enforced fresh id now overrides iam m h =
      elim (Option-cases (get_key js parse stringify ttl id iam)) [
        | inl missing ↦ rw (missing, rotate_key) h
        | inr (old, found) ↦ elim (Bool-cases (old.revoked || is_expired old.expires_at now)) [
          | inl dead ↦ rw (found, rotate_key, dead) h
          | inr live ↦ elim (Option-cases (parse old.policy)) [
            | inl corrupt ↦ rw (found, rotate_key, live, corrupt) h
            | inr (policy, parsed) ↦
                rw (found, rotate_key, live, parsed)
                  (replace_key-Enforced fresh now old (rotation_request old policy overrides) iam m
                    h)
          ]
        ]
      ]
