-- ===== src/Gatekeeper/Kept.antt =====
-- Each method keeps the buckets of keys limited.
use purge_api_gateway.Base.{
  List, [], ◌∷◌, Bool, true, false, ◌||◌, ℕ, ◌≤◌, ℤ, ◌≡◌, inl, inr, ap, ◌∙◌, subst, Option, none,
  some, Str, length, lookup, delete, length-delete-le, Bool-cases, Option-cases, arith,
  if◌then◌else◌,
}
use mathlib.Core.Option.{none-ne-some}
use purge_api_gateway.Policy.Runtime.{Runtime}
use purge_api_gateway.Policy.Types.{PolicyDocument}
use purge_api_gateway.Credentials.Types.{BulkStatus, BulkItemResult}
use purge_api_gateway.Credentials.Manager.{
  Manager, revoke_by_id, delete_by_id, revoke_expired, bulk_revoke, bulk_delete,
}
use purge_api_gateway.Credentials.Keys.{
  ApiKey, Result, ok, throws, RotateOverrides, KeyUpdates, CreateKeyRequest, create_key, rotate_key,
  update_key,
}
use purge_api_gateway.Config.{Numbers}
use purge_api_gateway.RateLimit.TokenBucket.{TokenBucket}
use purge_api_gateway.Gatekeeper.{
  RateClass, KeyBuckets, Gatekeeper, positive_tokens, put_bucket, check_key, begin_purge, changed,
  rebuild_buckets, cleanup_expired,
}
use purge_api_gateway.Gatekeeper.KeyMethods.{
  revoke_key, delete_key, rotate, change_key, bulk_revoke_keys, bulk_delete_keys, clear_items,
}
use purge_api_gateway.Gatekeeper.Tables.{
  mark_revoked-Enforced, delete_where-Enforced, clear_items-Enforced, revoke_each-Enforced,
  delete_each-Enforced, update_key-Enforced, rotate_key-Enforced, create_key-Enforced,
}
use purge_api_gateway.Gatekeeper.Invariant.{
  IsLimited, delete-IsLimited, Limited, check_per_key_rate_limit-Limited,
}
use purge_api_gateway.Gatekeeper.Tables.{EnforcedIn, Result-cases}

module _ (js : Runtime) (parse : Str → Option PolicyDocument) (stringify : PolicyDocument → Str)
    (ttl : ℕ) (numbers : Numbers ℕ) (inherited : Str → Bool) (env : Str → Option Str) where
  pub put_bucket-Limited :
      (ref : ℕ) (bucket : TokenBucket) (g : Gatekeeper js)
      → Limited js parse stringify ttl numbers inherited env g
      → Limited js parse stringify ttl numbers inherited env
          (put_bucket js parse stringify ttl numbers inherited env ref bucket g)
  unfolding put_bucket
  put_bucket-Limited ref bucket g h = record { bounded = h.bounded; enforced = h.enforced }

  check_key-Limited :
      (now : ℕ) (key_id : Option Str) (class : RateClass) (tokens : ℤ) (g : Gatekeeper js)
      → Limited js parse stringify ttl numbers inherited env g
      → Limited js parse stringify ttl numbers inherited env
          (check_key js parse stringify ttl numbers inherited env now key_id class tokens g).1
  unfolding check_key
  check_key-Limited now none class tokens g h = h
  check_key-Limited now (some []) class tokens g h = h
  check_key-Limited now (some (c ∷ s)) class tokens g h =
      (check_per_key_rate_limit-Limited js parse stringify ttl numbers inherited env now (c ∷ s)
        class tokens g h).0

  pub begin_purge-Limited :
      (now : ℕ) (key_id : Option Str) (class : RateClass) (tokens : ℤ) (g : Gatekeeper js)
      → Limited js parse stringify ttl numbers inherited env g
      → Limited js parse stringify ttl numbers inherited env
          (begin_purge js parse stringify ttl numbers inherited env now key_id class tokens g).1
  unfolding begin_purge
  begin_purge-Limited now key_id class tokens g h =
      let checked =
        check_key js parse stringify ttl numbers inherited env now key_id class
          (positive_tokens tokens) g in
      let limited = check_key-Limited now key_id class (positive_tokens tokens) g h in
      elim (Option-cases checked.0) [
        | inl passed ↦ rw (passed, begin_purge) (put_bucket-Limited _ _ checked.1 limited)
        | inr (result, refused) ↦ rw (refused, begin_purge) limited
      ]

  pub cleared-IsLimited : (table : List ApiKey) → IsLimited table []
  unfolding lookup
  cleared-IsLimited table = record {
    bounded = omega arith;
    enforced = λ id b e. absurd (none-ne-some _ e);
  }

  clear_items-le :
      (done : BulkStatus → Bool) (items : List BulkItemResult) (m : List (Str × KeyBuckets))
      → length (clear_items done items m) ≤ length m
  unfolding clear_items
  clear_items-le done [] m = omega arith
  clear_items-le done (item ∷ items) m = elim (Bool-cases (done item.status)) [
    | inl done_with ↦
        rw (done_with, clear_items)
          (omega (arith, clear_items-le done items (delete item.id m), length-delete-le item.id m))
    | inr left ↦ rw (left, clear_items) (clear_items-le done items m)
  ]

  pub revoke_key-Limited :
      (id : Str) (g : Gatekeeper js)
      → Limited js parse stringify ttl numbers inherited env g
      → Limited js parse stringify ttl numbers inherited env
          (revoke_key js parse stringify ttl id g).1
  unfolding revoke_key revoke_by_id
  revoke_key-Limited id g h = delete-IsLimited _ id g.key_buckets (record {
    bounded = h.bounded;
    enforced = mark_revoked-Enforced _ g.iam.table g.key_buckets h.enforced;
  })

  pub delete_key-Limited :
      (id : Str) (g : Gatekeeper js)
      → Limited js parse stringify ttl numbers inherited env g
      → Limited js parse stringify ttl numbers inherited env
          (delete_key js parse stringify ttl id g).1
  unfolding delete_key delete_by_id
  delete_key-Limited id g h = record {
    bounded = omega (arith, h.bounded, length-delete-le id g.key_buckets);
    enforced = delete_where-Enforced id g.iam.table g.key_buckets h.enforced;
  }

  pub change_key-Limited :
      (id : Str) (updates : KeyUpdates) (g : Gatekeeper js)
      → Limited js parse stringify ttl numbers inherited env g
      → Limited js parse stringify ttl numbers inherited env
          (change_key js parse stringify ttl id updates g).1
  unfolding change_key
  change_key-Limited id updates g h =
      let kept =
        update_key-Enforced js parse stringify ttl id updates g.iam g.key_buckets h.enforced in
      elim (Option-cases (update_key js parse stringify ttl id updates g.iam).0) [
        | inl missing ↦
            rw (missing, change_key)
              (record { bounded = h.bounded; enforced = rw (missing) at kept })
        | inr (key, found) ↦
            rw (found, change_key)
              (record {
                bounded = omega (arith, h.bounded, length-delete-le id g.key_buckets);
                enforced = rw (found) at kept;
              })
      ]

  -- What a method returns is limited; an exception leaves no state.
  unfoldable pub LimitedIn : {A : Type 0} → Result (A × Gatekeeper js) → Type 0
  LimitedIn throws = Unit
  LimitedIn (ok (a, g)) = Limited js parse stringify ttl numbers inherited env g

  pub rotate-LimitedIn :
      (fresh id : Str) (now : ℕ) (overrides : RotateOverrides) (g : Gatekeeper js)
      → Limited js parse stringify ttl numbers inherited env g
      → LimitedIn (rotate js parse stringify ttl fresh id now overrides g)
  unfolding rotate LimitedIn
  rotate-LimitedIn fresh id now overrides g h =
      let kept =
        rotate_key-Enforced js parse stringify ttl fresh id now overrides g.iam g.key_buckets
          h.enforced in
      elim (Result-cases (rotate_key js parse stringify ttl fresh id now overrides g.iam)) [
        | inl failed ↦ rw (failed, rotate) tt
        | inr (o, iam, done) ↦
            let enforced = subst (EnforcedIn js parse stringify ttl g.key_buckets) done kept in
            elim (Option-cases o) [
              | inl refused ↦
                  rw (done ∙ ap (λ x. ok (x, iam)) refused, rotate)
                    (record { bounded = h.bounded; enforced = enforced })
              | inr (keys, rotated) ↦
                  rw (done ∙ ap (λ x. ok (x, iam)) rotated, rotate)
                    (delete-IsLimited iam.table id g.key_buckets
                      (record { bounded = h.bounded; enforced = enforced }))
            ]
      ]

  pub bulk_revoke-Limited :
      (ids : List Str) (g : Gatekeeper js)
      → Limited js parse stringify ttl numbers inherited env g
      → Limited js parse stringify ttl numbers inherited env
          (bulk_revoke_keys js parse stringify ttl ids g).1
  unfolding bulk_revoke_keys bulk_revoke
  bulk_revoke-Limited ids g h = record {
    bounded = omega (arith, h.bounded, clear_items-le _ _ g.key_buckets);
    enforced =
        clear_items-Enforced js parse stringify ttl _ _ _ g.key_buckets
          (revoke_each-Enforced js parse stringify ttl ids g.iam g.key_buckets h.enforced);
  }

  pub bulk_delete-Limited :
      (ids : List Str) (g : Gatekeeper js)
      → Limited js parse stringify ttl numbers inherited env g
      → Limited js parse stringify ttl numbers inherited env
          (bulk_delete_keys js parse stringify ttl ids g).1
  unfolding bulk_delete_keys bulk_delete
  bulk_delete-Limited ids g h = record {
    bounded = omega (arith, h.bounded, clear_items-le _ _ g.key_buckets);
    enforced = delete_each-Enforced js parse stringify ttl ids g.iam g.key_buckets h.enforced;
  }

  pub cleanup-Limited :
      (now : ℕ) (g : Gatekeeper js)
      → Limited js parse stringify ttl numbers inherited env g
      → Limited js parse stringify ttl numbers inherited env
          (cleanup_expired js parse stringify ttl numbers inherited env now g).1
  unfolding cleanup_expired revoke_expired
  cleanup-Limited now g h = record {
    bounded = h.bounded;
    enforced = mark_revoked-Enforced _ g.iam.table g.key_buckets h.enforced;
  }

  pub rebuild-Limited :
      (now : ℕ) (g : Gatekeeper js)
      → Limited js parse stringify ttl numbers inherited env g
      → Limited js parse stringify ttl numbers inherited env
          (rebuild_buckets js parse stringify ttl numbers inherited env now g)
  unfolding rebuild_buckets
  rebuild-Limited now g h = split (
      changed js parse stringify ttl numbers inherited env (g.buckets g.bulk_bucket) _ _
      || changed js parse stringify ttl numbers inherited env (g.buckets g.single_bucket) _ _)
    where
      split : (b : Bool) → IsLimited g.iam.table (if b then [] else g.key_buckets)
      split true = cleared-IsLimited g.iam.table
      split false = h

  pub create-Limited :
      (fresh : Str) (now : ℕ) (req : CreateKeyRequest) (key : ApiKey) (iam : Manager js ApiKey)
      (g : Gatekeeper js)
      → create_key js parse stringify ttl fresh now req g.iam ≡ ok (key, iam)
      → Limited js parse stringify ttl numbers inherited env g
      → IsLimited iam.table g.key_buckets
  create-Limited fresh now req key iam g made h = record {
    bounded = h.bounded;
    enforced =
        subst (EnforcedIn js parse stringify ttl g.key_buckets) made
          (create_key-Enforced js parse stringify ttl fresh now req g.iam g.key_buckets h.enforced);
  }
