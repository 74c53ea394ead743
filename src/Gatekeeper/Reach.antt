-- ===== src/Gatekeeper/Reach.antt =====
-- The states of the durable object that its methods reach, in whatever order they are called.
use purge_api_gateway.Base.{List, [], Bool, ℕ, ℤ, ◌≡◌, sym, subst, Option, Str}
use purge_api_gateway.Policy.Runtime.{Runtime}
use purge_api_gateway.Policy.Types.{PolicyDocument}
use purge_api_gateway.Credentials.Manager.{Manager}
use purge_api_gateway.Credentials.Keys.{
  ApiKey, ok, RotateOverrides, KeyUpdates, CreateKeyRequest, create_key,
}
use purge_api_gateway.Config.{Numbers}
use purge_api_gateway.Gatekeeper.{
  RateClass, UpstreamOutcome, Gatekeeper, begin_purge, end_purge, rebuild_buckets, cleanup_expired,
}
use purge_api_gateway.Gatekeeper.KeyMethods.{
  revoke_key, delete_key, rotate, change_key, bulk_revoke_keys, bulk_delete_keys,
}
use purge_api_gateway.Gatekeeper.Invariant.{IsLimited, Limited}
use purge_api_gateway.Gatekeeper.Kept.{
  put_bucket-Limited, begin_purge-Limited, cleared-IsLimited, revoke_key-Limited,
  delete_key-Limited, change_key-Limited, rotate-LimitedIn, bulk_revoke-Limited,
  bulk_delete-Limited, cleanup-Limited, rebuild-Limited, create-Limited, LimitedIn,
}

module _ (js : Runtime) (parse : Str → Option PolicyDocument) (stringify : PolicyDocument → Str)
    (ttl : ℕ) (numbers : Numbers ℕ) (inherited : Str → Bool) (env : Str → Option Str) where
  -- One call of a method, or a change that leaves the table of keys and the buckets of keys alone,
  -- as an authorization makes to the caches and as the methods of other managers do.
  pub data Step (g : Gatekeeper js) : Gatekeeper js → Type 0 where
    beginning :
        (now : ℕ) (key_id : Option Str) (class : RateClass) (tokens : ℤ)
        → Step g
            (begin_purge js parse stringify ttl numbers inherited env now key_id class tokens g).1
    ending :
        (now ref : ℕ) (outcome : UpstreamOutcome)
        → Step g (end_purge js parse stringify ttl numbers inherited env now ref outcome g).1
    revoking : (id : Str) → Step g (revoke_key js parse stringify ttl id g).1
    deleting : (id : Str) → Step g (delete_key js parse stringify ttl id g).1
    rotating :
        (fresh id : Str) (now : ℕ) (overrides : RotateOverrides) (o : Option (ApiKey × ApiKey))
        (g' : Gatekeeper js)
        → rotate js parse stringify ttl fresh id now overrides g ≡ ok (o, g')
        → Step g g'
    changing :
        (id : Str) (updates : KeyUpdates)
        → Step g (change_key js parse stringify ttl id updates g).1
    creating :
        (fresh : Str) (now : ℕ) (req : CreateKeyRequest) (key : ApiKey) (iam : Manager js ApiKey)
        → create_key js parse stringify ttl fresh now req g.iam ≡ ok (key, iam)
        → Step g (record g { iam = iam })
    bulk_revoking : (ids : List Str) → Step g (bulk_revoke_keys js parse stringify ttl ids g).1
    bulk_deleting : (ids : List Str) → Step g (bulk_delete_keys js parse stringify ttl ids g).1
    cleaning :
        (now : ℕ) → Step g (cleanup_expired js parse stringify ttl numbers inherited env now g).1
    rebuilding :
        (now : ℕ) → Step g (rebuild_buckets js parse stringify ttl numbers inherited env now g)
    otherwise :
        (g' : Gatekeeper js)
        → g'.iam.table ≡ g.iam.table
        → g'.key_buckets ≡ g.key_buckets
        → Step g g'

  -- The states that are reached from one where no key has buckets.
  pub data Reached : Gatekeeper js → Type 0 where
    start : (g : Gatekeeper js) → g.key_buckets ≡ [] → Reached g
    step : {g g' : Gatekeeper js} → Reached g → Step g g' → Reached g'

  Step-Limited :
      {g g' : Gatekeeper js}
      → Step g g'
      → Limited js parse stringify ttl numbers inherited env g
      → Limited js parse stringify ttl numbers inherited env g'
  unfolding end_purge LimitedIn
  Step-Limited {g} (beginning now key_id class tokens) h =
      begin_purge-Limited js parse stringify ttl numbers inherited env now key_id class tokens g h
  Step-Limited {g} (ending now ref outcome) h =
      put_bucket-Limited js parse stringify ttl numbers inherited env ref _ g h
  Step-Limited {g} (revoking id) h =
      revoke_key-Limited js parse stringify ttl numbers inherited env id g h
  Step-Limited {g} (deleting id) h =
      delete_key-Limited js parse stringify ttl numbers inherited env id g h
  Step-Limited {g} (rotating fresh id now overrides o g' done) h =
      subst (LimitedIn js parse stringify ttl numbers inherited env) done
        (rotate-LimitedIn js parse stringify ttl numbers inherited env fresh id now overrides g h)
  Step-Limited {g} (changing id updates) h =
      change_key-Limited js parse stringify ttl numbers inherited env id updates g h
  Step-Limited {g} (creating fresh now req key iam made) h =
      let limited =
        create-Limited js parse stringify ttl numbers inherited env fresh now req key iam g made
          h in
      record { bounded = limited.bounded; enforced = limited.enforced }
  Step-Limited {g} (bulk_revoking ids) h =
      bulk_revoke-Limited js parse stringify ttl numbers inherited env ids g h
  Step-Limited {g} (bulk_deleting ids) h =
      bulk_delete-Limited js parse stringify ttl numbers inherited env ids g h
  Step-Limited {g} (cleaning now) h =
      cleanup-Limited js parse stringify ttl numbers inherited env now g h
  Step-Limited {g} (rebuilding now) h =
      rebuild-Limited js parse stringify ttl numbers inherited env now g h
  Step-Limited {g} (otherwise g' same_table same_buckets) h =
      subst (λ t. IsLimited t g'.key_buckets) (sym same_table)
        (subst (IsLimited g.iam.table) (sym same_buckets) h)

  -- In every state that the methods reach, in whatever order they are called, at most 1024 keys have
  -- buckets, every such key is stored, and its buckets have the rates and sizes that the key stores
  -- at that time.
  pub Reached-Limited :
      {g : Gatekeeper js} → Reached g → Limited js parse stringify ttl numbers inherited env g
  Reached-Limited (start g empty) =
      subst (IsLimited g.iam.table) (sym empty)
        (cleared-IsLimited js parse stringify ttl numbers inherited env g.iam.table)
  Reached-Limited (step reached s) = Step-Limited s (Reached-Limited reached)
