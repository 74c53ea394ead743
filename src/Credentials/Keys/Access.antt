-- ===== src/Credentials/Keys/Access.antt =====
-- What `IamManager.authorize` grants.
use purge_api_gateway.Base.{
  List, Bool, true, false, ℕ, ◌≡◌, refl, sym, ap, subst, ◌∙◌, ◌↔◌, Option, none, some, Str, All,
  if◌then◌else◌,
}
use mathlib.Core.Bool.{false≢true}
use mathlib.Core.Option.{none-ne-some}
use purge_api_gateway.Policy.Runtime.{Runtime}
use purge_api_gateway.Policy.Types.{PolicyDocument, RequestContext}
use purge_api_gateway.Policy.Evaluate.Laws.{IsShallow, Permits}
use purge_api_gateway.Credentials.Table.{find}
use purge_api_gateway.Credentials.Types.{CachedEntry, AuthResult}
use purge_api_gateway.Credentials.Manager.{
  Manager, resolve_policy, is_expired, get_cached_or_load, refusal,
}
use purge_api_gateway.Credentials.Manager.Cache.{
  IsConsistent, IsCurrent, get_cached_or_load-IsCurrent,
}
use purge_api_gateway.Credentials.Manager.Authorize.{
  Outcome, Outcome-iff, refusal-Outcome, same_row, authorize_by_policy-Outcome,
}
use purge_api_gateway.Credentials.PurgeContexts.{format_denied_context}
use purge_api_gateway.Credentials.Keys.{
  ApiKey, key_credential, zone_mismatch, authorize_key, authorize,
}

module _ (js : Runtime) (parse : Str → Option PolicyDocument) (stringify : PolicyDocument → Str)
    (ttl : ℕ) where
  -- What a key must be to be granted a list of requests on a zone.
  pub record KeyGrants (table : List ApiKey) (now : ℕ) (id zone : Str) (ctxs : List RequestContext)
      : Type 0 where
    pub key : ApiKey
    pub stored : find (λ k. k.id) id table ≡ some key
    pub live : key.revoked ≡ false
    pub in_time : is_expired key.expires_at now ≡ false
    pub zoned : zone_mismatch key.zone_id zone ≡ false
    pub permitted :
        All (λ ctx. Permits js ctx (resolve_policy js parse key_credential ttl key.policy)) ctxs

  abbrev pub IsConsistentKeys : Manager js ApiKey → Type 0
  IsConsistentKeys m = IsConsistent js parse key_credential ttl m

  authorize_key-Outcome :
      (now : ℕ) (id zone : Str) (ctxs : List RequestContext) (entry : Option (CachedEntry ApiKey))
      (m : Manager js ApiKey)
      → IsConsistentKeys m
      → IsCurrent js parse key_credential ttl m.table id entry
      → Outcome js parse key_credential ttl
          (KeyGrants m.table now id zone ctxs)
          m
          (authorize_key js parse stringify ttl now zone ctxs entry m)
  unfolding authorize_key
  authorize_key-Outcome now id zone ctxs none m h missing =
      refusal-Outcome js parse key_credential ttl _ m (λ g. none-ne-some _ (sym missing ∙ g.stored))
        h
  authorize_key-Outcome now id zone ctxs (some entry) m h (found, resolved) =
      gate _ entry.entity.revoked
        (λ bad g. false≢true (sym g.live ∙ (ap (λ k. k.revoked) (same g) ∙ bad)))
        (λ live.
          gate _ (is_expired entry.entity.expires_at now)
            (λ bad g.
              false≢true (sym g.in_time ∙ (ap (λ k. is_expired k.expires_at now) (same g) ∙ bad)))
            (λ in_time.
              gate _ (zone_mismatch entry.entity.zone_id zone)
                (λ bad g.
                  false≢true
                    (sym g.zoned ∙ (ap (λ k. zone_mismatch k.zone_id zone) (same g) ∙ bad)))
                (λ zoned.
                  Outcome-iff js parse key_credential ttl
                    (
                      λ p. record {
                        key = entry.entity;
                        stored = found;
                        live = live;
                        in_time = in_time;
                        zoned = zoned;
                        permitted = subst (λ d. All (λ ctx. Permits js ctx d) ctxs) resolved p;
                      },
                      λ g.
                          subst (λ d. All (λ ctx. Permits js ctx d) ctxs)
                            (ap (λ k. resolve_policy js parse key_credential ttl k.policy) (same g)
                              ∙ sym resolved)
                            g.permitted,
                    )
                    (authorize_by_policy-Outcome js parse key_credential ttl entry.resolved_policy
                      format_denied_context ctxs _ m refl
                      (subst IsShallow (sym resolved) (h.shallow id entry.entity found)) h))))
    where
      same : (g : KeyGrants m.table now id zone ctxs) → g.key ≡ entry.entity
      same g = same_row js parse key_credential ttl m.table id g.stored found

      gate :
          {G : Type 0} (message : Str) (b : Bool) {r : AuthResult × Manager js ApiKey}
          → (b ≡ true → ¬ G)
          → (b ≡ false → Outcome js parse key_credential ttl G m r)
          → Outcome js parse key_credential ttl G m (if b then (refusal message, m) else r)
      gate message true n o = refusal-Outcome js parse key_credential ttl _ m (n refl) h
      gate message false n o = o refl

  -- On a consistent manager `authorize` grants exactly the keys that are stored at the time of the
  -- call, neither revoked nor expired, not bound to another zone, and whose policy permits every
  -- request; it leaves the table alone and the manager consistent.
  pub authorize-Outcome :
      (now : ℕ) (id zone : Str) (ctxs : List RequestContext) (m : Manager js ApiKey)
      → IsConsistentKeys m
      → Outcome js parse key_credential ttl
          (KeyGrants m.table now id zone ctxs)
          m
          (authorize js parse stringify ttl now id zone ctxs m)
  unfolding authorize
  authorize-Outcome now id zone ctxs m h =
      let (current, kept, h') =
        get_cached_or_load-IsCurrent js parse key_credential ttl now id m h in
      let (entry, m') = get_cached_or_load js parse key_credential ttl now id m in
      let o =
        authorize_key-Outcome now id zone ctxs entry m' h'
          (subst (λ t. IsCurrent js parse key_credential ttl t id entry) (sym kept) current) in
      record {
        authorized_iff =
            (Outcome-iff js parse key_credential ttl
              (subst (λ t. KeyGrants t now id zone ctxs ↔ KeyGrants m.table now id zone ctxs)
                (sym kept) (λ g. g, λ g. g))
              o).authorized_iff;
        same_table = o.same_table ∙ kept;
        consistent = o.consistent;
      }
