-- ===== src/Credentials/Manager/Authorize.antt =====
-- What `authorizeWithContexts` grants.
use purge_api_gateway.Base.{
  List, [], ◌∷◌, true, false, ℕ, ◌≡◌, refl, sym, ap, subst, ◌∙◌, ◌↔◌, Option, none, some, Str, All,
  Bool-cases, inl, inr,
}
use mathlib.Core.Bool.{false≢true}
use mathlib.Core.Option.{some-injective, none-ne-some}
use purge_api_gateway.Policy.Runtime.{Runtime}
use purge_api_gateway.Policy.Types.{PolicyDocument, RequestContext}
use purge_api_gateway.Policy.Evaluate.Laws.{IsShallow, Permits, evaluate_policy-Decides}
use purge_api_gateway.Credentials.Table.{find}
use purge_api_gateway.Credentials.Types.{Credential, CachedEntry, AuthResult}
use purge_api_gateway.Credentials.Manager.{
  Manager, resolve_policy, is_expired, policy_test, denied_contexts, authorize_by_policy,
  authorize_entry, authorize_with_contexts, get_cached_or_load, refusal,
}
use purge_api_gateway.Credentials.Manager.Cache.{
  IsConsistent, IsCurrent, get_cached_or_load-IsCurrent,
}

module _ (js : Runtime) (parse : Str → Option PolicyDocument) {T : Type 0} (c : Credential T)
    (ttl : ℕ) where
  -- A test of a policy answers whether it permits the requests, and changes the regular
  -- expressions alone.
  pub policy_test_lem :
      (policy : PolicyDocument) (ctxs : List RequestContext) (m : Manager js T)
      → IsShallow policy
      → IsConsistent js parse c ttl m
      → (((policy_test js parse c ttl policy ctxs m).0 ≡ true)
          ↔ All (λ ctx. Permits js ctx policy) ctxs)
        × ((policy_test js parse c ttl policy ctxs m).1.table ≡ m.table)
        × IsConsistent js parse c ttl (policy_test js parse c ttl policy ctxs m).1
  unfolding policy_test
  policy_test_lem policy ctxs m s h =
      let (answer, kept) = (evaluate_policy-Decides js policy ctxs s).run m.regexes h.regexes in
      (answer, refl, record { cached = h.cached; regexes = kept; shallow = h.shallow })

  denied_contexts_lem :
      (policy : PolicyDocument) (format : RequestContext → Str) (ctxs : List RequestContext)
      (m : Manager js T)
      → IsShallow policy
      → IsConsistent js parse c ttl m
      → ((denied_contexts js parse c ttl policy format ctxs m).1.table ≡ m.table)
        × IsConsistent js parse c ttl (denied_contexts js parse c ttl policy format ctxs m).1
  unfolding denied_contexts
  denied_contexts_lem policy format [] m s h = (refl, h)
  denied_contexts_lem policy format (ctx ∷ ctxs) m s h =
      let (_, same, h') = policy_test_lem policy (ctx ∷ []) m s h in
      let (same', h'') = denied_contexts_lem policy format ctxs _ s h' in (same' ∙ same, h'')

  -- The outcome of an authorization: whether it is granted, and that the table is left alone.
  pub record Outcome (granted : Type 0) (m : Manager js T) (r : AuthResult × Manager js T)
      : Type 0 where
    pub authorized_iff : (r.0.authorized ≡ true) ↔ granted
    pub same_table : r.1.table ≡ m.table
    pub consistent : IsConsistent js parse c ttl r.1

  pub authorize_by_policy-Outcome :
      (policy : PolicyDocument) (format : RequestContext → Str) (ctxs : List RequestContext)
      (granted : AuthResult) (m : Manager js T)
      → granted.authorized ≡ true
      → IsShallow policy
      → IsConsistent js parse c ttl m
      → Outcome
          (All (λ ctx. Permits js ctx policy) ctxs)
          m
          (authorize_by_policy js parse c ttl policy format ctxs granted m)
  unfolding authorize_by_policy
  authorize_by_policy-Outcome policy format ctxs granted m g s h =
      let (answer, same, h') = policy_test_lem policy ctxs m s h in
      let (same', h'') = denied_contexts_lem policy format ctxs _ s h' in
      elim (Bool-cases (policy_test js parse c ttl policy ctxs m).0) [
        | inl permitted ↦
            rw (permitted, authorize_by_policy)
              (record {
                authorized_iff = (λ _. answer.0 permitted, λ _. g);
                same_table = same;
                consistent = h';
              })
        | inr refused ↦
            rw (refused, authorize_by_policy)
              (record {
                authorized_iff = (
                  λ e. absurd (false≢true e),
                  λ p. absurd (false≢true (sym refused ∙ answer.1 p)),
                );
                same_table = same' ∙ same;
                consistent = h'';
              })
      ]

  -- What a credential must be to be granted a list of requests: stored, neither revoked nor expired,
  -- with a policy that permits each of them.
  pub record Grants (table : List T) (now : ℕ) (id : Str) (ctxs : List RequestContext)
      : Type 0 where
    pub row : T
    pub stored : find c.id id table ≡ some row
    pub live : c.is_revoked row ≡ false
    pub in_time : is_expired (c.expires_at row) now ≡ false
    pub permitted : All (λ ctx. Permits js ctx (resolve_policy js parse c ttl (c.policy row))) ctxs

  pub refusal-Outcome :
      {G : Type 0} (message : Str) (m : Manager js T)
      → ¬ G
      → IsConsistent js parse c ttl m
      → Outcome G m (refusal message, m)
  refusal-Outcome message m n h = record {
    authorized_iff = (λ e. absurd (false≢true e), λ g. absurd (n g));
    same_table = refl;
    consistent = h;
  }

  pub Outcome-iff :
      {G H : Type 0} {m : Manager js T} {r : AuthResult × Manager js T}
      → G ↔ H
      → Outcome G m r
      → Outcome H m r
  Outcome-iff e o = record {
    authorized_iff = (λ a. e.0 (o.authorized_iff.0 a), λ g. o.authorized_iff.1 (e.1 g));
    same_table = o.same_table;
    consistent = o.consistent;
  }

  -- The rows that two lookups of one key find are one.
  pub same_row :
      {a b : T} (table : List T) (id : Str)
      → find c.id id table ≡ some a
      → find c.id id table ≡ some b
      → a ≡ b
  same_row table id p q = some-injective _ _ (sym p ∙ q)

  authorize_entry-Outcome :
      (now : ℕ) (id : Str) (format : RequestContext → Str) (ctxs : List RequestContext)
      (entry : Option (CachedEntry T)) (m : Manager js T)
      → IsConsistent js parse c ttl m
      → IsCurrent js parse c ttl m.table id entry
      → Outcome
          (Grants m.table now id ctxs)
          m
          (authorize_entry js parse c ttl now format ctxs entry m)
  unfolding authorize_entry
  authorize_entry-Outcome now id format ctxs none m h missing =
      refusal-Outcome c.invalid_message m (λ g. none-ne-some _ (sym missing ∙ g.stored)) h
  authorize_entry-Outcome now id format ctxs (some entry) m h (found, resolved) =
      elim (Bool-cases (c.is_revoked entry.entity)) [
        | inl bad ↦
            rw (bad, authorize_entry)
              (refusal-Outcome c.revoked_message m
                (λ g.
                  false≢true
                    (sym g.live ∙ (ap c.is_revoked (same_row m.table id g.stored found) ∙ bad)))
                h)
        | inr live ↦ elim (Bool-cases (is_expired (c.expires_at entry.entity) now)) [
          | inl bad ↦
              rw (live, authorize_entry, bad)
                (refusal-Outcome c.expired_message m
                  (λ g. false≢true (
                    sym g.in_time
                    ∙ (ap (λ r. is_expired (c.expires_at r) now)
                          (same_row m.table id g.stored found)
                        ∙ bad)))
                  h)
          | inr in_time ↦
              rw (live, authorize_entry, in_time)
                (Outcome-iff
                  (
                    λ p. record {
                      row = entry.entity;
                      stored = found;
                      live = live;
                      in_time = in_time;
                      permitted = subst (λ d. All (λ ctx. Permits js ctx d) ctxs) resolved p;
                    },
                    λ g.
                        subst (λ d. All (λ ctx. Permits js ctx d) ctxs)
                          (ap (λ r. resolve_policy js parse c ttl (c.policy r))
                              (same_row m.table id g.stored found)
                            ∙ sym resolved)
                          g.permitted,
                  )
                  (authorize_by_policy-Outcome entry.resolved_policy format ctxs _ m refl
                    (subst IsShallow (sym resolved) (h.shallow id entry.entity found)) h))
        ]
      ]

  -- On a consistent manager `authorizeWithContexts` authorizes exactly the credentials that are in
  -- the table at the time of the call, neither revoked nor expired, with a policy that permits every
  -- request; it leaves the table alone and the manager consistent.
  pub authorize_with_contexts-Outcome :
      (now : ℕ) (id : Str) (ctxs : List RequestContext) (format : RequestContext → Str)
      (m : Manager js T)
      → IsConsistent js parse c ttl m
      → Outcome
          (Grants m.table now id ctxs)
          m
          (authorize_with_contexts js parse c ttl now id ctxs format m)
  unfolding authorize_with_contexts
  authorize_with_contexts-Outcome now id ctxs format m h =
      let (current, same, h') = get_cached_or_load-IsCurrent js parse c ttl now id m h in
      let (entry, m') = get_cached_or_load js parse c ttl now id m in
      let o =
        authorize_entry-Outcome now id format ctxs entry m' h'
          (subst (λ t. IsCurrent js parse c ttl t id entry) (sym same) current) in
      record {
        authorized_iff =
            (Outcome-iff
              (subst (λ t. Grants t now id ctxs ↔ Grants m.table now id ctxs) (sym same)
                (λ g. g, λ g. g))
              o).authorized_iff;
        same_table = o.same_table ∙ same;
        consistent = o.consistent;
      }
