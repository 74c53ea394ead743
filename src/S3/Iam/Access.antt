-- ===== src/S3/Iam/Access.antt =====
-- What `S3CredentialManager.authorize` of src/s3/iam.ts grants.
use purge_api_gateway.Base.{
  List, [], ◌∷◌, Bool, true, false, ℕ, ◌≡◌, ◌∙◌, refl, sym, Option, none, some, Str, if◌then◌else◌,
}
use purge_api_gateway.Policy.Runtime.{Runtime}
use purge_api_gateway.Policy.Types.{PolicyDocument, RequestContext}
use purge_api_gateway.Credentials.Types.{AuthResult}
use purge_api_gateway.Credentials.Manager.{Manager, get_cached_or_load, authorize_with_contexts}
use purge_api_gateway.Credentials.Manager.Cache.{IsConsistent, get_cached_or_load-IsCurrent}
use purge_api_gateway.Credentials.Manager.Authorize.{
  Outcome, Grants, authorize_with_contexts-Outcome,
}
use purge_api_gateway.S3.Iam.{
  S3Credential, s3_credential, attach_token, token_of, action_on_resource, authorize_credential,
}

-- The upstream token that is attached makes no difference to the answer.
attach_token_same :
    (token : Option Str) (r : AuthResult) → (attach_token token r).authorized ≡ r.authorized
attach_token_same none r = refl
attach_token_same (some []) r = refl
attach_token_same (some (c ∷ s)) r = refl

module _ (js : Runtime) (parse : Str → Option PolicyDocument) (stringify : PolicyDocument → Str)
    (ttl : ℕ) where
  -- On a consistent manager `authorize` grants exactly the credentials that are stored at the time
  -- of the call, neither revoked nor expired, with a policy that permits every request; the table is
  -- left alone and the manager stays consistent.
  pub authorize_credential-Outcome :
      (now : ℕ) (id : Str) (ctxs : List RequestContext) (m : Manager js S3Credential)
      → IsConsistent js parse s3_credential ttl m
      → Outcome js parse s3_credential ttl
          (Grants js parse s3_credential ttl m.table now id ctxs)
          m
          (authorize_credential js parse stringify ttl now id ctxs m)
  unfolding authorize_credential
  authorize_credential-Outcome now id ctxs m h =
      let o =
        authorize_with_contexts-Outcome js parse s3_credential ttl now id ctxs action_on_resource m
          h in
      let (result, m') =
        authorize_with_contexts js parse s3_credential ttl now id ctxs action_on_resource m in
      let (_, kept, h') =
        get_cached_or_load-IsCurrent js parse s3_credential ttl now id m' o.consistent in
      let (entry, m'') = get_cached_or_load js parse s3_credential ttl now id m' in
      choose result.authorized
        (record {
          authorized_iff = (
            λ e. o.authorized_iff.0 (sym (attach_token_same (token_of entry) result) ∙ e),
            λ g. attach_token_same (token_of entry) result ∙ o.authorized_iff.1 g,
          );
          same_table = kept ∙ o.same_table;
          consistent = h';
        })
        o
    where
      choose :
          {G : Type 0} {r s : AuthResult × Manager js S3Credential} (b : Bool)
          → Outcome js parse s3_credential ttl G m r
          → Outcome js parse s3_credential ttl G m s
          → Outcome js parse s3_credential ttl G m (if b then r else s)
      choose true p q = p
      choose false p q = q
