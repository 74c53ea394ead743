-- ===== src/Credentials/Keys/Lifecycle.antt =====
-- What the creation of an API key does.
use purge_api_gateway.Base.{
  [], ◌∷◌, ◌++◌, ℕ, ◌≡◌, ◌≢◌, refl, sym, subst, Option, none, some, Str, Option-cases, inl, inr,
  arith,
}
use purge_api_gateway.Policy.Runtime.{Runtime}
use purge_api_gateway.Policy.Types.{PolicyDocument}
use purge_api_gateway.Policy.Evaluate.Laws.{IsShallow}
use purge_api_gateway.Credentials.Table.{find}
use purge_api_gateway.Credentials.Manager.{Manager, resolve_policy}
use purge_api_gateway.Credentials.Manager.Insertion.{find_others, find_fresh, append-IsConsistent}
use purge_api_gateway.Credentials.Keys.{
  ApiKey, CreateKeyRequest, ok, key_credential, new_key, inserted_row, get_key, create_key,
}
use purge_api_gateway.Credentials.Keys.Access.{IsConsistentKeys}

module _ (js : Runtime) (parse : Str → Option PolicyDocument) (stringify : PolicyDocument → Str)
    (ttl : ℕ) where
  -- A policy comes back from the table as it was put in.
  abbrev pub RoundTrips : PolicyDocument → Type 0
  RoundTrips policy = parse (stringify policy) ≡ some policy

  resolve_stringify :
      (policy : PolicyDocument)
      → RoundTrips policy
      → resolve_policy js parse key_credential ttl (stringify policy) ≡ policy
  unfolding resolve_policy
  resolve_stringify policy h = rw (h, resolve_policy)

  -- What a successful creation does.
  pub record Created (fresh : Str) (now : ℕ) (req : CreateKeyRequest) (m : Manager js ApiKey)
      (key : ApiKey) (m' : Manager js ApiKey) : Type 0 where
    pub is_new : find (λ k. k.id) fresh m.table ≡ none
    pub row : key ≡ new_key stringify fresh now req
    pub table : m'.table ≡ m.table ++ key ∷ []
    pub stored : find (λ k. k.id) fresh m'.table ≡ some key
    pub others :
        (id : Str) → id ≢ fresh → find (λ k. k.id) id m'.table ≡ find (λ k. k.id) id m.table
    pub consistent : IsConsistentKeys js parse stringify ttl m'

  -- A creation that does not throw stores the key that it returns, under an id that was free, and
  -- changes no other key; if the policy round trips through its text and is not too deep, the
  -- manager stays consistent.
  pub create_key-Created :
      (fresh : Str) (now : ℕ) (req : CreateKeyRequest) (m : Manager js ApiKey) (key : ApiKey)
      (m' : Manager js ApiKey)
      → IsConsistentKeys js parse stringify ttl m
      → RoundTrips req.policy
      → IsShallow req.policy
      → create_key js parse stringify ttl fresh now req m ≡ ok (key, m')
      → Created fresh now req m key m'
  unfolding create_key get_key new_key inserted_row
  create_key-Created fresh now req m key m' h trip s e =
      elim (Option-cases (find (λ k. k.id) fresh m.table)) [
        | inr (taken, found) ↦ absurd (clash found e)
        | inl free ↦
            let (same_key, same_m) = fits free e in
            subst (λ (p : ApiKey × Manager js ApiKey). Created fresh now req m p.0 p.1)
              (λ i. (same_key i, same_m i))
              (record {
                is_new = free;
                row = refl;
                table = refl;
                stored =
                    find_fresh (λ (k : ApiKey). k.id) fresh m.table
                      (new_key stringify fresh now req) refl free;
                others = λ id ne.
                    find_others (λ (k : ApiKey). k.id) fresh id m.table
                      (new_key stringify fresh now req) refl ne;
                consistent =
                    append-IsConsistent js parse key_credential ttl m
                      (new_key stringify fresh now req) h free
                      (subst IsShallow (sym (resolve_stringify req.policy trip)) s);
              })
      ]
    where
      clash :
          {taken : ApiKey}
          → find (λ k. k.id) fresh m.table ≡ some taken
          → create_key js parse stringify ttl fresh now req m ≡ ok (key, m')
          → ⊥
      clash found e = ground arith

      fits :
          find (λ k. k.id) fresh m.table ≡ none
          → create_key js parse stringify ttl fresh now req m ≡ ok (key, m')
          → (new_key stringify fresh now req ≡ key)
            × (record m { table = m.table ++ inserted_row stringify fresh now req ∷ [] } ≡ m')
      fits free e = (ground arith, ground arith)
