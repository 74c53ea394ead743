-- ===== src/Credentials/Keys/Rotation.antt =====
-- What a rotation of an API key does.
use purge_api_gateway.Base.{
  Bool, true, false, not, ◌&&◌, ◌||◌, ◌++◌, [], lit, ℕ, ◌≡◌, ◌≢◌, refl, sym, ap, subst, ◌∙◌, Option,
  none, some, Str, str_eq, str_eq_iff, Bool-cases, Option-cases, inl, inr, if◌then◌else◌, arith,
}
use mathlib.Core.Option
use mathlib.Core.Option.{none-ne-some, some-injective}
use purge_api_gateway.Policy.Runtime.{Runtime}
use purge_api_gateway.Policy.Types.{PolicyDocument}
use purge_api_gateway.Policy.Evaluate.Laws.{IsShallow}
use purge_api_gateway.Credentials.Table.{find, find-id}
use purge_api_gateway.Credentials.Manager.{
  Manager, resolve_policy, is_expired, is_live, revoke_by_id,
}
use purge_api_gateway.Credentials.Manager.Revocation.{revoke_by_id-IsConsistent, find-revoking}
use purge_api_gateway.Credentials.Keys.{
  ApiKey, CreateKeyRequest, RotateOverrides, Result, ok, throws, key_credential, new_key,
  rotation_request, get_key, create_key, replace_key, rotate_key,
}
use purge_api_gateway.Credentials.Keys.Access.{IsConsistentKeys}
use purge_api_gateway.Credentials.Keys.Lifecycle.{RoundTrips, create_key-Created}
use purge_api_gateway.Credentials.Keys.Inheritance.{
  Expires, PassesOn, expiry-end_of, new_key-PassesOn,
}

module _ (js : Runtime) (parse : Str → Option PolicyDocument) (stringify : PolicyDocument → Str)
    (ttl : ℕ) where
  -- What a rotation that returns keys has done.
  pub record Rotated (fresh id : Str) (now : ℕ) (overrides : RotateOverrides)
      (m : Manager js ApiKey) (old' key : ApiKey) (m' : Manager js ApiKey) : Type 0 where
    pub old : ApiKey
    pub policy : PolicyDocument
    pub was_stored : find (λ k. k.id) id m.table ≡ some old
    pub was_live : old.revoked ≡ false
    pub was_in_time : is_expired old.expires_at now ≡ false
    pub parsed : parse old.policy ≡ some policy
    pub returned : old' ≡ record old { revoked = true }
    pub its_id : key.id ≡ fresh
    pub its_name : key.name ≡ Option.get_or overrides.name (old.name ++ lit " (rotated)")
    pub its_zone : key.zone_id ≡ old.zone_id
    pub its_creation : key.created_at ≡ now
    pub its_expiry : Expires now overrides.expires_in_days key.expires_at
    pub its_revocation : key.revoked ≡ false
    pub its_policy : key.policy ≡ stringify policy
    pub its_creator : key.created_by ≡ old.created_by
    pub its_limits : PassesOn old key
    pub its_token : key.upstream_token_id ≡ some (Option.get_or old.upstream_token_id [])
    pub retired : find (λ k. k.id) id m'.table ≡ some (record old { revoked = true })
    pub stored : find (λ k. k.id) fresh m'.table ≡ some key
    pub others :
        (k : Str) → k ≢ id → k ≢ fresh → find (λ r. r.id) k m'.table ≡ find (λ r. r.id) k m.table
    pub consistent : IsConsistentKeys js parse stringify ttl m'

  -- The table after `revokeById`, by key.
  find-revoke_by_id :
      (id k : Str) (m : Manager js ApiKey) (row : ApiKey)
      → find (λ r. r.id) k m.table ≡ some row
      → find (λ r. r.id) k (revoke_by_id js parse key_credential ttl id m).1.table
        ≡ some (if str_eq k id then record row { revoked = true } else row)
  unfolding revoke_by_id
  find-revoke_by_id id k m row e =
      find-revoking js parse key_credential ttl (is_live js parse key_credential ttl id) k m.table
      ∙ (ap (Option.map _) e
          ∙ ap some (mark row.revoked row refl (find-id (λ (r : ApiKey). r.id) k m.table row e)))
    where
      mark :
          (b : Bool) (row : ApiKey)
          → row.revoked ≡ b
          → row.id ≡ k
          → (if str_eq row.id id && not row.revoked then record row { revoked = true } else row)
            ≡ (if str_eq k id then record row { revoked = true } else row)
      mark b row live same = ground (arith, ap (λ i. str_eq i id) same)

  find-revoke_by_id-none :
      (id k : Str) (m : Manager js ApiKey)
      → find (λ r. r.id) k m.table ≡ none
      → find (λ r. r.id) k (revoke_by_id js parse key_credential ttl id m).1.table ≡ none
  unfolding revoke_by_id
  find-revoke_by_id-none id k m e =
      find-revoking js parse key_credential ttl (is_live js parse key_credential ttl id) k m.table
      ∙ ap (Option.map _) e

  -- The parts of a rotation that returns keys.
  record Parts (fresh id : Str) (now : ℕ) (overrides : RotateOverrides) (m : Manager js ApiKey)
      (old' key : ApiKey) (m' : Manager js ApiKey) : Type 0 where
    old : ApiKey
    policy : PolicyDocument
    created : Manager js ApiKey
    was_stored : find (λ k. k.id) id m.table ≡ some old
    was_live : old.revoked ≡ false
    was_in_time : is_expired old.expires_at now ≡ false
    parsed : parse old.policy ≡ some policy
    creation :
        create_key js parse stringify ttl fresh now (rotation_request old policy overrides) m
        ≡ ok (key, created)
    returned : old' ≡ record old { revoked = true }
    revocation : m' ≡ (revoke_by_id js parse key_credential ttl old.id created).1

  replace_key-eq-ok :
      (fresh : Str) (now : ℕ) (old : ApiKey) (req : CreateKeyRequest) (m : Manager js ApiKey)
      (old' key : ApiKey) (m' : Manager js ApiKey)
      → replace_key js parse stringify ttl fresh now old req m ≡ ok (some (old', key), m')
      → (created : Manager js ApiKey) × (create_key js parse stringify ttl fresh now req m
          ≡ ok (key, created))
        × (old' ≡ record old { revoked = true })
        × (m' ≡ (revoke_by_id js parse key_credential ttl old.id created).1)
  unfolding replace_key
  replace_key-eq-ok fresh now old req m old' key m' e =
      go (create_key js parse stringify ttl fresh now req m) refl
    where
      go :
          (r : Result (ApiKey × Manager js ApiKey))
          → create_key js parse stringify ttl fresh now req m ≡ r
          → (created : Manager js ApiKey) × (r ≡ ok (key, created))
            × (old' ≡ record old { revoked = true })
            × (m' ≡ (revoke_by_id js parse key_credential ttl old.id created).1)
      go throws c = absurd (ground arith)
      go (ok (k, created)) c = (created, ground arith, ground arith, ground arith)

  rotate_key-Parts :
      (fresh id : Str) (now : ℕ) (overrides : RotateOverrides) (m : Manager js ApiKey)
      (old' key : ApiKey) (m' : Manager js ApiKey)
      → rotate_key js parse stringify ttl fresh id now overrides m ≡ ok (some (old', key), m')
      → Parts fresh id now overrides m old' key m'
  unfolding rotate_key get_key
  rotate_key-Parts fresh id now overrides m old' key m' e =
      elim (Option-cases (find (λ k. k.id) id m.table)) [
        | inl missing ↦ absurd (ground arith)
        | inr (old, found) ↦ elim (Bool-cases (old.revoked || is_expired old.expires_at now)) [
          | inl spent ↦ absurd (ground arith)
          | inr usable ↦ elim (Option-cases (parse old.policy)) [
            | inl corrupt ↦ absurd (ground arith)
            | inr (policy, parsed) ↦
                let (created, creation, returned, revocation) =
                  replace_key-eq-ok fresh now old (rotation_request old policy overrides) m old' key
                    m' (ground arith) in
                record {
                  old = old;
                  policy = policy;
                  created = created;
                  was_stored = found;
                  was_live = ground arith;
                  was_in_time = ground arith;
                  parsed = parsed;
                  creation = creation;
                  returned = returned;
                  revocation = revocation;
                }
          ]
        ]
      ]

  -- On a consistent manager, where what parses as a policy comes back from its own text, a rotation
  -- that returns keys found the old key live and in time; the table then holds the old key as revoked
  -- and, under the fresh id, the new key that is returned: live, made now, with the old key's policy,
  -- zone, creator, upstream token, rates and, where it has a rate, bucket sizes, the name and the days
  -- of the overrides, and without them the old name marked as rotated and no expiry; every other key
  -- is untouched, and the manager is consistent.
  pub rotate_key-Rotated :
      (fresh id : Str) (now : ℕ) (overrides : RotateOverrides) (m : Manager js ApiKey)
      (old' key : ApiKey) (m' : Manager js ApiKey)
      → IsConsistentKeys js parse stringify ttl m
      → ((text : Str) (policy : PolicyDocument)
          → parse text ≡ some policy
          → RoundTrips js parse stringify ttl policy)
      → rotate_key js parse stringify ttl fresh id now overrides m ≡ ok (some (old', key), m')
      → Rotated fresh id now overrides m old' key m'
  unfolding resolve_policy new_key rotation_request
  rotate_key-Rotated fresh id now overrides m old' key m' h trips e =
      let p = rotate_key-Parts fresh id now overrides m old' key m' e in
      let same_id : p.old.id ≡ id = find-id (λ (k : ApiKey). k.id) id m.table p.old p.was_stored in
      let resolved : resolve_policy js parse key_credential ttl p.old.policy ≡ p.policy =
        rw (p.parsed, resolve_policy) in
      let made =
        create_key-Created js parse stringify ttl fresh now
          (rotation_request p.old p.policy overrides) m key p.created h
          (trip p.old p.policy p.parsed)
          (shallow p.old p.policy (subst IsShallow resolved (h.shallow id p.old p.was_stored)))
          p.creation in
      let differs : id ≢ fresh = λ same.
        none-ne-some _
          (sym made.is_new ∙ (ap (λ i. find (λ k. k.id) i m.table) (sym same) ∙ p.was_stored)) in
      let last : m' ≡ (revoke_by_id js parse key_credential ttl id p.created).1 =
        p.revocation ∙ ap (λ i. (revoke_by_id js parse key_credential ttl i p.created).1) same_id in
      record {
        old = p.old;
        policy = p.policy;
        was_stored = p.was_stored;
        was_live = p.was_live;
        was_in_time = p.was_in_time;
        parsed = p.parsed;
        returned = p.returned;
        its_id = ap (λ (k : ApiKey). k.id) made.row;
        its_name = ap (λ (k : ApiKey). k.name) made.row;
        its_zone = ap (λ (k : ApiKey). k.zone_id) made.row;
        its_creation = ap (λ (k : ApiKey). k.created_at) made.row;
        its_expiry = ap (λ (k : ApiKey). k.expires_at) made.row ∙ expiry-end_of now _;
        its_revocation = ap (λ (k : ApiKey). k.revoked) made.row;
        its_policy = ap (λ (k : ApiKey). k.policy) made.row;
        its_creator = ap (λ (k : ApiKey). k.created_by) made.row;
        its_limits =
            subst (PassesOn p.old) (sym made.row)
              (new_key-PassesOn stringify fresh now p.old p.policy overrides);
        its_token = ap (λ (k : ApiKey). k.upstream_token_id) made.row;
        retired =
            ap (λ (n : Manager js ApiKey). find (λ k. k.id) id n.table) last
            ∙ (find-revoke_by_id id id p.created p.old (made.others id differs ∙ p.was_stored)
                ∙ ap (λ b. some (if b then record (p.old) { revoked = true } else p.old))
                    ((str_eq_iff id id).1 refl));
        stored =
            ap (λ (n : Manager js ApiKey). find (λ k. k.id) fresh n.table) last
            ∙ (find-revoke_by_id id fresh p.created key made.stored
                ∙ ap (λ b. some (if b then record key { revoked = true } else key))
                    (unequal fresh id (λ same. differs (sym same))));
        others = λ k ne_id ne_fresh.
            ap (λ (n : Manager js ApiKey). find (λ r. r.id) k n.table) last
            ∙ (untouched k p.created ne_id ∙ made.others k ne_fresh);
        consistent =
            subst (IsConsistentKeys js parse stringify ttl) (sym last)
              (revoke_by_id-IsConsistent js parse key_credential ttl id p.created made.consistent);
      }
    where
      trip :
          (old : ApiKey) (policy : PolicyDocument)
          → parse old.policy ≡ some policy
          → RoundTrips js parse stringify ttl (rotation_request old policy overrides).policy
      trip old policy parsed = unfold rotation_request in trips old.policy policy parsed

      shallow :
          (old : ApiKey) (policy : PolicyDocument)
          → IsShallow policy
          → IsShallow (rotation_request old policy overrides).policy
      shallow old policy s = unfold rotation_request in s

      unequal : (a b : Str) → a ≢ b → str_eq a b ≡ false
      unequal a b ne = ground (arith, str_eq_iff a b)

      untouched :
          (k : Str) (n : Manager js ApiKey)
          → k ≢ id
          → find (λ r. r.id) k (revoke_by_id js parse key_credential ttl id n).1.table
            ≡ find (λ r. r.id) k n.table
      untouched k n ne = elim (Option-cases (find (λ (r : ApiKey). r.id) k n.table)) [
        | inl missing ↦ find-revoke_by_id-none id k n missing ∙ sym missing
        | inr (row, found) ↦
            find-revoke_by_id id k n row found
            ∙ (ap (λ b. some (if b then record row { revoked = true } else row)) (unequal k id ne)
                ∙ sym found)
      ]
