-- ===== src/Credentials/Keys/Updates.antt =====
-- What an update of an API key may change.
use purge_api_gateway.Base.{
  Bool, true, false, ℕ, ◌≡◌, ◌≢◌, refl, sym, ap, subst, ◌∙◌, Option, some, Str, str_eq, str_eq_iff,
  lookup-delete-some, Bool-cases, Option-cases, inl, inr, if◌then◌else◌, arith,
}
use mathlib.Core.Option
use mathlib.Core.Option.{some-injective}
use purge_api_gateway.Policy.Runtime.{Runtime}
use purge_api_gateway.Policy.Types.{PolicyDocument}
use purge_api_gateway.Policy.Evaluate.Laws.{IsShallow}
use purge_api_gateway.Credentials.Table.{find, find-id, find-update_where}
use purge_api_gateway.Credentials.Manager.{Manager, resolve_policy}
use purge_api_gateway.Credentials.Keys.{
  ApiKey, KeyUpdates, key_credential, get_key, apply_updates, has_update, write_updates, update_key,
}
use purge_api_gateway.Credentials.Keys.Access.{IsConsistentKeys}

module _ (js : Runtime) (parse : Str → Option PolicyDocument) (stringify : PolicyDocument → Str)
    (ttl : ℕ) where
  pub find-write_updates :
      (id k : Str) (u : KeyUpdates) (m : Manager js ApiKey)
      → find (λ r. r.id) k (write_updates js parse stringify ttl id u m).table
        ≡ Option.map
            (λ row. if str_eq row.id id then apply_updates u row else row)
            (find (λ r. r.id) k m.table)
  unfolding write_updates apply_updates
  find-write_updates id k u m =
      find-update_where (λ (r : ApiKey). r.id) (λ r. str_eq r.id id) (apply_updates u) (λ r. refl) k
        m.table

  write_updates-IsConsistent :
      (id : Str) (u : KeyUpdates) (m : Manager js ApiKey)
      → IsConsistentKeys js parse stringify ttl m
      → IsConsistentKeys js parse stringify ttl (write_updates js parse stringify ttl id u m)
  unfolding write_updates apply_updates
  write_updates-IsConsistent id u m h = record {
    cached = λ k entry e.
        let (hit, other) = lookup-delete-some id k entry m.cache e in
        let (found, resolved) = h.cached k entry hit in
        let same = find-id (λ (r : ApiKey). r.id) k m.table entry.entity found in
        (
          find-write_updates id k u m
              ∙ (ap (Option.map _) found
                  ∙ ap (λ b. some (if b then apply_updates u entry.entity else entry.entity))
                      (unlike entry.entity.id k other same)),
          resolved,
        );
    regexes = h.regexes;
    shallow = λ k row e.
        let (old, found, same) =
          (Option.map-eq-some_iff _ _).0 (sym (find-write_updates id k u m) ∙ e) in
        subst (λ d. IsShallow (resolve_policy js parse key_credential ttl d))
          (keeps_policy (str_eq old.id id) old ∙ ap (λ (r : ApiKey). r.policy) same)
          (h.shallow k old found);
  }
    where
      unlike : (i k : Str) → str_eq id k ≡ false → i ≡ k → str_eq i id ≡ false
      unlike i k other same = ground (arith, str_eq_iff i id, str_eq_iff id k)

      keeps_policy :
          (b : Bool) (old : ApiKey) → old.policy ≡ (if b then apply_updates u old else old).policy
      keeps_policy true old = refl
      keeps_policy false old = refl

  -- What an update that returns a key has done.
  pub record Updated (id : Str) (m : Manager js ApiKey) (key : ApiKey) (m' : Manager js ApiKey)
      : Type 0 where
    pub old : ApiKey
    pub was_stored : find (λ k. k.id) id m.table ≡ some old
    pub was_live : old.revoked ≡ false
    pub stored : find (λ k. k.id) id m'.table ≡ some key
    pub same_zone : key.zone_id ≡ old.zone_id
    pub same_policy : key.policy ≡ old.policy
    pub still_live : key.revoked ≡ false
    pub same_creation : (key.created_at ≡ old.created_at) × (key.created_by ≡ old.created_by)
    pub same_token : key.upstream_token_id ≡ old.upstream_token_id
    pub others : (k : Str) → k ≢ id → find (λ r. r.id) k m'.table ≡ find (λ r. r.id) k m.table
    pub consistent : IsConsistentKeys js parse stringify ttl m'

  updated_row :
      (id : Str) (u : KeyUpdates) (m : Manager js ApiKey) (old : ApiKey)
      → find (λ r. r.id) id m.table ≡ some old
      → find (λ r. r.id) id (write_updates js parse stringify ttl id u m).table
        ≡ some (apply_updates u old)
  updated_row id u m old e =
      find-write_updates id id u m
      ∙ (ap (Option.map _) e
          ∙ ap (λ b. some (if b then apply_updates u old else old))
              ((str_eq_iff old.id id).1 (find-id (λ (r : ApiKey). r.id) id m.table old e)))

  other_row :
      (id k : Str) (u : KeyUpdates) (m : Manager js ApiKey)
      → k ≢ id
      → find (λ r. r.id) k (write_updates js parse stringify ttl id u m).table
        ≡ find (λ r. r.id) k m.table
  other_row id k u m ne = elim (Option-cases (find (λ (r : ApiKey). r.id) k m.table)) [
    | inl missing ↦ find-write_updates id k u m ∙ (ap (Option.map _) missing ∙ sym missing)
    | inr (row, found) ↦
        let same = find-id (λ (r : ApiKey). r.id) k m.table row found in
        find-write_updates id k u m
        ∙ (ap (Option.map _) found
            ∙ (ap (λ b. some (if b then apply_updates u row else row))
                  (unequal row.id (λ e. ne (sym same ∙ e)))
                ∙ sym found))
  ]
    where
      unequal : (i : Str) → i ≢ id → str_eq i id ≡ false
      unequal i ne' = ground (arith, str_eq_iff i id)

  -- An update that returns a key found it live; it changes no more than the name, the expiry and the
  -- four rate limits of that key, and no other key, and the manager stays consistent.
  pub update_key-Updated :
      (id : Str) (u : KeyUpdates) (m : Manager js ApiKey) (key : ApiKey) (m' : Manager js ApiKey)
      → IsConsistentKeys js parse stringify ttl m
      → update_key js parse stringify ttl id u m ≡ (some key, m')
      → Updated id m key m'
  unfolding update_key get_key apply_updates
  update_key-Updated id u m key m' h e =
      elim (Option-cases (find (λ (r : ApiKey). r.id) id m.table)) [
        | inl missing ↦ absurd (ground arith)
        | inr (old, found) ↦ elim (Bool-cases old.revoked) [
          | inl spent ↦ absurd (ground arith)
          | inr live ↦ elim (Bool-cases (has_update u)) [
            | inl some_update ↦
                let row = updated_row id u m old found in
                let key_eq : apply_updates u old ≡ key = ground arith in
                let m_eq : write_updates js parse stringify ttl id u m ≡ m' = ground arith in
                record {
                  old = old;
                  was_stored = found;
                  was_live = live;
                  stored =
                      ap (λ (n : Manager js ApiKey). find (λ (r : ApiKey). r.id) id n.table)
                        (sym m_eq)
                      ∙ (row ∙ ap some key_eq);
                  same_zone = ap (λ (k : ApiKey). k.zone_id) (sym key_eq);
                  same_policy = ap (λ (k : ApiKey). k.policy) (sym key_eq);
                  still_live = ap (λ (k : ApiKey). k.revoked) (sym key_eq) ∙ live;
                  same_creation = (
                    ap (λ (k : ApiKey). k.created_at) (sym key_eq),
                    ap (λ (k : ApiKey). k.created_by) (sym key_eq),
                  );
                  same_token = ap (λ (k : ApiKey). k.upstream_token_id) (sym key_eq);
                  others = λ k ne.
                      ap (λ (n : Manager js ApiKey). find (λ (r : ApiKey). r.id) k n.table)
                        (sym m_eq)
                      ∙ other_row id k u m ne;
                  consistent =
                      subst (IsConsistentKeys js parse stringify ttl) m_eq
                        (write_updates-IsConsistent id u m h);
                }
            | inr no_update ↦
                let key_eq : old ≡ key = ground arith in
                let m_eq : m ≡ m' = ground arith in
                record {
                  old = old;
                  was_stored = found;
                  was_live = live;
                  stored =
                      ap (λ (n : Manager js ApiKey). find (λ (r : ApiKey). r.id) id n.table)
                        (sym m_eq)
                      ∙ (found ∙ ap some key_eq);
                  same_zone = ap (λ (k : ApiKey). k.zone_id) (sym key_eq);
                  same_policy = ap (λ (k : ApiKey). k.policy) (sym key_eq);
                  still_live = ap (λ (k : ApiKey). k.revoked) (sym key_eq) ∙ live;
                  same_creation = (
                    ap (λ (k : ApiKey). k.created_at) (sym key_eq),
                    ap (λ (k : ApiKey). k.created_by) (sym key_eq),
                  );
                  same_token = ap (λ (k : ApiKey). k.upstream_token_id) (sym key_eq);
                  others = λ k ne.
                      ap (λ (n : Manager js ApiKey). find (λ (r : ApiKey). r.id) k n.table)
                        (sym m_eq);
                  consistent = subst (IsConsistentKeys js parse stringify ttl) m_eq h;
                }
          ]
        ]
      ]
