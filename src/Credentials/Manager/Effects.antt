-- ===== src/Credentials/Manager/Effects.antt =====
-- What revocation, deletion and the bulk operations do to later authorizations.
use purge_api_gateway.Base.{
  List, Bool, true, false, not, ◌&&◌, ℕ, ◌≡◌, sym, ◌∙◌, Option, none, some, Str, str_eq, str_eq_iff,
  lookup, Bool-cases, inl, inr, arith, if◌then◌else◌,
}
use mathlib.Core.Bool.{false≢true}
use mathlib.Core.Option
use mathlib.Core.Option.{some-injective, none-ne-some}
use purge_api_gateway.Policy.Runtime.{Runtime}
use purge_api_gateway.Policy.Types.{PolicyDocument, RequestContext}
use purge_api_gateway.Credentials.Table.{
  find, count_where, find-id, find-delete_where, update_where-none,
}
use purge_api_gateway.Credentials.Types.{Credential}
use purge_api_gateway.Credentials.Manager.{
  Manager, is_live, has_run_out, any_row, revoke_by_id, delete_by_id, revoke_expired,
  authorize_with_contexts,
}
use purge_api_gateway.Credentials.Manager.Cache.{IsConsistent}
use purge_api_gateway.Credentials.Manager.Authorize.{authorize_with_contexts-Outcome}
use purge_api_gateway.Credentials.Manager.Revocation.{
  find-revoking, revoking-shallow, IsShallowTable, revoke_by_id-IsConsistent,
  delete_by_id-IsConsistent,
}

module _ (js : Runtime) (parse : Str → Option PolicyDocument) {T : Type 0} (c : Credential T)
    (ttl : ℕ) where
  -- `revokeExpired` keeps the manager consistent: it clears the cache if it changes a row.
  pub revoke_expired-IsConsistent :
      (now : ℕ) (m : Manager js T)
      → IsConsistent js parse c ttl m
      → IsConsistent js parse c ttl (revoke_expired js parse c ttl now m).1
  unfolding revoke_expired IsShallowTable lookup
  revoke_expired-IsConsistent now m h =
      let due : T → Bool = λ row. not (c.is_revoked row) && has_run_out (c.expires_at row) now in
      record {
        cached = elim (Bool-cases (any_row (count_where due m.table))) [
          | inl cleared ↦ rw cleared (λ k entry e. absurd (none-ne-some _ e))
          | inr none_due ↦
              rw (none_due, update_where-none due c.mark_revoked m.table (ground arith)) h.cached
        ];
        regexes = h.regexes;
        shallow = revoking-shallow js parse c ttl due m.table h.shallow;
      }

  -- No row of the table grants anything to the key.
  unfoldable pub IsRefused : Str → List T → Type 0
  IsRefused id table = (row : T) → find c.id id table ≡ some row → c.is_revoked row ≡ true

  pub revoke_by_id-IsRefused :
      (id : Str) (m : Manager js T) → IsRefused id (revoke_by_id js parse c ttl id m).1.table
  unfolding revoke_by_id IsRefused
  revoke_by_id-IsRefused id m row e =
      let (old, found, same) =
        (Option.map-eq-some_iff _ _).0
          (sym (find-revoking js parse c ttl (is_live js parse c ttl id) id m.table) ∙ e) in
      rw (← same) (now_revoked old (find-id c.id id m.table old found))
    where
      now_revoked :
          (old : T)
          → c.id old ≡ id
          → c.is_revoked
              (if str_eq (c.id old) id && not (c.is_revoked old) then c.mark_revoked old else old)
            ≡ true
      now_revoked old same = ground (arith, str_eq_iff (c.id old) id, c.is_revoked-mark_revoked old)

  -- From a consistent manager, once `revokeById` has run for a key, no later authorization of that
  -- key is granted, at whatever time, for whatever requests, and whatever was cached before.
  pub authorize-revoke_by_id :
      (id : Str) (m : Manager js T) (now : ℕ) (ctxs : List RequestContext)
      (format : RequestContext → Str)
      → IsConsistent js parse c ttl m
      → (authorize_with_contexts js parse c ttl now id ctxs format
          (revoke_by_id js parse c ttl id m).1).0.authorized
        ≡ false
  unfolding IsRefused
  authorize-revoke_by_id id m now ctxs format h =
      let o =
        authorize_with_contexts-Outcome js parse c ttl now id ctxs format _
          (revoke_by_id-IsConsistent js parse c ttl id m h) in
      not_true _ (λ a.
        let g = o.authorized_iff.0 a in
        false≢true (sym g.live ∙ revoke_by_id-IsRefused id m g.row g.stored))
    where
      not_true : (b : Bool) → ¬ (b ≡ true) → b ≡ false
      not_true b n = ground arith

  -- From a consistent manager, once `deleteById` has run for a key, no later authorization of that
  -- key is granted.
  pub authorize-delete_by_id :
      (id : Str) (m : Manager js T) (now : ℕ) (ctxs : List RequestContext)
      (format : RequestContext → Str)
      → IsConsistent js parse c ttl m
      → (authorize_with_contexts js parse c ttl now id ctxs format
          (delete_by_id js parse c ttl id m).1).0.authorized
        ≡ false
  unfolding delete_by_id
  authorize-delete_by_id id m now ctxs format h =
      let o =
        authorize_with_contexts-Outcome js parse c ttl now id ctxs format _
          (delete_by_id-IsConsistent js parse c ttl id m h) in
      not_true _ (λ a.
        let g = o.authorized_iff.0 a in gone _ (find-delete_where c.id id id m.table) g.stored)
    where
      not_true : (b : Bool) → ¬ (b ≡ true) → b ≡ false
      not_true b n = ground arith

      gone :
          {o : Option T} (old : Option T) {row : T}
          → o ≡ (if str_eq id id then none else old)
          → o ≡ some row
          → ⊥
      gone old p q = ground (arith, str_eq_iff id id)
