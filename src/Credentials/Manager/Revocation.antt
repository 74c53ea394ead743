-- ===== src/Credentials/Manager/Revocation.antt =====
-- Revoking and deleting keep a manager consistent, and take effect at once.
use purge_api_gateway.Base.{
  List, Bool, false, not, ◌&&◌, ℕ, ◌≡◌, refl, sym, ap, subst, ◌∙◌, Option, none, some, Str, str_eq,
  str_eq_iff, lookup-delete-some, Bool-cases, inl, inr, arith, if◌then◌else◌,
}
use mathlib.Core.Option
use mathlib.Core.Option.{some-injective, none-ne-some}
use purge_api_gateway.Policy.Runtime.{Runtime}
use purge_api_gateway.Policy.Types.{PolicyDocument}
use purge_api_gateway.Policy.Evaluate.Laws.{IsShallow}
use purge_api_gateway.Credentials.Table.{
  find, update_where, find-id, find-update_where, find-delete_where,
}
use purge_api_gateway.Credentials.Types.{Credential}
use purge_api_gateway.Credentials.Manager.{
  Manager, resolve_policy, is_live, revoke_by_id, delete_by_id,
}
use purge_api_gateway.Credentials.Manager.Cache.{IsConsistent}

module _ (js : Runtime) (parse : Str → Option PolicyDocument) {T : Type 0} (c : Credential T)
    (ttl : ℕ) where
  -- The row of a key after an update that revokes the rows of a test.
  pub find-revoking :
      (p : T → Bool) (k : Str) (rows : List T)
      → find c.id k (update_where p c.mark_revoked rows)
        ≡ Option.map (λ row. if p row then c.mark_revoked row else row) (find c.id k rows)
  find-revoking p k rows = find-update_where c.id p c.mark_revoked c.id-mark_revoked k rows

  unfoldable pub IsShallowTable : List T → Type 0
  IsShallowTable table =
      (k : Str) (row : T)
      → find c.id k table ≡ some row
      → IsShallow (resolve_policy js parse c ttl (c.policy row))

  pub revoking-shallow :
      (p : T → Bool) (rows : List T)
      → IsShallowTable rows
      → IsShallowTable (update_where p c.mark_revoked rows)
  unfolding IsShallowTable
  revoking-shallow p rows h k row e =
      let (old, found, same) = (Option.map-eq-some_iff _ _).0 (sym (find-revoking p k rows) ∙ e) in
      let kept : c.policy old ≡ c.policy row = revoking-policy p old ∙ ap c.policy same in
      subst (λ d. IsShallow (resolve_policy js parse c ttl d)) kept (h k old found)
    where
      revoking-policy :
          (p : T → Bool) (old : T)
          → c.policy old ≡ c.policy (if p old then c.mark_revoked old else old)
      revoking-policy p old = elim (Bool-cases (p old)) [
        | inl yes_p ↦ rw yes_p (sym (c.policy-mark_revoked old))
        | inr no_p ↦ rw no_p refl
      ]

  -- `revokeById` keeps the manager consistent.
  pub revoke_by_id-IsConsistent :
      (id : Str) (m : Manager js T)
      → IsConsistent js parse c ttl m
      → IsConsistent js parse c ttl (revoke_by_id js parse c ttl id m).1
  unfolding revoke_by_id IsShallowTable
  revoke_by_id-IsConsistent id m h = record {
    cached = λ k entry e.
        let (hit, other) = lookup-delete-some id k entry m.cache e in
        let (found, resolved) = h.cached k entry hit in
        (
          find-revoking (is_live js parse c ttl id) k m.table
              ∙ (ap (Option.map _) found
                  ∙ ap some (
                      ap (λ b. if b then c.mark_revoked entry.entity else entry.entity)
                        (unlike id k entry.entity other
                          (find-id c.id k m.table entry.entity found)))),
          resolved,
        );
    regexes = h.regexes;
    shallow = revoking-shallow (is_live js parse c ttl id) m.table h.shallow;
  }
    where
      unlike :
          (id k : Str) (row : T)
          → str_eq id k ≡ false
          → c.id row ≡ k
          → (str_eq (c.id row) id && not (c.is_revoked row)) ≡ false
      unlike id k row other same = ground (arith, str_eq_iff (c.id row) id, str_eq_iff id k)

  -- `deleteById` keeps the manager consistent.
  pub delete_by_id-IsConsistent :
      (id : Str) (m : Manager js T)
      → IsConsistent js parse c ttl m
      → IsConsistent js parse c ttl (delete_by_id js parse c ttl id m).1
  unfolding delete_by_id
  delete_by_id-IsConsistent id m h = record {
    cached = λ k entry e.
        let (hit, other) = lookup-delete-some id k entry m.cache e in
        let (found, resolved) = h.cached k entry hit in
        (
          find-delete_where c.id id k m.table
              ∙ (ap (λ b. if b then none else find c.id k m.table) other ∙ found),
          resolved,
        );
    regexes = h.regexes;
    shallow = λ k row e. h.shallow k row (ground (arith, find-delete_where c.id id k m.table));
  }
