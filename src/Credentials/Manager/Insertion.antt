-- ===== src/Credentials/Manager/Insertion.antt =====
-- A new row of a manager's table, and the rows that a revocation leaves alone.
use purge_api_gateway.Base.{
  List, [], ◌∷◌, ◌++◌, not, ◌&&◌, ◌≡◌, ◌≢◌, refl, sym, ap, subst, ◌∙◌, Option, none, some, Str,
  str_eq, str_eq_iff, Bool-cases, Option-cases, inl, inr, ℕ, arith, if◌then◌else◌,
}
use mathlib.Core.Bool.{false≢true}
use mathlib.Core.Option
use mathlib.Core.Option.{none-ne-some, some-injective}
use purge_api_gateway.Policy.Runtime.{Runtime}
use purge_api_gateway.Policy.Types.{PolicyDocument}
use purge_api_gateway.Policy.Evaluate.Laws.{IsShallow}
use purge_api_gateway.Credentials.Table.{find, find-append, find-id}
use purge_api_gateway.Credentials.Types.{Credential}
use purge_api_gateway.Credentials.Manager.{Manager, resolve_policy, is_live, revoke_by_id}
use purge_api_gateway.Credentials.Manager.Cache.{IsConsistent}
use purge_api_gateway.Credentials.Manager.Revocation.{find-revoking}

module _ {T : Type 0} (id_of : T → Str) where
  pub find_others :
      (fresh id : Str) (rows : List T) (new : T)
      → id_of new ≡ fresh
      → id ≢ fresh
      → find id_of id (rows ++ new ∷ []) ≡ find id_of id rows
  find_others fresh id rows new same other =
      ground (arith, find-append id_of id rows new, str_eq_iff (id_of new) id)

  pub find_fresh :
      (fresh : Str) (rows : List T) (new : T)
      → id_of new ≡ fresh
      → find id_of fresh rows ≡ none
      → find id_of fresh (rows ++ new ∷ []) ≡ some new
  find_fresh fresh rows new same missing =
      ground (arith, find-append id_of fresh rows new, str_eq_iff (id_of new) fresh)

module _ (js : Runtime) (parse : Str → Option PolicyDocument) {T : Type 0} (c : Credential T)
    (ttl : ℕ) where
  -- A row under a new key, with a policy that is not too deep, keeps a manager consistent.
  pub append-IsConsistent :
      (m : Manager js T) (new : T)
      → IsConsistent js parse c ttl m
      → find c.id (c.id new) m.table ≡ none
      → IsShallow (resolve_policy js parse c ttl (c.policy new))
      → IsConsistent js parse c ttl (record m { table = m.table ++ new ∷ [] })
  append-IsConsistent m new h missing s = record {
    cached = λ id entry e.
        let (found, resolved) = h.cached id entry e in
        (
          find_others c.id (c.id new) id m.table new refl (λ same.
                none-ne-some _ (sym missing ∙ (ap (λ i. find c.id i m.table) (sym same) ∙ found)))
              ∙ found,
          resolved,
        );
    regexes = h.regexes;
    shallow = λ id row e. elim (Bool-cases (str_eq id (c.id new))) [
      | inl same ↦
          let e' : find c.id (c.id new) (m.table ++ new ∷ []) ≡ some row =
            subst (λ i. find c.id i (m.table ++ new ∷ []) ≡ some row)
              ((str_eq_iff id (c.id new)).0 same) e in
          subst (λ k. IsShallow (resolve_policy js parse c ttl (c.policy k)))
            (some-injective _ _ (sym (find_fresh c.id (c.id new) m.table new refl missing) ∙ e')) s
      | inr other ↦ h.shallow id row (
          sym (
            find_others c.id (c.id new) id m.table new refl
              (λ same. false≢true (sym other ∙ (str_eq_iff id (c.id new)).1 same)))
          ∙ e)
    ];
  }

  -- A revocation leaves the rows of other keys as they are.
  pub find-revoke_by_id_other :
      (id k : Str) (m : Manager js T)
      → k ≢ id
      → find c.id k (revoke_by_id js parse c ttl id m).1.table ≡ find c.id k m.table
  unfolding revoke_by_id
  find-revoke_by_id_other id k m other = elim (Option-cases (find c.id k m.table)) [
    | inl missing ↦
        find-revoking js parse c ttl (is_live js parse c ttl id) k m.table
        ∙ (ap (Option.map _) missing ∙ sym missing)
    | inr (row, found) ↦
        find-revoking js parse c ttl (is_live js parse c ttl id) k m.table
        ∙ (ap (Option.map _) found
            ∙ (ap some (unlike row (find-id c.id k m.table row found)) ∙ sym found))
  ]
    where
      unlike :
          (row : T)
          → c.id row ≡ k
          → (if str_eq (c.id row) id && not (c.is_revoked row) then c.mark_revoked row else row)
            ≡ row
      unlike row same =
          ground (arith, str_eq_iff (c.id row) id, λ (e : c.id row ≡ id). other (sym same ∙ e))
