-- ===== src/Base/Dict.antt =====
-- A JavaScript `Map` with text keys: an association list in insertion order. `set` keeps the place
-- of a key that is there, and appends a new one.
use Prim.Native.Nat.{◌+◌, ◌≤◌}
use mathlib.Core.Path.{◌≡◌, refl, sym, ap, subst, ◌∙◌}
use mathlib.Core.Logic.{inl, inr}
use mathlib.Core.Bool.{false}
use mathlib.Core.Option.{Option, none, some, some-injective}
use mathlib.Core.List.{List, [], ◌∷◌}
use native.Mathlib.Omega.{arith}
use purge_api_gateway.Base.Tests.{Bool-cases, if◌then◌else◌}
use purge_api_gateway.Base.Lists.{length}
use purge_api_gateway.Base.Text.{Str, str_eq, str_eq_iff}

module _ {ℓ} {V : Type ℓ} where
  unfoldable pub lookup : Str → List (Str × V) → Option V
  lookup k [] = none
  lookup k ((j, v) ∷ m) = if str_eq j k then some v else lookup k m

  unfoldable pub insert : Str → V → List (Str × V) → List (Str × V)
  insert k v [] = (k, v) ∷ []
  insert k v ((j, w) ∷ m) = if str_eq j k then (j, v) ∷ m else (j, w) ∷ insert k v m

  unfoldable pub delete : Str → List (Str × V) → List (Str × V)
  delete k [] = []
  delete k ((j, w) ∷ m) = if str_eq j k then delete k m else (j, w) ∷ delete k m

  pub lookup-insert :
      (k j : Str) (v : V) (m : List (Str × V))
      → lookup j (insert k v m) ≡ (if str_eq k j then some v else lookup j m)
  unfolding lookup insert
  lookup-insert k j v [] = refl
  lookup-insert k j v ((i, w) ∷ m) =
      ground (arith, str_eq_iff k j, str_eq_iff i k, str_eq_iff i j, lookup-insert k j v m)

  pub lookup-delete :
      (k j : Str) (m : List (Str × V))
      → lookup j (delete k m) ≡ (if str_eq k j then none else lookup j m)
  unfolding lookup delete
  lookup-delete k j [] = ground arith
  lookup-delete k j ((i, w) ∷ m) =
      ground (arith, str_eq_iff k j, str_eq_iff i k, str_eq_iff i j, lookup-delete k j m)

  pub length-insert-le :
      (k : Str) (v : V) (m : List (Str × V)) → length (insert k v m) ≤ length m + 1
  unfolding insert
  length-insert-le k v [] = omega arith
  length-insert-le k v ((i, w) ∷ m) = ground (arith, length-insert-le k v m)

  pub length-delete-le : (k : Str) (m : List (Str × V)) → length (delete k m) ≤ length m
  unfolding delete
  length-delete-le k [] = omega arith
  length-delete-le k ((i, w) ∷ m) = ground (arith, length-delete-le k m)

  -- What holds of every entry holds after a change that puts in an entry of which it holds.
  pub insert_inv :
      (P : Str → V → Type 0) (k : Str) (v : V) (m : List (Str × V))
      → P k v
      → ((j : Str) (w : V) → lookup j m ≡ some w → P j w)
      → (j : Str) (w : V) → lookup j (insert k v m) ≡ some w
      → P j w
  insert_inv P k v m p h j w e = elim (Bool-cases (str_eq k j)) [
    | inl same ↦
        let found : some v ≡ some w =
          ap (λ b. if b then some v else lookup j m) (sym same)
          ∙ (sym (lookup-insert k j v m) ∙ e) in
        subst (P j) (some-injective _ _ found) (subst (λ i. P i v) ((str_eq_iff k j).0 same) p)
    | inr other ↦
        h j w (
          ap (λ b. if b then some v else lookup j m) (sym other)
          ∙ (sym (lookup-insert k j v m) ∙ e))
  ]

  pub lookup-delete-some :
      (k j : Str) (w : V) (m : List (Str × V))
      → lookup j (delete k m) ≡ some w
      → (lookup j m ≡ some w) × (str_eq k j ≡ false)
  lookup-delete-some k j w m e = ground (arith, lookup-delete k j m)
