-- ===== src/Credentials/Table.antt =====
-- An SQL table as the list of its rows, in the order of insertion, with the statements that the
-- managers execute: SELECT by key, UPDATE … SET … WHERE, DELETE … WHERE and their `rowsWritten`.
use purge_api_gateway.Base.{
  List, [], ◌∷◌, ◌++◌, Bool, ℕ, ◌+◌, ◌≡◌, refl, Option, none, some, Str, str_eq, str_eq_iff,
  if◌then◌else◌, arith,
}
use mathlib.Core.Option

module _ {T : Type 0} where
  -- SELECT * FROM … WHERE id = ?, its first row.
  unfoldable pub find : (T → Str) → Str → List T → Option T
  find id k [] = none
  find id k (row ∷ rows) = if str_eq (id row) k then some row else find id k rows

  -- UPDATE … SET … WHERE …
  unfoldable pub update_where : (T → Bool) → (T → T) → List T → List T
  update_where p f [] = []
  update_where p f (row ∷ rows) = (if p row then f row else row) ∷ update_where p f rows

  -- DELETE FROM … WHERE …
  unfoldable pub delete_where : (T → Bool) → List T → List T
  delete_where p [] = []
  delete_where p (row ∷ rows) = let rest = delete_where p rows in if p row then rest else row ∷ rest

  -- SELECT … WHERE …
  unfoldable pub select_where : (T → Bool) → List T → List T
  select_where p [] = []
  select_where p (row ∷ rows) = let rest = select_where p rows in if p row then row ∷ rest else rest

  -- The rows that a WHERE clause meets: `rowsWritten`, and COUNT(*).
  unfoldable pub count_where : (T → Bool) → List T → ℕ
  count_where p [] = 0
  count_where p (row ∷ rows) = (if p row then 1 else 0) + count_where p rows

  pub find-id :
      (id : T → Str) (k : Str) (rows : List T) (found : T)
      → find id k rows ≡ some found
      → id found ≡ k
  unfolding find
  find-id id k [] found h = cc
  find-id id k (row ∷ rows) found h = ground (arith, str_eq_iff (id row) k, find-id id k rows found)

  pub find-update_where :
      (id : T → Str) (p : T → Bool) (f : T → T)
      → ((row : T) → id (f row) ≡ id row)
      → (k : Str) (rows : List T)
      → find id k (update_where p f rows)
        ≡ Option.map (λ row. if p row then f row else row) (find id k rows)
  unfolding find update_where
  find-update_where id p f keep k [] = refl
  find-update_where id p f keep k (row ∷ rows) =
      ground (arith, keep row, find-update_where id p f keep k rows)

  pub find-delete_where :
      (id : T → Str) (j k : Str) (rows : List T)
      → find id k (delete_where (λ row. str_eq (id row) j) rows)
        ≡ (if str_eq j k then none else find id k rows)
  unfolding find delete_where
  find-delete_where id j k [] = ground arith
  find-delete_where id j k (row ∷ rows) = ground (
    arith,
    str_eq_iff (id row) j,
    str_eq_iff (id row) k,
    str_eq_iff j k,
    find-delete_where id j k rows,
  )

  pub find-append :
      (id : T → Str) (k : Str) (rows : List T) (new : T)
      → find id k (rows ++ new ∷ []) ≡ elim (find id k rows) [
        | some row ↦ some row
        | none ↦ if str_eq (id new) k then some new else none
      ]
  unfolding find
  find-append id k [] new = refl
  find-append id k (row ∷ rows) new = ground (arith, find-append id k rows new)

  pub update_where-none :
      (p : T → Bool) (f : T → T) (rows : List T)
      → count_where p rows ≡ 0
      → update_where p f rows ≡ rows
  unfolding update_where count_where
  update_where-none p f [] h = refl
  update_where-none p f (row ∷ rows) h = ground (arith, update_where-none p f rows)

  pub delete_where-none :
      (p : T → Bool) (rows : List T) → count_where p rows ≡ 0 → delete_where p rows ≡ rows
  unfolding delete_where count_where
  delete_where-none p [] h = refl
  delete_where-none p (row ∷ rows) h = ground (arith, delete_where-none p rows)
