-- ===== src/Config/Registry.antt =====
-- What the registry of overrides holds: for each key the number of its row.
use purge_api_gateway.Base.{
  List, [], ◌∷◌, ◌++◌, true, false, ◌&&◌, ◌≡◌, inl, inr, refl, subst, Option, none, some, Str,
  str_eq, str_eq_iff, lookup, insert, lookup-insert, Bool-cases, arith, if◌then◌else◌,
}
use purge_api_gateway.Credentials.Table.{update_where, delete_where, count_where}
use purge_api_gateway.Credentials.Manager.{any_row}
use purge_api_gateway.Config.{Numbers, ConfigOverride, upsert, load_rows}

abbrev pub or_else {ℓ} : {A : Type ℓ} → Option A → Option A → Option A
or_else (some a) o = some a
or_else none o = o

module _ {N : Type 0} (numbers : Numbers N) where
  -- The number of the last row of a key that is a positive one.
  abbrev pub override : Str → List ConfigOverride → Option N
  override k [] = none
  override k (row ∷ rows) = or_else (override k rows) (
      if str_eq row.key k && numbers.is_positive (numbers.of_text row.value)
      then some (numbers.of_text row.value)
      else none)

  pub lookup-load_rows :
      (k : Str) (rows : List ConfigOverride) (registry : List (Str × N))
      → lookup k (load_rows numbers rows registry) ≡ or_else (override k rows) (lookup k registry)
  unfolding load_rows
  lookup-load_rows k [] registry = refl
  lookup-load_rows k (row ∷ rows) registry =
      let val = numbers.of_text row.value in
      elim (Bool-cases (numbers.is_positive val)) [
        | inl positive ↦
            rw (positive, load_rows)
              (ground (
                arith,
                lookup-load_rows k rows (insert row.key val registry),
                lookup-insert row.key k val registry,
                positive,
              ))
        | inr other ↦
            rw (other, load_rows) (ground (arith, lookup-load_rows k rows registry, other))
      ]

  module _ (new : ConfigOverride)
      (positive : numbers.is_positive (numbers.of_text new.value) ≡ true) where
    override-same :
        (rows : List ConfigOverride)
        → override new.key (update_where (λ row. str_eq row.key new.key) (λ row. new) rows) ≡ (
            if any_row (count_where (λ row. str_eq row.key new.key) rows)
            then some (numbers.of_text new.value)
            else none)
    unfolding update_where count_where
    override-same [] = refl
    override-same (row ∷ rows) =
        ground (arith, override-same rows, positive, (str_eq_iff new.key new.key).1 refl)

    override-none :
        (rows : List ConfigOverride)
        → any_row (count_where (λ row. str_eq row.key new.key) rows) ≡ false
        → override new.key rows ≡ none
    unfolding count_where
    override-none [] h = refl
    override-none (row ∷ rows) h = ground (arith, override-none rows, h)

    override-other :
        (k : Str) (rows : List ConfigOverride)
        → str_eq new.key k ≡ false
        → override k (update_where (λ row. str_eq row.key new.key) (λ row. new) rows)
          ≡ override k rows
    unfolding update_where
    override-other k [] h = refl
    override-other k (row ∷ rows) h = ground (
      arith,
      override-other k rows h,
      h,
      str_eq_iff row.key k,
      str_eq_iff row.key new.key,
      str_eq_iff new.key k,
    )

    override-append :
        (k : Str) (rows : List ConfigOverride)
        → override k (rows ++ new ∷ [])
          ≡ (if str_eq new.key k then some (numbers.of_text new.value) else override k rows)
    override-append k [] = ground (arith, positive)
    override-append k (row ∷ rows) = ground (arith, override-append k rows)

    -- Written back, a positive number is what its key has; other keys have what they had.
    pub override-upsert :
        (k : Str) (rows : List ConfigOverride)
        → override k (upsert new rows)
          ≡ (if str_eq new.key k then some (numbers.of_text new.value) else override k rows)
    unfolding upsert
    override-upsert k rows =
        elim (Bool-cases (any_row (count_where (λ row. str_eq row.key new.key) rows))) [
          | inr free ↦ rw (free, upsert) (override-append k rows)
          | inl taken ↦ elim (Bool-cases (str_eq new.key k)) [
            | inl same ↦
                rw (taken, upsert, same)
                  (subst
                    (λ j.
                      override j (update_where (λ row. str_eq row.key new.key) (λ row. new) rows)
                      ≡ some (numbers.of_text new.value))
                    ((str_eq_iff new.key k).0 same) (ground (arith, override-same rows, taken)))
            | inr other ↦ rw (taken, upsert, other) (override-other k rows other)
          ]
        ]

  pub override-delete :
      (k j : Str) (rows : List ConfigOverride)
      → override k (delete_where (λ row. str_eq row.key j) rows)
        ≡ (if str_eq j k then none else override k rows)
  unfolding delete_where
  override-delete k j [] = ground arith
  override-delete k j (row ∷ rows) =
      ground (
        arith,
        override-delete k j rows,
        str_eq_iff row.key k,
        str_eq_iff row.key j,
        str_eq_iff j k,
      )
