-- ===== src/Credentials/Ordered/Laws.antt =====
-- An ordered list has the rows that it was made from, and the newest stand first.
use purge_api_gateway.Base.{
  List, [], ◌∷◌, Bool, true, ℕ, leb, ◌≤◌, ◌≡◌, ◌⊎◌, inl, inr, sym, ap, ◌∙◌, ◌↔◌, All, Any,
  Bool-cases, arith,
}
use mathlib.Core.Bool.{false≢true}
use purge_api_gateway.Credentials.Table.{select_where}
use purge_api_gateway.Credentials.Ordered.{place, newest_first}

module _ {T : Type 0} where
  -- The row is one of the list.
  abbrev pub Has : List T → T → Type 0
  Has rows c = Any (λ row. row ≡ c) rows

  pub select_where_iff :
      (p : T → Bool) (rows : List T) (c : T)
      → Has (select_where p rows) c ↔ (Has rows c × (p c ≡ true))
  unfolding select_where
  select_where_iff p [] c = (λ h. absurd h, λ h. h.0)
  select_where_iff p (row ∷ rows) c =
      let (sound, complete) = select_where_iff p rows c in
      elim (Bool-cases (p row)) [
        | inl e ↦ rw e (
          λ h. elim h [
            | inl here ↦ (inl here, ap p (sym here) ∙ e)
            | inr there ↦ (inr (sound there).0, (sound there).1)
          ],
          λ h. elim h.0 [ inl here ↦ inl here | inr there ↦ inr (complete (there, h.1)) ],
        )
        | inr e ↦ rw e (
          λ h. (inr (sound h).0, (sound h).1),
          λ h. elim h.0 [
            | inl here ↦ absurd (false≢true (sym e ∙ (ap p here ∙ h.1)))
            | inr there ↦ complete (there, h.1)
          ],
        )
      ]

module _ {T : Type 0} (created : T → ℕ) where
  place_iff : (c d : T) (rows : List T) → Has (place created c rows) d ↔ ((c ≡ d) ⊎ Has rows d)
  unfolding place
  place_iff c d [] = (λ h. h, λ h. h)
  place_iff c d (row ∷ rows) =
      let (sound, complete) = place_iff c d rows in
      elim (Bool-cases (leb (created row) (created c))) [
        | inl e ↦ rw e (λ h. h, λ h. h)
        | inr e ↦ rw e (
          λ h. elim h [
            | inl first ↦ inr (inl first)
            | inr later ↦ elim (sound later) [ inl here ↦ inl here | inr there ↦ inr (inr there) ]
          ],
          λ h. elim h [
            | inl here ↦ inr (complete (inl here))
            | inr rest ↦ elim rest [
              | inl first ↦ inl first
              | inr there ↦ inr (complete (inr there))
            ]
          ],
        )
      ]

  pub newest_first_iff : (rows : List T) (c : T) → Has (newest_first created rows) c ↔ Has rows c
  unfolding newest_first
  newest_first_iff [] c = (λ h. h, λ h. h)
  newest_first_iff (row ∷ rows) c =
      let (sound, complete) = place_iff row c (newest_first created rows) in
      let (fewer, more) = newest_first_iff rows c in
      (
        λ h. elim (sound h) [ inl here ↦ inl here | inr there ↦ inr (fewer there) ],
        λ h. complete (elim h [ inl here ↦ inl here | inr there ↦ inr (more there) ]),
      )

  -- No row was created after one that stands before it.
  abbrev pub NewestFirst : List T → Type 0
  NewestFirst [] = Unit
  NewestFirst (c ∷ cs) = All (λ d. created d ≤ created c) cs × NewestFirst cs

  place-All :
      (limit : ℕ) (c : T) (rows : List T)
      → created c ≤ limit
      → All (λ d. created d ≤ limit) rows
      → All (λ d. created d ≤ limit) (place created c rows)
  unfolding place
  place-All limit c [] here rest = (here, rest)
  place-All limit c (row ∷ rows) here (first, rest) =
      elim (Bool-cases (leb (created row) (created c))) [
        | inl e ↦ rw e (here, (first, rest))
        | inr e ↦ rw e (first, place-All limit c rows here rest)
      ]

  All-weaken :
      (low high : ℕ) (rows : List T)
      → low ≤ high
      → All (λ d. created d ≤ low) rows
      → All (λ d. created d ≤ high) rows
  All-weaken low high [] h k = k
  All-weaken low high (row ∷ rows) h (first, rest) = (omega arith, All-weaken low high rows h rest)

  place-NewestFirst :
      (c : T) (rows : List T) → NewestFirst rows → NewestFirst (place created c rows)
  unfolding place
  place-NewestFirst c [] h = (tt, tt)
  place-NewestFirst c (row ∷ rows) (first, rest) =
      elim (Bool-cases (leb (created row) (created c))) [
        | inl e ↦
            let le : created row ≤ created c = ground (arith, e) in
            rw e ((le, All-weaken (created row) (created c) rows le first), (first, rest))
        | inr e ↦
            let le : created c ≤ created row = ground (arith, e) in
            rw e (place-All (created row) c rows le first, place-NewestFirst c rows rest)
      ]

  pub newest_first-NewestFirst : (rows : List T) → NewestFirst (newest_first created rows)
  unfolding newest_first
  newest_first-NewestFirst [] = tt
  newest_first-NewestFirst (row ∷ rows) =
      place-NewestFirst row (newest_first created rows) (newest_first-NewestFirst rows)
