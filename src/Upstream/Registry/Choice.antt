-- ===== src/Upstream/Registry/Choice.antt =====
-- Which row the resolution of a query chooses, whatever the order of the table.
use purge_api_gateway.Base.{
  List, [], ◌∷◌, Bool, true, false, not, ◌&&◌, ℕ, ◌≤◌, ◌≡◌, ◌⊎◌, ◌↔◌, inl, inr, refl, sym, ap, ◌∙◌,
  subst, Option, none, some, Str, lit, All, and_iff, Bool-cases, Option-cases, arith, if◌then◌else◌,
}
use mathlib.Core.Bool.{false≢true}
use mathlib.Core.Option
use mathlib.Core.Option.{some-injective, none-ne-some}
use purge_api_gateway.Credentials.Table.{find}
use purge_api_gateway.Credentials.Ordered.Laws.{
  Has, NewestFirst, newest_first_iff, newest_first-NewestFirst, select_where_iff,
}
use purge_api_gateway.Upstream.Registry.{
  Entry, Query, any_scope, account_scope, by_id, is_lapsed, serves, is_vacant, next_wildcard, scan,
  load,
}

module _ {T : Type 0} where
  abbrev pub first_where : (T → Bool) → List T → Option T
  first_where p [] = none
  first_where p (row ∷ rows) = if p row then some row else first_where p rows

  -- No row of the table is of the kind.
  abbrev pub Lacks : (T → Bool) → List T → Type 0
  Lacks p table = (d : T) → Has table d → p d ≡ false

  pub first_where-Lacks : (p : T → Bool) (rows : List T) → first_where p rows ≡ none → Lacks p rows
  first_where-Lacks p [] h d here = absurd here
  first_where-Lacks p (row ∷ rows) h d here = elim (Bool-cases (p row)) [
    | inl met ↦ absurd (none-ne-some row (ground (arith, h, met)))
    | inr unmet ↦ elim here [
      | inl same ↦ ap p (sym same) ∙ unmet
      | inr later ↦ first_where-Lacks p rows (ground (arith, h, unmet)) d later
    ]
  ]

module _ {T : Type 0} (created : T → ℕ) where
  -- The row is of the kind, and no row of the kind was created later.
  pub record IsNewest (p : T → Bool) (table : List T) (row : T) : Type 0 where
    pub stored : Has table row
    pub meets : p row ≡ true
    pub newest : (d : T) → Has table d → p d ≡ true → created d ≤ created row

  All-Has :
      (limit : ℕ) (rows : List T) (d : T)
      → All (λ c. created c ≤ limit) rows
      → Has rows d
      → created d ≤ limit
  All-Has limit [] d h here = absurd here
  All-Has limit (row ∷ rows) d (first, rest) here = elim here [
    | inl same ↦ subst (λ c. created c ≤ limit) same first
    | inr later ↦ All-Has limit rows d rest later
  ]

  pub first_where-IsNewest :
      (p : T → Bool) (rows : List T) (row : T)
      → NewestFirst created rows
      → first_where p rows ≡ some row
      → IsNewest p rows row
  first_where-IsNewest p [] row h found = absurd (none-ne-some _ found)
  first_where-IsNewest p (c ∷ rows) row (first, rest) found = elim (Bool-cases (p c)) [
    | inl met ↦
        let same : c ≡ row = some-injective _ _ (ground (arith, met, found)) in
        subst (IsNewest p (c ∷ rows)) same (record {
          stored = inl refl;
          meets = met;
          newest = λ d here q. elim here [
            | inl s ↦ subst (λ x. created x ≤ created c) s (omega arith)
            | inr later ↦ All-Has (created c) rows d first later
          ];
        })
    | inr unmet ↦
        let below = first_where-IsNewest p rows row rest (ground (arith, unmet, found)) in
        record {
          stored = inr below.stored;
          meets = below.meets;
          newest = λ d here q. elim here [
            | inl s ↦ absurd (false≢true (sym unmet ∙ (ap p s ∙ q)))
            | inr later ↦ below.newest d later q
          ];
        }
  ]

module _ {T V : Type 0} (e : Entry T V) where
  -- A live row that serves the key itself.
  abbrev pub exactly : ℕ → (T → Bool) → Str → T → Bool
  exactly now among k row = among row && (not (is_lapsed (e.expires_at row) now) && serves e k row)

  -- A live row that serves everything, with a secret that counts as true.
  abbrev pub fallback : ℕ → (T → Bool) → T → Bool
  fallback now among row =
      among row
      && (not (is_lapsed (e.expires_at row) now)
          && (serves e (lit "*") row && e.is_truthy (e.secret row)))

  -- The loop finds the first row that serves the key, or else the first that serves everything.
  scan_lem :
      (now : ℕ) (k : Str) (wild : Option V) (rows : List T)
      → scan e now k wild rows ≡ elim (first_where (exactly now (λ _. true) k) rows) [
        | some row ↦ some (e.secret row)
        | none ↦
            if is_vacant e wild
            then Option.map e.secret (first_where (fallback now (λ _. true)) rows)
            else wild
      ]
  unfolding scan is_vacant next_wildcard
  scan_lem now k wild [] = refl
  scan_lem now k none (row ∷ rows) =
      ground (arith, scan_lem now k (next_wildcard e now row none) rows)
  scan_lem now k (some v) (row ∷ rows) =
      ground (arith, scan_lem now k (next_wildcard e now row (some v)) rows)

  -- What an answer must be: the secret of the newest live row that serves the key, or else of the
  -- newest live one that serves everything; none only if there is neither.
  abbrev pub Chosen : ℕ → (T → Bool) → Str → List T → Option V → Type 0
  Chosen now among k table none =
      Lacks (exactly now among k) table × Lacks (fallback now among) table
  Chosen now among k table (some v) =
      ((row : T) × IsNewest e.created_at (exactly now among k) table row × (e.secret row ≡ v))
      ⊎ (Lacks (exactly now among k) table
          × ((row : T) × IsNewest e.created_at (fallback now among) table row × (e.secret row ≡ v)))

  -- The rows of a list are those of the table that are among the chosen ones.
  Narrows : (T → Bool) → List T → List T → Type 0
  Narrows among table rows = (d : T) → Has rows d ↔ (Has table d × (among d ≡ true))

  module _ (among p : T → Bool) (table rows : List T) (narrows : Narrows among table rows) where
    Narrows-Lacks : Lacks p rows → Lacks (λ d. among d && p d) table
    unfolding Narrows
    Narrows-Lacks none_met d here = elim (Bool-cases (among d)) [
      | inl chosen ↦ ground (arith, none_met d ((narrows d).1 (here, chosen)), chosen)
      | inr other ↦ ground (arith, other)
    ]

    Narrows-IsNewest :
        (row : T)
        → IsNewest e.created_at p rows row
        → IsNewest e.created_at (λ d. among d && p d) table row
    unfolding Narrows
    Narrows-IsNewest row h = record {
      stored = ((narrows row).0 h.stored).0;
      meets = (and_iff _ _).1 (((narrows row).0 h.stored).1, h.meets);
      newest = λ d here q.
          let (chosen, met) = (and_iff (among d) (p d)).0 q in
          h.newest d ((narrows d).1 (here, chosen)) met;
    }

  scan-Chosen :
      (now : ℕ) (among : T → Bool) (k : Str) (table rows : List T)
      → Narrows among table rows
      → NewestFirst e.created_at rows
      → Chosen now among k table (scan e now k none rows)
  unfolding is_vacant
  scan-Chosen now among k table rows narrows ordered =
      subst (Chosen now among k table) (sym (scan_lem now k none rows))
        (elim (Option-cases (first_where (exactly now (λ _. true) k) rows)) [
          | inr (row, found) ↦ rw (found) (
              inl (
                row,
                Narrows-IsNewest among _ table rows narrows row
                    (first_where-IsNewest e.created_at _ rows row ordered found),
                refl,
              ))
          | inl missing ↦
              let nothing =
                Narrows-Lacks among _ table rows narrows (first_where-Lacks _ rows missing) in
              elim (Option-cases (first_where (fallback now (λ _. true)) rows)) [
                | inr (row, found) ↦
                    rw (missing, found)
                      (inr (
                        nothing,
                        (
                          row,
                          Narrows-IsNewest among _ table rows narrows row
                              (first_where-IsNewest e.created_at _ rows row ordered found),
                          refl,
                        ),
                      ))
                | inl neither ↦
                    rw (missing, neither)
                      (
                        nothing,
                        Narrows-Lacks among _ table rows narrows (first_where-Lacks _ rows neither),
                      )
              ]
        ])

  -- What the answer to each query must be.
  abbrev pub Answers : ℕ → Query → List T → Option V → Type 0
  Answers now (any_scope k) table answer = Chosen now (λ _. true) k table answer
  Answers now (account_scope k) table answer = Chosen now e.is_account k table answer
  Answers now (by_id k) table none =
      (row : T) → find e.id k table ≡ some row → is_lapsed (e.expires_at row) now ≡ true
  Answers now (by_id k) table (some v) =
      (row : T) × (find e.id k table ≡ some row)
      × (is_lapsed (e.expires_at row) now ≡ false)
      × (e.secret row ≡ v)

  -- What a query reads from the table is the secret of the newest live row that serves its key, or
  -- else of the newest live row that serves everything; an account is sought among the rows of
  -- accounts, and an id has its own row, unless that has expired.
  pub load-Answers :
      (now : ℕ) (q : Query) (table : List T) → Answers now q table (load e now q table)
  unfolding load Narrows
  load-Answers now (any_scope k) table =
      scan-Chosen now (λ _. true) k table _
        (λ d. (
          λ h. ((newest_first_iff e.created_at table d).0 h, refl),
          λ h. (newest_first_iff e.created_at table d).1 h.0,
        ))
        (newest_first-NewestFirst e.created_at table)
  load-Answers now (account_scope k) table =
      scan-Chosen now e.is_account k table _
        (λ d. (
          λ h. (select_where_iff e.is_account table d).0 ((newest_first_iff e.created_at _ d).0 h),
          λ h. (newest_first_iff e.created_at _ d).1 ((select_where_iff e.is_account table d).1 h),
        ))
        (newest_first-NewestFirst e.created_at _)
  load-Answers now (by_id k) table = elim (Option-cases (find e.id k table)) [
    | inl missing ↦
        rw (missing, load) (λ row found. absurd (none-ne-some row (sym missing ∙ found)))
    | inr (row, found) ↦ elim (Bool-cases (is_lapsed (e.expires_at row) now)) [
      | inl lapsed ↦
          rw (found, load, lapsed)
            (λ r same.
              subst (λ x. is_lapsed (e.expires_at x) now ≡ true)
                (some-injective _ _ (sym found ∙ same)) lapsed)
      | inr live ↦ rw (found, load, live) (row, found, live, refl)
    ]
  ]
