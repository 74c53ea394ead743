-- ===== src/Upstream/R2/Buckets.antt =====
-- Which endpoint lists the buckets.
use purge_api_gateway.Base.{
  List, [], ◌∷◌, Bool, not, ◌&&◌, ℕ, ◌≡◌, ◌⊎◌, inl, inr, refl, sym, subst, Option, none, some, lit,
  Option-cases, arith,
}
use purge_api_gateway.Credentials.Table.{select_where}
use purge_api_gateway.Credentials.Ordered.{newest_first}
use purge_api_gateway.Credentials.Ordered.Laws.{newest_first_iff, newest_first-NewestFirst}
use purge_api_gateway.Upstream.Registry.{is_lapsed, serves, listing}
use purge_api_gateway.Upstream.Registry.Choice.{
  first_where, Lacks, IsNewest, first_where-Lacks, first_where-IsNewest,
}
use purge_api_gateway.Upstream.R2.{
  UpstreamR2Row, R2Credentials, R2Registry, r2_entry, credentials_of, first_wildcard,
  resolve_for_list_buckets,
}

abbrev pub is_live : ℕ → UpstreamR2Row → Bool
is_live now row = not (is_lapsed row.shown.expires_at now)

abbrev pub lists_all : ℕ → UpstreamR2Row → Bool
lists_all now row = is_live now row && serves r2_entry (lit "*") row

-- The credentials of the newest live endpoint for all buckets, or else of the newest live endpoint;
-- none only if no endpoint is live.
abbrev pub ListsBuckets : ℕ → List UpstreamR2Row → Option R2Credentials → Type 0
ListsBuckets now table none = Lacks (is_live now) table
ListsBuckets now table (some creds) =
    ((row : UpstreamR2Row) × IsNewest (λ r. r.shown.created_at) (lists_all now) table row
      × (credentials_of row ≡ creds))
    ⊎ (Lacks (lists_all now) table
        × ((row : UpstreamR2Row) × IsNewest (λ r. r.shown.created_at) (is_live now) table row
            × (credentials_of row ≡ creds)))

-- The first row of the kind in what is left of an ordered list is the first of the list.
first_wildcard_lem :
    (now : ℕ) (rows : List UpstreamR2Row)
    → first_wildcard (select_where (is_live now) rows) ≡ first_where (lists_all now) rows
unfolding first_wildcard select_where
first_wildcard_lem now [] = refl
first_wildcard_lem now (row ∷ rows) = ground (arith, first_wildcard_lem now rows)

-- The first live row.
abbrev head : List UpstreamR2Row → Option UpstreamR2Row
head [] = none
head (row ∷ rows) = some row

head_lem :
    (now : ℕ) (rows : List UpstreamR2Row)
    → head (select_where (is_live now) rows) ≡ first_where (is_live now) rows
unfolding select_where
head_lem now [] = refl
head_lem now (row ∷ rows) = ground (arith, head_lem now rows)

listed-Lacks :
    (p : UpstreamR2Row → Bool) (table : List UpstreamR2Row)
    → Lacks p (newest_first (λ r. r.shown.created_at) table)
    → Lacks p table
listed-Lacks p table h d here = h d ((newest_first_iff _ table d).1 here)

listed-IsNewest :
    (p : UpstreamR2Row → Bool) (table : List UpstreamR2Row) (row : UpstreamR2Row)
    → first_where p (newest_first (λ (r : UpstreamR2Row). r.shown.created_at) table) ≡ some row
    → IsNewest (λ r. r.shown.created_at) p table row
listed-IsNewest p table row found =
    let newest =
      first_where-IsNewest (λ (r : UpstreamR2Row). r.shown.created_at) p _ row
        (newest_first-NewestFirst (λ (r : UpstreamR2Row). r.shown.created_at) table) found in
    record {
      stored = (newest_first_iff _ table row).0 newest.stored;
      meets = newest.meets;
      newest = λ d here q. newest.newest d ((newest_first_iff _ table d).1 here) q;
    }

-- What the code reads from the two searches.
choice_lem :
    (actives : List UpstreamR2Row)
    → elim (first_wildcard actives) [
      | some row ↦ some (credentials_of row)
      | none ↦ elim actives [ [] ↦ none | row ∷ rows ↦ some (credentials_of row) ]
    ]
      ≡ elim (first_wildcard actives) [
        | some row ↦ some (credentials_of row)
        | none ↦ elim (head actives) [ none ↦ none | some row ↦ some (credentials_of row) ]
      ]
choice_lem [] = refl
choice_lem (row ∷ rows) = refl

-- `resolveForListBuckets` answers with the newest live endpoint for all buckets, or else with the
-- newest live endpoint, and with none exactly if no endpoint is live.
pub resolve_for_list_buckets-ListsBuckets :
    (now : ℕ) (r : R2Registry) → ListsBuckets now r.rows (resolve_for_list_buckets now r)
unfolding resolve_for_list_buckets listing
resolve_for_list_buckets-ListsBuckets now r =
    let rows = newest_first (λ (r : UpstreamR2Row). r.shown.created_at) r.rows in
    let actives = select_where (is_live now) rows in
    subst (ListsBuckets now r.rows) (sym (choice_lem actives))
      (elim (Option-cases (first_where (lists_all now) rows)) [
        | inr (row, found) ↦
            rw (first_wildcard_lem now rows, found)
              (inl (row, listed-IsNewest (lists_all now) r.rows row found, refl))
        | inl no_wildcard ↦
            let without =
              listed-Lacks (lists_all now) r.rows (first_where-Lacks _ rows no_wildcard) in
            elim (Option-cases (first_where (is_live now) rows)) [
              | inl dead ↦
                  rw (first_wildcard_lem now rows, no_wildcard, head_lem now rows, dead)
                    (listed-Lacks (is_live now) r.rows (first_where-Lacks _ rows dead))
              | inr (row, found) ↦
                  rw (first_wildcard_lem now rows, no_wildcard, head_lem now rows, found)
                    (inr (without, (row, listed-IsNewest (is_live now) r.rows row found, refl)))
            ]
      ])
