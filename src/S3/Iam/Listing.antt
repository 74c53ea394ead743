-- ===== src/S3/Iam/Listing.antt =====
-- What `listCredentials` of src/s3/iam.ts shows.
use purge_api_gateway.Base.{
  List, [], ◌∷◌, true, ℕ, ◌≤◌, ◌≡◌, inl, inr, refl, ap, ◌∙◌, ◌↔◌, Str, lit, map, All, Option,
}
use purge_api_gateway.Policy.Runtime.{Runtime}
use purge_api_gateway.Policy.Types.{PolicyDocument}
use purge_api_gateway.Credentials.Table.{select_where}
use purge_api_gateway.Credentials.Manager.{Manager}
use purge_api_gateway.Credentials.Ordered.{newest_first}
use purge_api_gateway.Credentials.Ordered.Laws.{
  Has, NewestFirst, newest_first_iff, newest_first-NewestFirst, select_where_iff,
}
use purge_api_gateway.S3.Iam.{S3Credential, StatusFilter, redact, has_status, list_credentials}

All-redact :
    (limit : ℕ) (rows : List S3Credential)
    → All (λ d. d.created_at ≤ limit) rows
    → All (λ d. d.created_at ≤ limit) (map redact rows)
unfolding redact
All-redact limit [] h = h
All-redact limit (row ∷ rows) (first, rest) = (first, All-redact limit rows rest)

redact-NewestFirst :
    (rows : List S3Credential)
    → NewestFirst (λ (c : S3Credential). c.created_at) rows
    → NewestFirst (λ (c : S3Credential). c.created_at) (map redact rows)
unfolding redact
redact-NewestFirst [] h = h
redact-NewestFirst (row ∷ rows) (first, rest) =
    (All-redact row.created_at rows first, redact-NewestFirst rows rest)

redacted : (rows : List S3Credential) → All (λ c. c.secret_access_key ≡ lit "***") (map redact rows)
unfolding redact
redacted [] = tt
redacted (row ∷ rows) = (refl, redacted rows)

-- A row shows up, redacted.
ShowsUp : List S3Credential → S3Credential → Type 0
ShowsUp rows c = (row : S3Credential) × Has rows row × (redact row ≡ c)

map-redact_iff :
    (rows : List S3Credential) (c : S3Credential) → Has (map redact rows) c ↔ ShowsUp rows c
unfolding ShowsUp
map-redact_iff [] c = (λ h. absurd h, λ (row, h, e). absurd h)
map-redact_iff (row ∷ rows) c =
    let (sound, complete) = map-redact_iff rows c in
    (
      λ h. elim h [
        | inl here ↦ (row, inl refl, here)
        | inr there ↦ let (r, k, e) = sound there in (r, inr k, e)
      ],
      λ (r, k, e). elim k [
        | inl here ↦ inl (ap redact here ∙ e)
        | inr there ↦ inr (complete (r, there, e))
      ],
    )

module _ (js : Runtime) (parse : Str → Option PolicyDocument) (stringify : PolicyDocument → Str)
    (ttl : ℕ) where
  -- What a list of credentials must be: exactly the rows of the filter with their secrets hidden,
  -- the newest first.
  pub record Shown (filter : StatusFilter) (now : ℕ) (table cs : List S3Credential) : Type 0 where
    pub hidden : All (λ c. c.secret_access_key ≡ lit "***") cs
    pub ordered : NewestFirst (λ (c : S3Credential). c.created_at) cs
    pub complete :
        (c : S3Credential)
        → Has cs c ↔ (
            (row : S3Credential) × Has table row
            × (has_status filter now row ≡ true)
            × (redact row ≡ c))

  -- `listCredentials` returns exactly the rows that the filter meets, each with its secret hidden,
  -- in the order of creation from the newest on.
  pub list_credentials-Shown :
      (filter : StatusFilter) (now : ℕ) (m : Manager js S3Credential)
      → Shown filter now m.table (list_credentials js parse stringify ttl filter now m)
  unfolding list_credentials ShowsUp
  list_credentials-Shown filter now m =
      let chosen = select_where (has_status filter now) m.table in
      record {
        hidden = redacted (newest_first (λ (c : S3Credential). c.created_at) chosen);
        ordered =
            redact-NewestFirst _
              (newest_first-NewestFirst (λ (c : S3Credential). c.created_at) chosen);
        complete = λ c.
            let (sound, back) =
              map-redact_iff (newest_first (λ (c : S3Credential). c.created_at) chosen) c in
            (
              λ h.
                  let (row, k, e) = sound h in
                  let (there, met) =
                    (select_where_iff (has_status filter now) m.table row).0
                      ((newest_first_iff (λ (c : S3Credential). c.created_at) chosen row).0 k) in
                  (row, there, met, e),
              λ (row, there, met, e). back (
                row,
                (newest_first_iff (λ (c : S3Credential). c.created_at) chosen row).1
                    ((select_where_iff (has_status filter now) m.table row).1 (there, met)),
                e,
              ),
            );
      }
