-- ===== src/Credentials/Ordered.antt =====
-- ORDER BY created_at DESC: rows from the newest on. Of equal times the order of the table is kept.
pub mod Laws
use purge_api_gateway.Base.{List, [], ◌∷◌, ℕ, leb, if◌then◌else◌}

module _ {T : Type 0} (created : T → ℕ) where
  unfoldable pub place : T → List T → List T
  place c [] = c ∷ []
  place c (d ∷ ds) =
      let later = place c ds in if leb (created d) (created c) then c ∷ d ∷ ds else d ∷ later

  unfoldable pub newest_first : List T → List T
  newest_first [] = []
  newest_first (c ∷ cs) = place c (newest_first cs)
