-- ===== src/Credentials/Keys/Listing.antt =====
-- `listKeys` of src/iam.ts, and what it shows.
use purge_api_gateway.Base.{
  List, Bool, true, false, if◌then◌else◌, not, ◌&&◌, ℕ, ◌≡◌, ◌↔◌, Option, none, some, Str, str_eq,
  [],
}
use purge_api_gateway.Policy.Runtime.{Runtime}
use purge_api_gateway.Credentials.Table.{select_where}
use purge_api_gateway.Credentials.Manager.{Manager, has_run_out}
use purge_api_gateway.Credentials.Ordered.{newest_first}
use purge_api_gateway.Credentials.Ordered.Laws.{
  Has, NewestFirst, newest_first_iff, newest_first-NewestFirst, select_where_iff,
}
use purge_api_gateway.Credentials.Keys.{ApiKey}

-- The optional filter on the status.
pub data KeyFilter : Type 0 where
  any_status only_active only_revoked : KeyFilter

-- `zone_id = ?`, unless there is no zone or an empty one.
unfoldable pub is_of_zone : Option Str → ApiKey → Bool
is_of_zone none key = true
is_of_zone (some zone_id) key =
    if str_eq zone_id []
    then true
    else elim key.zone_id [ none ↦ false | some z ↦ str_eq z zone_id ]

unfoldable pub meets_filter : KeyFilter → ℕ → ApiKey → Bool
meets_filter any_status now key = true
meets_filter only_active now key = not key.revoked && not (has_run_out key.expires_at now)
meets_filter only_revoked now key = key.revoked

module _ (js : Runtime) where
  unfoldable pub list_keys : ℕ → Option Str → KeyFilter → Manager js ApiKey → List ApiKey
  list_keys now zone_id filter m =
      newest_first (λ (k : ApiKey). k.created_at)
        (select_where (λ key. is_of_zone zone_id key && meets_filter filter now key) m.table)

  -- `listKeys` shows exactly the keys of the table that meet the filters, the newest first.
  pub list_keys-NewestFirst :
      (now : ℕ) (zone_id : Option Str) (filter : KeyFilter) (m : Manager js ApiKey)
      → NewestFirst (λ k. k.created_at) (list_keys now zone_id filter m)
        × ((key : ApiKey)
            → Has (list_keys now zone_id filter m) key ↔ (
                Has m.table key × ((is_of_zone zone_id key && meets_filter filter now key) ≡ true)))
  unfolding list_keys
  list_keys-NewestFirst now zone_id filter m = (
    newest_first-NewestFirst (λ (k : ApiKey). k.created_at) _,
    λ key.
        let (back, forth) = newest_first_iff (λ (k : ApiKey). k.created_at) _ key in
        let (sound, complete) = select_where_iff _ m.table key in
        (λ h. sound (back h), λ h. forth (complete h)),
  )
