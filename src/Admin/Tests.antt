-- ===== src/Admin/Tests.antt =====
-- The theorem on administrators at a concrete environment.
use purge_api_gateway.Base.{[], ◌∷◌, true, ◌≡◌, ◌↔◌, some, none, Str, str_eq, lit, if◌then◌else◌}
use purge_api_gateway.Admin.{viewer, operator, AdminEnv, AdminRequest, admin_route, is_write}
use purge_api_gateway.Admin.Laws.{is_passed, Admitted, admin_route_iff}

abbrev unchanged : Str → Str
unchanged s = s

abbrev env : AdminEnv
env = record {
  cf_access_team_name = some (lit "team");
  cf_access_aud = some (lit "aud");
  rbac_admin_groups = some (lit "root");
  rbac_operator_groups = some (lit "ops,sre");
  rbac_viewer_groups = none;
  admin_key = lit "k";
}

abbrev req : AdminRequest
req = record { method = lit "POST"; admin_key_header = none; identity = some (lit "sre" ∷ []) }

admin_route_iff_example :
    (is_passed (admin_route unchanged unchanged str_eq viewer operator env req) ≡ true)
    ↔ Admitted unchanged unchanged str_eq (if is_write req.method then operator else viewer) env req
admin_route_iff_example = admin_route_iff unchanged unchanged str_eq viewer operator env req
