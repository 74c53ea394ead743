-- ===== src/Admin.antt =====
-- `resolveRole`, `adminAuth`, `requireRole` and `requireRoleByMethod` of src/auth-admin.ts. The
-- methods `trim` and `toLowerCase` of texts and the comparison `timingSafeEqual`, which is made of
-- Web Crypto, are parameters; so is what `validateAccessJwt` makes of a request: the field
-- `identity`, the groups of a valid token. A middleware either calls `next` or answers a status.
pub mod Laws
mod Tests
use purge_api_gateway.Base.{
  split_on, List, [], ◌∷◌, Bool, true, false, not, ◌&&◌, ◌||◌, ℕ, ltb, ◌==◌, map, some_of, Option,
  none, some, Str, str_eq, lit, if◌then◌else◌,
}

pub data AdminRole : Type 0 where
  viewer operator admin : AdminRole

unfoldable pub role_level : AdminRole → ℕ
role_level viewer = 0
role_level operator = 1
role_level admin = 2

pub record AdminEnv : Type 0 where
  pub cf_access_team_name : Option Str
  pub cf_access_aud : Option Str
  pub rbac_admin_groups : Option Str
  pub rbac_operator_groups : Option Str
  pub rbac_viewer_groups : Option Str
  pub admin_key : Str

pub record AdminRequest : Type 0 where
  pub method : Str
  pub admin_key_header : Option Str
  pub identity : Option (List Str)

-- `next` is called with the role, or the response has a status.
pub data Verdict : Type 0 where
  passes : AdminRole → Verdict
  answers : ℕ → Verdict

-- `filter(Boolean)`
unfoldable pub drop_empty : List Str → List Str
drop_empty [] = []
drop_empty ([] ∷ parts) = drop_empty parts
drop_empty ((c ∷ s) ∷ parts) = (c ∷ s) ∷ drop_empty parts

abbrev pub is_empty : List Str → Bool
is_empty [] = true
is_empty (s ∷ strs) = false

abbrev pub is_set : Option Str → Bool
is_set none = false
is_set (some []) = false
is_set (some (c ∷ s)) = true

-- Behind `adminAuth` the role is always set, so the default 'viewer' of `c.get('adminRole')` is left
-- out.
unfoldable pub require_role : AdminRole → AdminRole → Verdict
require_role least role =
    if ltb (role_level role) (role_level least) then answers 403 else passes role

unfoldable pub is_write : Str → Bool
is_write method = not (str_eq method (lit "GET")) && not (str_eq method (lit "HEAD"))

unfoldable pub require_role_by_method : AdminRole → AdminRole → Str → AdminRole → Verdict
require_role_by_method read write method role =
    require_role (if is_write method then write else read) role

module _ (trim lower : Str → Str) (same : Str → Str → Bool) where
  unfoldable pub parse_groups : Option Str → List Str
  parse_groups none = []
  parse_groups (some []) = []
  parse_groups (some (c ∷ s)) = drop_empty (map trim (split_on b',' (c ∷ s)))

  -- `configured.some((g) => lowerGroups.includes(g.toLowerCase()))`
  unfoldable pub matches_group : List Str → List Str → Bool
  matches_group configured groups =
      some_of (λ g. some_of (λ own. str_eq own (lower g)) (map lower groups)) configured

  abbrev pub no_rbac : AdminEnv → Bool
  no_rbac env =
      is_empty (parse_groups env.rbac_admin_groups)
      && (is_empty (parse_groups env.rbac_operator_groups)
          && is_empty (parse_groups env.rbac_viewer_groups))

  unfoldable pub resolve_role : List Str → AdminEnv → Option AdminRole
  resolve_role groups env =
      if no_rbac env
      then some admin
      else if matches_group (parse_groups env.rbac_admin_groups) groups
      then some admin
      else if matches_group (parse_groups env.rbac_operator_groups) groups
      then some operator
      else if matches_group (parse_groups env.rbac_viewer_groups) groups
      then some viewer
      else none

  abbrev pub role_verdict : Option AdminRole → Verdict
  role_verdict none = answers 403
  role_verdict (some role) = passes role

  -- The header X-Admin-Key, where there is no identity.
  unfoldable pub key_verdict : Option Str → Str → Verdict
  key_verdict none key = answers 401
  key_verdict (some header) key =
      if is_set (some header) && same header key then passes admin else answers 401

  unfoldable pub identity_verdict : Option (List Str) → AdminEnv → AdminRequest → Verdict
  identity_verdict none env req = key_verdict req.admin_key_header env.admin_key
  identity_verdict (some groups) env req = role_verdict (resolve_role groups env)

  unfoldable pub admin_auth : AdminEnv → AdminRequest → Verdict
  admin_auth env req =
      if is_set env.cf_access_team_name && is_set env.cf_access_aud
      then identity_verdict req.identity env req
      else key_verdict req.admin_key_header env.admin_key

  -- A route behind `adminAuth` and `requireRoleByMethod`.
  abbrev pub then_role : Verdict → (AdminRole → Verdict) → Verdict
  then_role (passes role) next = next role
  then_role (answers status) next = answers status

  unfoldable pub admin_route : AdminRole → AdminRole → AdminEnv → AdminRequest → Verdict
  admin_route read write env req =
      then_role (admin_auth env req) (require_role_by_method read write req.method)
