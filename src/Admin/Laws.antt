-- ===== src/Admin/Laws.antt =====
-- Who may pass the administrators' middleware (src/auth-admin.ts).
use purge_api_gateway.Base.{
  subst, List, [], ◌∷◌, Bool, true, false, ◌&&◌, ◌≤◌, ◌≡◌, ◌↔◌, ◌⊎◌, inl, inr, refl, sym, ap, ◌∙◌,
  map, some_of, Any, Option, none, some, Str, str_eq, str_eq_iff, if◌then◌else◌, arith, and_iff,
}
use mathlib.Core.Bool.{false≢true}
use mathlib.Core.Option.{none-ne-some, some-injective}
use purge_api_gateway.Admin.{
  AdminRole, viewer, operator, admin, role_level, AdminEnv, AdminRequest, Verdict, passes, answers,
  is_set, is_write, require_role, require_role_by_method, parse_groups, matches_group, no_rbac,
  resolve_role, role_verdict, key_verdict, identity_verdict, admin_auth, then_role, admin_route,
}

unfoldable pub is_passed : Verdict → Bool
is_passed (passes role) = true
is_passed (answers status) = false

module _ (trim lower : Str → Str) (same : Str → Str → Bool) where
  -- One of the groups is configured, up to the case of its letters.
  abbrev pub Belongs : List Str → List Str → Type 0
  Belongs configured groups = Any (λ g. Any (λ own. lower own ≡ lower g) groups) configured

  own_iff :
      (g : Str) (groups : List Str)
      → (some_of (λ own. str_eq own (lower g)) (map lower groups) ≡ true)
        ↔ Any (λ own. lower own ≡ lower g) groups
  own_iff g [] = (λ h. absurd (false≢true h), λ h. absurd h)
  own_iff g (own ∷ groups) = ground (arith, own_iff g groups, str_eq_iff (lower own) (lower g))

  matches_group_iff :
      (configured groups : List Str)
      → (matches_group trim lower same configured groups ≡ true) ↔ Belongs configured groups
  unfolding matches_group
  matches_group_iff [] groups = (λ h. absurd (false≢true h), λ h. absurd h)
  matches_group_iff (g ∷ configured) groups =
      ground (arith, matches_group_iff configured groups, own_iff g groups)

  -- What groups must be for a least role: a group of that role or a higher one, or no groups are
  -- configured at all.
  abbrev pub Entitled : AdminRole → AdminEnv → List Str → Type 0
  Entitled least env groups =
      (no_rbac trim lower same env ≡ true)
      ⊎ (Belongs (parse_groups trim lower same env.rbac_admin_groups) groups
          ⊎ (((role_level least ≤ 1)
                × Belongs (parse_groups trim lower same env.rbac_operator_groups) groups)
              ⊎ ((role_level least ≤ 0)
                  × Belongs (parse_groups trim lower same env.rbac_viewer_groups) groups)))

  -- The ladder of `resolveRole`, for the three tests of a group and what they mean.
  ladder_iff :
      (least : AdminRole) (n a o v : Bool) {A O V : Type 0}
      → (a ≡ true) ↔ A
      → (o ≡ true) ↔ O
      → (v ≡ true) ↔ V
      → (is_passed (
            then_role trim lower same
              (role_verdict trim lower same (
                if n
                then some admin
                else if a
                then some admin
                else if o
                then some operator
                else if v
                then some viewer
                else none))
              (require_role least))
          ≡ true)
        ↔ ((n ≡ true) ⊎ (A ⊎ (((role_level least ≤ 1) × O) ⊎ ((role_level least ≤ 0) × V))))
  unfolding is_passed require_role role_level
  ladder_iff viewer n a o v ha ho hv = ground arith
  ladder_iff operator n a o v ha ho hv = ground arith
  ladder_iff admin n a o v ha ho hv = ground arith

  resolve_role_iff :
      (least : AdminRole) (env : AdminEnv) (groups : List Str)
      → (is_passed (
            then_role trim lower same
              (role_verdict trim lower same (resolve_role trim lower same groups env))
              (require_role least))
          ≡ true)
        ↔ Entitled least env groups
  unfolding resolve_role
  resolve_role_iff least env groups =
      let a = matches_group_iff (parse_groups trim lower same env.rbac_admin_groups) groups in
      let o = matches_group_iff (parse_groups trim lower same env.rbac_operator_groups) groups in
      let v = matches_group_iff (parse_groups trim lower same env.rbac_viewer_groups) groups in
      ladder_iff least (no_rbac trim lower same env) _ _ _ a o v

  -- The request carries the key of the administrators, which is not the empty text.
  abbrev pub HasKey : Option Str → Str → Type 0
  HasKey header key =
      (given : Str) × (header ≡ some given) × (is_set (some given) ≡ true) × (same given key ≡ true)

  admin_passes : (least : AdminRole) → is_passed (require_role least admin) ≡ true
  unfolding is_passed require_role role_level
  admin_passes viewer = refl
  admin_passes operator = refl
  admin_passes admin = refl

  key_if_iff :
      (least : AdminRole) (b : Bool)
      → (is_passed (
            then_role trim lower same
              (if b then passes admin else answers 401)
              (require_role least))
          ≡ true)
        ↔ (b ≡ true)
  unfolding is_passed
  key_if_iff least true = (λ _. refl, λ _. admin_passes least)
  key_if_iff least false = (λ h. h, λ h. h)

  key_verdict_iff :
      (least : AdminRole) (header : Option Str) (key : Str)
      → (is_passed (
            then_role trim lower same (key_verdict trim lower same header key) (require_role least))
          ≡ true)
        ↔ HasKey header key
  unfolding key_verdict is_passed
  key_verdict_iff least none key =
      (λ h. absurd (false≢true h), λ (given, e, _, _). absurd (none-ne-some _ e))
  key_verdict_iff least (some header) key =
      let (sound, complete) = key_if_iff least (is_set (some header) && same header key) in
      (
        λ h. let (set, equal) = (and_iff _ _).0 (sound h) in (header, refl, set, equal),
        λ (given, e, set, equal).
            let back : header ≡ given = some-injective _ _ e in
            complete (
              (and_iff _ _).1
                (ap (λ g. is_set (some g)) back ∙ set, ap (λ g. same g key) back ∙ equal)),
      )

  -- Access is set up, and the request has a valid identity with these groups.
  abbrev pub Identified : AdminEnv → AdminRequest → List Str → Type 0
  Identified env req groups =
      (is_set env.cf_access_team_name && is_set env.cf_access_aud ≡ true)
      × (req.identity ≡ some groups)

  -- Whom a route with a least role admits: an identity whose groups are entitled, and only where there
  -- is none, the key.
  abbrev pub Admitted : AdminRole → AdminEnv → AdminRequest → Type 0
  Admitted least env req =
      ((groups : List Str) × Identified env req groups × Entitled least env groups)
      ⊎ ((¬ ((groups : List Str) × Identified env req groups))
          × HasKey req.admin_key_header env.admin_key)

  admin_auth_iff :
      (least : AdminRole) (env : AdminEnv) (req : AdminRequest)
      → (is_passed
            (then_role trim lower same (admin_auth trim lower same env req) (require_role least))
          ≡ true)
        ↔ Admitted least env req
  unfolding admin_auth identity_verdict
  admin_auth_iff least env req =
      go (is_set env.cf_access_team_name && is_set env.cf_access_aud) req.identity refl refl
    where
      by_key :
          (¬ ((groups : List Str) × Identified env req groups))
          → (is_passed (
                then_role trim lower same
                  (key_verdict trim lower same req.admin_key_header env.admin_key)
                  (require_role least))
              ≡ true)
            ↔ Admitted least env req
      by_key n =
          let (sound, complete) = key_verdict_iff least req.admin_key_header env.admin_key in
          (
            λ h. inr (n, sound h),
            λ h. elim h [ inl (groups, i, _) ↦ absurd (n (groups, i)) | inr (_, k) ↦ complete k ],
          )

      go :
          (on : Bool) (identity : Option (List Str))
          → is_set env.cf_access_team_name && is_set env.cf_access_aud ≡ on
          → req.identity ≡ identity
          → (is_passed (
                then_role trim lower same
                  (if on
                    then identity_verdict trim lower same identity env req
                    else key_verdict trim lower same req.admin_key_header env.admin_key)
                  (require_role least))
              ≡ true)
            ↔ Admitted least env req
      go false identity off i = by_key (λ (groups, (on, _)). false≢true (sym off ∙ on))
      go true none on i = by_key (λ (groups, (_, e)). none-ne-some _ (sym i ∙ e))
      go true (some groups) on i =
          let (sound, complete) = resolve_role_iff least env groups in
          (
            λ h. inl (groups, (on, i), sound h),
            λ h. elim h [
              | inl (own, (_, e), entitled) ↦
                  complete
                    (subst (Entitled least env) (sym (some-injective _ _ (sym i ∙ e))) entitled)
              | inr (n, _) ↦ absurd (n (groups, (on, i)))
            ],
          )

  -- A route behind `adminAuth` and `requireRoleByMethod` calls its handler exactly for whom its least
  -- role admits, which is the role of writes for every method but GET and HEAD: a valid identity
  -- with a group of that role or a higher one, or any valid identity where no groups are configured;
  -- without a valid identity, the administrators' key. A valid identity without such a group is
  -- refused though it has the key.
  pub admin_route_iff :
      (read write : AdminRole) (env : AdminEnv) (req : AdminRequest)
      → (is_passed (admin_route trim lower same read write env req) ≡ true)
        ↔ Admitted (if is_write req.method then write else read) env req
  unfolding admin_route require_role_by_method
  admin_route_iff read write env req =
      admin_auth_iff (if is_write req.method then write else read) env req
