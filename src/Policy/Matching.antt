-- ===== src/Policy/Matching.antt =====
-- `matchesAction` and `matchesResource` of src/policy-engine.ts, and what they accept.
use purge_api_gateway.Base.{
  List, [], ◌∷◌, ◌++◌, Bool, true, false, ◌||◌, ◌&&◌, ◌≡◌, sym, ap, ◌∙◌, ◌↔◌, inl, inr, Str, lit,
  str_eq, str_eq_iff, starts_with, starts_with_iff, ends_with, ends_with_iff, drop_last,
  drop_last-append, Any, append_assoc, Bool-cases, if◌then◌else◌, and_iff, arith,
}

-- The test of one pattern in `matchesAction`.
unfoldable pub action_matches : Str → Str → Bool
action_matches action pattern =
    if str_eq pattern (lit "*") || str_eq pattern action
    then true
    else ends_with pattern (lit ":*") && starts_with action (drop_last pattern)

unfoldable pub matches_action : List Str → Str → Bool
matches_action [] action = false
matches_action (pattern ∷ patterns) action =
    if action_matches action pattern then true else matches_action patterns action

-- The test of one pattern in `matchesResource`.
unfoldable pub resource_matches : Str → Str → Bool
resource_matches resource pattern =
    if str_eq pattern (lit "*") || str_eq pattern resource
    then true
    else if ends_with pattern (lit "*") && starts_with resource (drop_last pattern)
    then true
    else starts_with resource (pattern ++ lit "/")

unfoldable pub matches_resource : List Str → Str → Bool
matches_resource [] resource = false
matches_resource (pattern ∷ patterns) resource =
    if resource_matches resource pattern then true else matches_resource patterns resource

-- An action pattern covers everything, itself, or the actions of its service.
pub data CoversAction (action : Str) : Str → Type 0 where
  star : {p : Str} → p ≡ lit "*" → CoversAction action p
  exact : {p : Str} → p ≡ action → CoversAction action p
  service :
      {p : Str} (name rest : Str)
      → p ≡ name ++ lit ":*"
      → action ≡ (name ++ lit ":") ++ rest
      → CoversAction action p

-- A resource pattern covers everything, itself, what has its prefix, or its children.
pub data CoversResource (resource : Str) : Str → Type 0 where
  star : {p : Str} → p ≡ lit "*" → CoversResource resource p
  exact : {p : Str} → p ≡ resource → CoversResource resource p
  stem :
      {p : Str} (front rest : Str)
      → p ≡ front ++ lit "*"
      → resource ≡ front ++ rest
      → CoversResource resource p
  parent : {p : Str} (rest : Str) → resource ≡ (p ++ lit "/") ++ rest → CoversResource resource p

drop_last-service : (name : Str) → drop_last (name ++ lit ":*") ≡ name ++ lit ":"
drop_last-service name =
    ap drop_last (sym (append_assoc name (lit ":") (lit "*")))
    ∙ drop_last-append (name ++ lit ":") b'*'

action_matches_sound : (action p : Str) → action_matches action p ≡ true → CoversAction action p
unfolding action_matches
action_matches_sound action p h = elim (Bool-cases (str_eq p (lit "*"))) [
  | inl e ↦ CoversAction.star ((str_eq_iff _ _).0 e)
  | inr ne ↦ elim (Bool-cases (str_eq p action)) [
    | inl e ↦ CoversAction.exact ((str_eq_iff _ _).0 e)
    | inr ne' ↦
        let (ends, starts) = (and_iff _ _).0 (rw (ne, ne') at h) in
        let (name, e) = (ends_with_iff p (lit ":*")).0 ends in
        let (rest, e') = (starts_with_iff action (drop_last p)).0 starts in
        CoversAction.service name rest e
          (e' ∙ ap (λ q. q ++ rest) (ap drop_last e ∙ drop_last-service name))
  ]
]

action_matches_complete : (action p : Str) → CoversAction action p → action_matches action p ≡ true
unfolding action_matches
action_matches_complete action p (CoversAction.star e) = rw ((str_eq_iff _ _).1 e)
action_matches_complete action p (CoversAction.exact e) = ground (arith, (str_eq_iff _ _).1 e)
action_matches_complete action p (CoversAction.service name rest e e') = ground (
  arith,
  (ends_with_iff p (lit ":*")).1 (name, e),
  (starts_with_iff action (drop_last p)).1
      (rest, e' ∙ ap (λ q. q ++ rest) (sym (ap drop_last e ∙ drop_last-service name))),
)

resource_matches_sound :
    (resource p : Str) → resource_matches resource p ≡ true → CoversResource resource p
unfolding resource_matches
resource_matches_sound resource p h = elim (Bool-cases (str_eq p (lit "*"))) [
  | inl e ↦ CoversResource.star ((str_eq_iff _ _).0 e)
  | inr ne ↦ elim (Bool-cases (str_eq p resource)) [
    | inl e ↦ CoversResource.exact ((str_eq_iff _ _).0 e)
    | inr ne' ↦ elim (Bool-cases (ends_with p (lit "*") && starts_with resource (drop_last p))) [
      | inl both ↦
          let (ends, starts) = (and_iff _ _).0 both in
          let (front, e) = (ends_with_iff p (lit "*")).0 ends in
          let (rest, e') = (starts_with_iff resource (drop_last p)).0 starts in
          CoversResource.stem front rest e
            (e' ∙ ap (λ q. q ++ rest) (ap drop_last e ∙ drop_last-append front b'*'))
      | inr neither ↦
          let (rest, e) =
            (starts_with_iff resource (p ++ lit "/")).0 (rw (ne, ne', neither) at h) in
          CoversResource.parent rest e
    ]
  ]
]

resource_matches_complete :
    (resource p : Str) → CoversResource resource p → resource_matches resource p ≡ true
unfolding resource_matches
resource_matches_complete resource p (CoversResource.star e) = rw ((str_eq_iff _ _).1 e)
resource_matches_complete resource p (CoversResource.exact e) = ground (arith, (str_eq_iff _ _).1 e)
resource_matches_complete resource p (CoversResource.stem front rest e e') = ground (
  arith,
  (ends_with_iff p (lit "*")).1 (front, e),
  (starts_with_iff resource (drop_last p)).1
      (rest, e' ∙ ap (λ q. q ++ rest) (sym (ap drop_last e ∙ drop_last-append front b'*'))),
)
resource_matches_complete resource p (CoversResource.parent rest e) =
    ground (arith, (starts_with_iff resource (p ++ lit "/")).1 (rest, e))

-- A list of action patterns accepts an action exactly when one of them covers it: `*`, the action
-- itself, or `name:*` where the action begins with `name:`. Cases are told apart.
pub matches_action_iff :
    (patterns : List Str) (action : Str)
    → (matches_action patterns action ≡ true) ↔ Any (CoversAction action) patterns
unfolding matches_action
matches_action_iff [] action = (λ h. cc, λ h. absurd h)
matches_action_iff (p ∷ ps) action = (
  λ h. elim (Bool-cases (action_matches action p)) [
    | inl e ↦ inl (action_matches_sound action p e)
    | inr ne ↦ inr ((matches_action_iff ps action).0 (rw ne at h))
  ],
  λ h. elim h [
    | inl c ↦ rw (action_matches_complete action p c)
    | inr later ↦ ground (arith, (matches_action_iff ps action).1 later)
  ],
)

-- A list of resource patterns accepts a resource exactly when one of them covers it: `*`, the
-- resource itself, `front*` where the resource begins with `front`, or a parent of the resource. Cases
-- are told apart.
pub matches_resource_iff :
    (patterns : List Str) (resource : Str)
    → (matches_resource patterns resource ≡ true) ↔ Any (CoversResource resource) patterns
unfolding matches_resource
matches_resource_iff [] resource = (λ h. cc, λ h. absurd h)
matches_resource_iff (p ∷ ps) resource = (
  λ h. elim (Bool-cases (resource_matches resource p)) [
    | inl e ↦ inl (resource_matches_sound resource p e)
    | inr ne ↦ inr ((matches_resource_iff ps resource).0 (rw ne at h))
  ],
  λ h. elim h [
    | inl c ↦ rw (resource_matches_complete resource p c)
    | inr later ↦ ground (arith, (matches_resource_iff ps resource).1 later)
  ],
)
