-- ===== src/Credentials/PurgeContexts/Laws.antt =====
-- The contexts of a purge body name exactly its targets, whatever the request fields hold.
use purge_api_gateway.Base.{
  List, [], ◌∷◌, ◌++◌, map, Bool, true, false, ◌≡◌, refl, ◌∙◌, Option, none, some, Str, str_eq,
  str_eq_iff, lit, lookup, insert, lookup-insert, if◌then◌else◌, arith,
}
use purge_api_gateway.Policy.Types.{FieldValue, Fields, RequestContext}
use purge_api_gateway.Credentials.PurgeContexts.{
  PurgeFile, PurgeBody, ParsedUrl, file_url, file_headers, set_each, url_fields, file_context,
  item_context, everything_context, purge_body_to_contexts, slice_one,
}

-- A target: the action, the field that names it, and its value.
abbrev pub Target : Type 0
Target = Str × Str × FieldValue

abbrev target_of : Str → Str → Str → Target
target_of action field value = (action, field, FieldValue.text value)

-- The targets that a body lists, in the order files, hosts, tags, prefixes; or everything.
pub targets : PurgeBody → List Target
targets body =
    if body.purge_everything
    then (lit "purge:everything", lit "purge_everything", FieldValue.flag true) ∷ []
    else map (λ f. target_of (lit "purge:url") (lit "url") (file_url f)) body.files
      ++ (map (target_of (lit "purge:host") (lit "host")) body.hosts
          ++ (map (target_of (lit "purge:tag") (lit "tag")) body.tags
              ++ map (target_of (lit "purge:prefix") (lit "prefix")) body.prefixes))

set_each_other :
    (front : Str) (pairs : List (Str × Str)) (fields : Fields) (key : Str)
    → ((name : Str) → str_eq (front ++ name) key ≡ false)
    → lookup key (set_each front pairs fields) ≡ lookup key fields
unfolding set_each
set_each_other front [] fields key h = refl
set_each_other front ((name, value) ∷ pairs) fields key h =
    set_each_other front pairs (insert (front ++ name) (FieldValue.text value) fields) key h
    ∙ ground (arith, lookup-insert (front ++ name) key (FieldValue.text value) fields, h name)

insert_other :
    (name : Str) (value : FieldValue) (fields : Fields) (key : Str)
    → str_eq name key ≡ false
    → lookup key (insert name value fields) ≡ lookup key fields
insert_other name value fields key h = ground (arith, lookup-insert name key value fields)

either :
    {r : Option FieldValue} (b : Bool) (x y : Fields) (key : Str)
    → lookup key x ≡ r
    → lookup key y ≡ r
    → lookup key (if b then x else y) ≡ r
either true x y key p q = p
either false x y key p q = q

url_fields_url :
    (url : Option ParsedUrl) (fields : Fields)
    → lookup (lit "url") (url_fields url fields) ≡ lookup (lit "url") fields
unfolding url_fields str_eq
url_fields_url none fields = refl
url_fields_url (some url) fields = either (str_eq url.search []) _ _ (lit "url") based (
    set_each_other (lit "url.query.") url.search_params _ (lit "url") (λ name. refl)
    ∙ (insert_other (lit "url.query") (FieldValue.text (slice_one url.search)) _ (lit "url") refl
        ∙ based))
  where
    based :
        lookup (lit "url") (
          insert
            (lit "url.path")
            (FieldValue.text url.pathname)
            (insert (lit "host") (FieldValue.text url.hostname) fields))
        ≡ lookup (lit "url") fields
    based =
        insert_other (lit "url.path") (FieldValue.text url.pathname) _ (lit "url") refl
        ∙ insert_other (lit "host") (FieldValue.text url.hostname) fields (lit "url") refl

lookup-insert_self :
    (key : Str) (value : FieldValue) (fields : Fields)
    → lookup key (insert key value fields) ≡ some value
lookup-insert_self key value fields =
    ground (arith, lookup-insert key key value fields, str_eq_iff key key)

-- A context names a target of a zone: its action, the zone, and the target's own field.
pub record Names (zone : Str) (ctx : RequestContext) (target : Target) : Type 0 where
  pub action : ctx.action ≡ target.0
  pub resource : ctx.resource ≡ lit "zone:" ++ zone
  pub field : lookup target.1 ctx.fields ≡ some target.2

-- The contexts name the targets one by one, in order.
abbrev pub NameAll : Str → List RequestContext → List Target → Type 0
NameAll zone [] [] = Unit
NameAll zone (ctx ∷ ctxs) (target ∷ rest) = Names zone ctx target × NameAll zone ctxs rest
NameAll zone _ _ = ⊥

NameAll-append :
    (zone : Str) (xs ys : List RequestContext) (ts us : List Target)
    → NameAll zone xs ts
    → NameAll zone ys us
    → NameAll zone (xs ++ ys) (ts ++ us)
NameAll-append zone [] ys [] us h k = k
NameAll-append zone (x ∷ xs) ys (t ∷ ts) us (n, h) k = (n, NameAll-append zone xs ys ts us h k)
NameAll-append zone [] ys (t ∷ ts) us h k = absurd h
NameAll-append zone (x ∷ xs) ys [] us h k = absurd h

NameAll-map :
    {A : Type 0} (zone : Str) (f : A → RequestContext) (t : A → Target) (xs : List A)
    → ((x : A) → Names zone (f x) (t x))
    → NameAll zone (map f xs) (map t xs)
NameAll-map zone f t [] h = tt
NameAll-map zone f t (x ∷ xs) h = (h x, NameAll-map zone f t xs h)

module _ (parse_url : Str → Option ParsedUrl) (zone : Str) (extra : Fields) where
  file_context-Names :
      (file : PurgeFile)
      → Names zone
          (file_context parse_url zone extra file)
          (target_of (lit "purge:url") (lit "url") (file_url file))
  unfolding file_context str_eq
  file_context-Names file = record {
    action = refl;
    resource = refl;
    field =
        set_each_other (lit "header.") (file_headers file) _ (lit "url") (λ name. refl)
        ∙ (url_fields_url (parse_url (file_url file)) _
            ∙ lookup-insert_self (lit "url") (FieldValue.text (file_url file)) extra);
  }

  item_context-Names :
      (action field value : Str)
      → Names zone
          (item_context parse_url zone extra action field value)
          (target_of action field value)
  unfolding item_context
  item_context-Names action field value = record {
    action = refl;
    resource = refl;
    field = lookup-insert_self field (FieldValue.text value) extra;
  }

  -- Whatever the request fields, the URL parser and the headers hold, the contexts of a purge body
  -- name its targets one by one and no others, each on the zone of the request and under the field
  -- that conditions read: every file, host, tag and prefix in order, or everything alone.
  pub purge_body_to_contexts-NameAll :
      (body : PurgeBody)
      → NameAll zone (purge_body_to_contexts parse_url zone extra body) (targets body)
  unfolding purge_body_to_contexts everything_context targets
  purge_body_to_contexts-NameAll body =
      whole body.purge_everything _ _ _ _
        (
          record {
            action = refl;
            resource = refl;
            field = lookup-insert_self (lit "purge_everything") (FieldValue.flag true) extra;
          },
          tt,
        )
        (NameAll-append zone _ _ _ _ (NameAll-map zone _ _ body.files file_context-Names) (
          NameAll-append zone _ _ _ _
            (NameAll-map zone _ _ body.hosts (item_context-Names (lit "purge:host") (lit "host")))
            (NameAll-append zone _ _ _ _
              (NameAll-map zone _ _ body.tags (item_context-Names (lit "purge:tag") (lit "tag")))
              (NameAll-map zone _ _ body.prefixes
                (item_context-Names (lit "purge:prefix") (lit "prefix"))))))
    where
      whole :
          (b : Bool) (xs ys : List RequestContext) (ts us : List Target)
          → NameAll zone xs ts
          → NameAll zone ys us
          → NameAll zone (if b then xs else ys) (if b then ts else us)
      whole true xs ys ts us h k = h
      whole false xs ys ts us h k = k
