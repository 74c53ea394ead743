-- ===== src/Credentials/PurgeContexts.antt =====
-- `purgeBodyToContexts` and `formatDeniedContext` of src/iam.ts. `new URL(url)` is the parameter
-- `parse_url`; `none` stands for the TypeError that it throws.
pub mod Laws
use purge_api_gateway.Base.{
  List, [], ◌∷◌, ◌++◌, map, Bool, true, false, not, ◌&&◌, Option, none, some, Str, str_eq, lit,
  lookup, insert, if◌then◌else◌,
}
use purge_api_gateway.Policy.Types.{FieldValue, Fields, RequestContext}
use purge_api_gateway.Policy.Conditions.{text_of_field}

-- A member of `files`: a URL, or an object with one and perhaps headers.
pub data PurgeFile : Type 0 where
  plain : Str → PurgeFile
  custom : Str → List (Str × Str) → PurgeFile

-- A missing list and an empty one are read alike.
pub record PurgeBody : Type 0 where
  pub files : List PurgeFile
  pub hosts : List Str
  pub tags : List Str
  pub prefixes : List Str
  pub purge_everything : Bool

pub record ParsedUrl : Type 0 where
  pub hostname : Str
  pub pathname : Str
  -- `search` with its question mark; empty if there is none.
  pub search : Str
  pub search_params : List (Str × Str)

abbrev pub file_url : PurgeFile → Str
file_url (plain url) = url
file_url (custom url headers) = url

abbrev pub file_headers : PurgeFile → List (Str × Str)
file_headers (plain url) = []
file_headers (custom url headers) = headers

abbrev pub slice_one : Str → Str
slice_one [] = []
slice_one (c ∷ s) = s

-- `fields[prefix + name] = value` for each pair, in order.
unfoldable pub set_each : Str → List (Str × Str) → Fields → Fields
set_each front [] fields = fields
set_each front ((name, value) ∷ pairs) fields =
    set_each front pairs (insert (front ++ name) (FieldValue.text value) fields)

unfoldable pub url_fields : Option ParsedUrl → Fields → Fields
url_fields none fields = fields
url_fields (some url) fields =
    let base =
      insert (lit "url.path") (FieldValue.text url.pathname)
        (insert (lit "host") (FieldValue.text url.hostname) fields) in
    if str_eq url.search []
    then base
    else set_each (lit "url.query.") url.search_params
        (insert (lit "url.query") (FieldValue.text (slice_one url.search)) base)

module _ (parse_url : Str → Option ParsedUrl) (zone : Str) (extra : Fields) where
  abbrev pub zone_resource : Str
  zone_resource = lit "zone:" ++ zone

  unfoldable pub file_context : PurgeFile → RequestContext
  file_context file = record {
    action = lit "purge:url";
    resource = zone_resource;
    fields = set_each (lit "header.") (file_headers file) (
        url_fields (parse_url (file_url file))
          (insert (lit "url") (FieldValue.text (file_url file)) extra));
  }

  unfoldable pub item_context : Str → Str → Str → RequestContext
  item_context action field value = record {
    action = action;
    resource = zone_resource;
    fields = insert field (FieldValue.text value) extra;
  }

  unfoldable pub everything_context : RequestContext
  everything_context = record {
    action = lit "purge:everything";
    resource = zone_resource;
    fields = insert (lit "purge_everything") (FieldValue.flag true) extra;
  }

  unfoldable pub purge_body_to_contexts : PurgeBody → List RequestContext
  purge_body_to_contexts body =
      if body.purge_everything
      then everything_context ∷ []
      else map file_context body.files
        ++ (map (item_context (lit "purge:host") (lit "host")) body.hosts
            ++ (map (item_context (lit "purge:tag") (lit "tag")) body.tags
                ++ map (item_context (lit "purge:prefix") (lit "prefix")) body.prefixes))

-- `${ctx.fields[name] ?? 'unknown'}`
abbrev pub field_or_unknown : Option FieldValue → Str
field_or_unknown none = lit "unknown"
field_or_unknown (some value) = text_of_field value

-- `typeof ctx.fields.url === 'string' ? ctx.fields.url : 'unknown-url'`
abbrev pub url_or_unknown : Option FieldValue → Str
url_or_unknown (some (FieldValue.text url)) = url
url_or_unknown _ = lit "unknown-url"

unfoldable pub format_denied_context : RequestContext → Str
format_denied_context ctx =
    if str_eq ctx.action (lit "purge:url")
    then url_or_unknown (lookup (lit "url") ctx.fields)
    else if str_eq ctx.action (lit "purge:host")
    then lit "host:" ++ field_or_unknown (lookup (lit "host") ctx.fields)
    else if str_eq ctx.action (lit "purge:tag")
    then lit "tag:" ++ field_or_unknown (lookup (lit "tag") ctx.fields)
    else if str_eq ctx.action (lit "purge:prefix")
    then lit "prefix:" ++ field_or_unknown (lookup (lit "prefix") ctx.fields)
    else if str_eq ctx.action (lit "purge:everything")
    then lit "purge_everything"
    else ctx.action ++ (lit ":" ++ ctx.resource)
