-- ===== src/S3/Operations.antt =====
-- `parsePath`, `detectOperation`, `buildOp` and `buildConditionFields` of src/s3/operations.ts.
-- `decodeURIComponent` is the parameter `decode`; `none` stands for the URIError that it throws, and
-- that error ends the functions that call it. Search parameters and headers are association lists,
-- header names in lower case; `get` returns the first value of a name.
pub mod Safety
pub mod ConditionFields
use purge_api_gateway.Base.{
  List, [], ◌∷◌, ◌++◌, Bool, true, false, not, ◌&&◌, ◌||◌, ℕ, zero, suc, ◌+◌, ◌==◌, ltb, Option,
  none, some, Str, str_eq, lit, lookup, insert, if◌then◌else◌,
}
use mathlib.Core.Option
use purge_api_gateway.Policy.Types.{FieldValue, Fields}
use purge_api_gateway.S3.Names.{S3OperationName, action_of, is_r2_supported}
use purge_api_gateway.S3.Names.{
  list_buckets, head_bucket, create_bucket, delete_bucket, get_bucket_location,
  get_bucket_encryption, get_bucket_cors, put_bucket_cors, delete_bucket_cors, get_bucket_lifecycle,
  put_bucket_lifecycle, list_objects, list_objects_v2, list_multipart_uploads, get_object,
  head_object, put_object, copy_object, delete_object, delete_objects, create_multipart_upload,
  upload_part, upload_part_copy, complete_multipart_upload, abort_multipart_upload, list_parts,
  get_object_tagging, put_object_tagging, delete_object_tagging, get_bucket_acl, put_bucket_acl,
  get_bucket_versioning, put_bucket_versioning, get_bucket_policy, put_bucket_policy,
  delete_bucket_policy, get_bucket_tagging, put_bucket_tagging, delete_bucket_tagging,
  get_bucket_website, put_bucket_website, delete_bucket_website, get_bucket_logging,
  put_bucket_logging, get_bucket_notification, put_bucket_notification, get_bucket_replication,
  put_bucket_replication, delete_bucket_replication, get_object_lock_configuration,
  put_object_lock_configuration, get_object_retention, put_object_retention, get_object_legal_hold,
  put_object_legal_hold, get_public_access_block, put_public_access_block,
  delete_public_access_block, get_bucket_accelerate_configuration,
  put_bucket_accelerate_configuration, get_bucket_request_payment, put_bucket_request_payment,
  get_object_acl, put_object_acl, restore_object, select_object_content,
}

abbrev pub Pairs : Type 0
Pairs = List (Str × Str)

abbrev pub is_some {ℓ} : {A : Type ℓ} → Option A → Bool
is_some none = false
is_some (some a) = true

-- `searchParams.has(name)`
abbrev pub has : Str → Pairs → Bool
has name params = is_some (lookup name params)

-- `searchParams.get(name) === value`
abbrev pub is_value : Str → Option Str → Bool
is_value value none = false
is_value value (some v) = str_eq v value

-- A ladder of `if (searchParams.has(key)) name = …; else …`.
unfoldable pub choose : List (Str × S3OperationName) → S3OperationName → Pairs → S3OperationName
choose [] otherwise params = otherwise
choose ((key, name) ∷ table) otherwise params =
    if has key params then name else choose table otherwise params

abbrev pub object_get_table : List (Str × S3OperationName)
object_get_table =
    (lit "uploadId", list_parts)
    ∷ (lit "tagging", get_object_tagging)
    ∷ (lit "acl", get_object_acl)
    ∷ (lit "retention", get_object_retention)
    ∷ (lit "legal-hold", get_object_legal_hold)
    ∷ []

abbrev pub object_put_table : List (Str × S3OperationName)
object_put_table =
    (lit "tagging", put_object_tagging)
    ∷ (lit "acl", put_object_acl)
    ∷ (lit "retention", put_object_retention)
    ∷ (lit "legal-hold", put_object_legal_hold)
    ∷ []

abbrev pub object_delete_table : List (Str × S3OperationName)
object_delete_table =
    (lit "uploadId", abort_multipart_upload) ∷ (lit "tagging", delete_object_tagging) ∷ []

abbrev pub object_post_table : List (Str × S3OperationName)
object_post_table =
    (lit "uploads", create_multipart_upload)
    ∷ (lit "uploadId", complete_multipart_upload)
    ∷ (lit "restore", restore_object)
    ∷ []

abbrev pub bucket_get_table : List (Str × S3OperationName)
bucket_get_table =
    (lit "cors", get_bucket_cors)
    ∷ (lit "lifecycle", get_bucket_lifecycle)
    ∷ (lit "location", get_bucket_location)
    ∷ (lit "encryption", get_bucket_encryption)
    ∷ (lit "uploads", list_multipart_uploads)
    ∷ (lit "acl", get_bucket_acl)
    ∷ (lit "versioning", get_bucket_versioning)
    ∷ (lit "policy", get_bucket_policy)
    ∷ (lit "tagging", get_bucket_tagging)
    ∷ (lit "website", get_bucket_website)
    ∷ (lit "logging", get_bucket_logging)
    ∷ (lit "notification", get_bucket_notification)
    ∷ (lit "replication", get_bucket_replication)
    ∷ (lit "object-lock", get_object_lock_configuration)
    ∷ (lit "publicAccessBlock", get_public_access_block)
    ∷ (lit "accelerate", get_bucket_accelerate_configuration)
    ∷ (lit "requestPayment", get_bucket_request_payment)
    ∷ []

abbrev pub bucket_put_table : List (Str × S3OperationName)
bucket_put_table =
    (lit "cors", put_bucket_cors)
    ∷ (lit "lifecycle", put_bucket_lifecycle)
    ∷ (lit "acl", put_bucket_acl)
    ∷ (lit "versioning", put_bucket_versioning)
    ∷ (lit "policy", put_bucket_policy)
    ∷ (lit "tagging", put_bucket_tagging)
    ∷ (lit "website", put_bucket_website)
    ∷ (lit "logging", put_bucket_logging)
    ∷ (lit "notification", put_bucket_notification)
    ∷ (lit "replication", put_bucket_replication)
    ∷ (lit "object-lock", put_object_lock_configuration)
    ∷ (lit "publicAccessBlock", put_public_access_block)
    ∷ (lit "accelerate", put_bucket_accelerate_configuration)
    ∷ (lit "requestPayment", put_bucket_request_payment)
    ∷ []

abbrev pub bucket_delete_table : List (Str × S3OperationName)
bucket_delete_table =
    (lit "cors", delete_bucket_cors)
    ∷ (lit "policy", delete_bucket_policy)
    ∷ (lit "tagging", delete_bucket_tagging)
    ∷ (lit "website", delete_bucket_website)
    ∷ (lit "replication", delete_bucket_replication)
    ∷ (lit "publicAccessBlock", delete_public_access_block)
    ∷ []

abbrev pub bucket_post_table : List (Str × S3OperationName)
bucket_post_table = (lit "delete", delete_objects) ∷ []

-- `searchParams.has('select') && searchParams.get('select-type') === '2'`
abbrev pub selects : Pairs → Bool
selects params = has (lit "select") params && is_value (lit "2") (lookup (lit "select-type") params)

-- The `switch` on the method of an object-level request.
unfoldable pub object_operation : Str → Pairs → Bool → S3OperationName
object_operation method params has_copy_source =
    if str_eq method (lit "GET")
    then choose object_get_table (if selects params then select_object_content else get_object)
        params
    else if str_eq method (lit "HEAD")
    then head_object
    else if str_eq method (lit "PUT")
    then if has (lit "uploadId") params
      then (if has_copy_source then upload_part_copy else upload_part)
      else choose object_put_table (if has_copy_source then copy_object else put_object) params
    else if str_eq method (lit "DELETE")
    then choose object_delete_table delete_object params
    else if str_eq method (lit "POST")
    then choose object_post_table (if selects params then select_object_content else put_object)
        params
    else get_object

-- The `switch` on the method of a bucket-level request.
unfoldable pub bucket_operation : Str → Pairs → S3OperationName
bucket_operation method params =
    if str_eq method (lit "GET")
    then choose bucket_get_table
        (if is_value (lit "2") (lookup (lit "list-type") params)
          then list_objects_v2
          else list_objects)
        params
    else if str_eq method (lit "HEAD")
    then head_bucket
    else if str_eq method (lit "PUT")
    then choose bucket_put_table create_bucket params
    else if str_eq method (lit "DELETE")
    then choose bucket_delete_table delete_bucket params
    else if str_eq method (lit "POST")
    then choose bucket_post_table list_objects params
    else list_objects

pub record S3Operation : Type 0 where
  pub name : S3OperationName
  pub action : Str
  pub resource : Str
  pub bucket : Option Str
  pub key : Option Str

-- An absent text and the empty one are read alike: `!bucket`, `key !== undefined && key !== ''`.
abbrev pub is_present : Option Str → Bool
is_present none = false
is_present (some []) = false
is_present (some (c ∷ s)) = true

abbrev pub text_of : Option Str → Str
text_of none = []
text_of (some s) = s

unfoldable pub build_op : S3OperationName → Option Str → Option Str → S3Operation
build_op name bucket key = record {
  name = name;
  action = action_of name;
  resource =
      if not (is_present bucket)
      then lit "account:*"
      else if is_present key
      then lit "object:" ++ (text_of bucket ++ (lit "/" ++ text_of key))
      else lit "bucket:" ++ text_of bucket;
  bucket = bucket;
  key = key;
}

-- `path.startsWith('/') ? path.slice(1) : path`
unfoldable pub trim_slash : Str → Str
trim_slash [] = []
trim_slash (c ∷ s) = if c == b'/' then s else c ∷ s

-- The text before the first slash, and the text behind it if there is one.
unfoldable pub split_slash : Str → Str × Option Str
split_slash [] = ([], none)
split_slash (c ∷ s) =
    let (front, rest) = split_slash s in if c == b'/' then ([], some s) else (c ∷ front, rest)

infixl 5 ◌>>=◌
abbrev pub ◌>>=◌ {ℓ κ} : {A : Type ℓ} {B : Type κ} → Option A → (A → Option B) → Option B
none >>= f = none
some a >>= f = f a

module _ (decode : Str → Option Str) where
  -- Bucket and key; `none` is the error of a malformed escape.
  unfoldable pub parse_parts : Str × Option Str → Option (Option Str × Option Str)
  parse_parts (front, none) = do bucket ← decode front; some (some bucket, none)
  parse_parts (front, some rest) = do
    bucket ← decode front
    key ← decode rest
    some (some bucket, some key)

  unfoldable pub parse_path : Str → Option (Option Str × Option Str)
  parse_path path =
      let trimmed = trim_slash path in
      if str_eq trimmed [] then some (none, none) else parse_parts (split_slash trimmed)

  -- The operation of a parsed path.
  unfoldable pub operation_at : Str → Option Str → Option Str → Pairs → Pairs → S3Operation
  operation_at method bucket key params headers =
      if not (is_present bucket)
      then build_op list_buckets none none
      else if is_present key
      then build_op (object_operation method params (has (lit "x-amz-copy-source") headers)) bucket
          key
      else build_op (bucket_operation method params) bucket none

  unfoldable pub detect_operation : Str → Str → Pairs → Pairs → Option S3Operation
  detect_operation method path params headers = do
    (bucket, key) ← parse_path path
    some (operation_at method bucket key params headers)
