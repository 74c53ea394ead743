-- ===== src/S3/Operations/ConditionFields.antt =====
-- `buildConditionFields` of src/s3/operations.ts: the fields that the conditions of a policy can
-- name. `decode` is `decodeURIComponent`, whose error `none` ends the function.
pub mod Laws
use purge_api_gateway.Base.{suc, ◌==◌, take, drop}
use purge_api_gateway.Base.{
  List, [], ◌∷◌, Bool, true, false, not, ◌&&◌, ℕ, ltb, Option, none, some, Str, lit, lookup, insert,
  if◌then◌else◌,
}
use mathlib.Core.Option
use purge_api_gateway.Policy.Types.{FieldValue, text, Fields}
use purge_api_gateway.S3.Operations.{
  Pairs, is_present, text_of, trim_slash, split_slash, ◌>>=◌, S3Operation,
}

abbrev pub later : Bool → Option ℕ → Option ℕ
later here (some i) = some (suc i)
later true none = some 0
later false none = none

-- `s.lastIndexOf(c)`, with `none` for -1.
unfoldable pub last_index_of : ℕ → Str → Option ℕ
last_index_of c [] = none
last_index_of c (a ∷ s) = later (a == c) (last_index_of c s)

-- `fields[name] = value` for a text that is not empty.
unfoldable pub put_text : Str → Option Str → Fields → Fields
put_text name value fields =
    if is_present value then insert name (text (text_of value)) fields else fields

unfoldable pub put_path : Str → Option ℕ → Fields → Fields
put_path key none fields =
    insert (lit "key.filename") (text key) (insert (lit "key.prefix") (text []) fields)
put_path key (some slash) fields =
    insert (lit "key.filename") (text (drop (suc slash) key))
      (insert (lit "key.prefix") (text (take (suc slash) key)) fields)

-- `a > b` for two indices, -1 among them.
abbrev pub behind : ℕ → Option ℕ → Bool
behind dot none = true
behind dot (some slash) = ltb slash dot

unfoldable pub put_extension : Str → Option ℕ → Fields → Fields
put_extension key none fields = fields
put_extension key (some dot) fields =
    if behind dot (last_index_of b'/' key)
    then insert (lit "key.extension") (text (drop (suc dot) key)) fields
    else fields

unfoldable pub put_key : Option Str → Fields → Fields
put_key value fields =
    let key = text_of value in
    if is_present value
    then put_extension key (last_index_of b'.' key)
        (put_path key (last_index_of b'/' key) (insert (lit "key") (text key) fields))
    else fields

unfoldable pub put_source : Str × Option Str → Fields → Fields
put_source (bucket, none) fields = insert (lit "source_bucket") (text bucket) fields
put_source (bucket, some key) fields =
    insert (lit "source_key") (text key) (insert (lit "source_bucket") (text bucket) fields)

unfoldable pub put_list_prefix : Option Str → Fields → Fields
put_list_prefix none fields = fields
put_list_prefix (some prefix) fields = insert (lit "list_prefix") (text prefix) fields

module _ (decode : Str → Option Str) where
  unfoldable pub put_copy_source : Option Str → Fields → Option Fields
  put_copy_source source fields =
      if is_present source
      then decode (text_of source)
        >>= (λ decoded. some (put_source (split_slash (trim_slash decoded)) fields))
      else some fields

  unfoldable pub build_condition_fields : S3Operation → Str → Pairs → Pairs → Option Fields
  build_condition_fields op method headers params =
      let start : Fields = (lit "method", text method) ∷ [] in
      let target = put_key (op.key) (put_text (lit "bucket") (op.bucket) start) in
      let content =
        put_text (lit "content_length") (lookup (lit "content-length") headers)
          (put_text (lit "content_type") (lookup (lit "content-type") headers) target) in
      put_copy_source (lookup (lit "x-amz-copy-source") headers) content
      >>= (λ fields. some (put_list_prefix (lookup (lit "prefix") params) fields))
