-- ===== src/S3/Operations/Safety.antt =====
-- What the method of a request says of the action that `detectOperation` of src/s3/operations.ts
-- names: the action decides which policies allow the request.
use purge_api_gateway.Base.{
  List, [], ◌∷◌, Bool, true, false, not, ◌||◌, Option, some, Str, str_eq, starts_with, lit, ◌≡◌,
  ◌∙◌, refl, ◌⊎◌, inl, inr, every, lookup, if◌then◌else◌, Bool-cases, Option-cases, sym, ap, arith,
}
use mathlib.Core.Option.{some-injective, none-ne-some}
use purge_api_gateway.S3.Names.{S3OperationName, action_of, list_buckets}
use purge_api_gateway.S3.Operations.{
  Pairs, choose, object_operation, bucket_operation, build_op, operation_at, detect_operation,
  parse_path, has, selects, is_value, is_present, ◌>>=◌, object_get_table, object_put_table,
  object_delete_table, bucket_get_table, bucket_put_table, bucket_delete_table, S3Operation,
}

-- The actions that a policy grants with `s3:Get*`, `s3:List*` or by the two names of reads that
-- begin otherwise.
unfoldable pub is_read_action : Str → Bool
is_read_action action =
    starts_with action (lit "s3:Get")
    || (starts_with action (lit "s3:List")
        || (str_eq action (lit "s3:HeadBucket") || str_eq action (lit "s3:SelectObjectContent")))

unfoldable reads : S3OperationName → Bool
reads name = is_read_action (action_of name)

unfoldable writes : S3OperationName → Bool
writes name = not (reads name)

-- What every row of a ladder and its last branch satisfy, the name it finds satisfies.
choose-holds :
    (q : S3OperationName → Bool) (table : List (Str × S3OperationName))
    (otherwise : S3OperationName) (params : Pairs)
    → every (λ row. q row.1) table ≡ true
    → q otherwise ≡ true
    → q (choose table otherwise params) ≡ true
unfolding choose
choose-holds q [] otherwise params rows last = last
choose-holds q ((key, name) ∷ table) otherwise params rows last =
    ground (arith, choose-holds q table otherwise params)

if-holds :
    (q : S3OperationName → Bool) (b : Bool) (x y : S3OperationName)
    → q x ≡ true
    → q y ≡ true
    → q (if b then x else y) ≡ true
if-holds q true x y holds_x holds_y = holds_x
if-holds q false x y holds_x holds_y = holds_y

object_get-reads :
    (params : Pairs) (copy : Bool) → reads (object_operation (lit "GET") params copy) ≡ true
unfolding object_operation reads action_of is_read_action str_eq starts_with
object_get-reads params copy =
    choose-holds reads object_get_table _ params refl
      (if-holds reads (selects params) _ _ refl refl)

object_head-reads :
    (params : Pairs) (copy : Bool) → reads (object_operation (lit "HEAD") params copy) ≡ true
unfolding object_operation reads action_of is_read_action str_eq starts_with
object_head-reads params copy = refl

object_put-writes :
    (params : Pairs) (copy : Bool) → writes (object_operation (lit "PUT") params copy) ≡ true
unfolding object_operation reads writes action_of is_read_action str_eq starts_with
object_put-writes params copy =
    if-holds writes (has (lit "uploadId") params) _ _ (if-holds writes copy _ _ refl refl)
      (choose-holds writes object_put_table _ params refl (if-holds writes copy _ _ refl refl))

object_delete-writes :
    (params : Pairs) (copy : Bool) → writes (object_operation (lit "DELETE") params copy) ≡ true
unfolding object_operation reads writes action_of is_read_action str_eq starts_with
object_delete-writes params copy = choose-holds writes object_delete_table _ params refl refl

bucket_get-reads : (params : Pairs) → reads (bucket_operation (lit "GET") params) ≡ true
unfolding bucket_operation reads action_of is_read_action str_eq starts_with
bucket_get-reads params =
    choose-holds reads bucket_get_table _ params refl
      (if-holds reads (is_value (lit "2") (lookup (lit "list-type") params)) _ _ refl refl)

bucket_head-reads : (params : Pairs) → reads (bucket_operation (lit "HEAD") params) ≡ true
unfolding bucket_operation reads action_of is_read_action str_eq starts_with
bucket_head-reads params = refl

bucket_put-writes : (params : Pairs) → writes (bucket_operation (lit "PUT") params) ≡ true
unfolding bucket_operation reads writes action_of is_read_action str_eq starts_with
bucket_put-writes params = choose-holds writes bucket_put_table _ params refl refl

bucket_delete-writes : (params : Pairs) → writes (bucket_operation (lit "DELETE") params) ≡ true
unfolding bucket_operation reads writes action_of is_read_action str_eq starts_with
bucket_delete-writes params = choose-holds writes bucket_delete_table _ params refl refl

false_of_not : (b : Bool) → not b ≡ true → b ≡ false
false_of_not true h = ground (arith, h)
false_of_not false h = refl

root : reads list_buckets ≡ true
unfolding reads action_of is_read_action str_eq starts_with
root = refl

module _ (decode : Str → Option Str) where
  -- The operation of a request comes from the buckets' list or from one of the two ladders.
  operation_at-holds :
      (q : S3OperationName → Bool) (method : Str) (bucket key : Option Str) (params headers : Pairs)
      → (is_present bucket ≡ false → q list_buckets ≡ true)
      → q (object_operation method params (has (lit "x-amz-copy-source") headers)) ≡ true
      → q (bucket_operation method params) ≡ true
      → (name : S3OperationName) × ((operation_at decode method bucket key params headers).action
          ≡ action_of name)
        × (q name ≡ true)
  unfolding operation_at build_op
  operation_at-holds q method bucket key params headers root object level =
      elim (Bool-cases (is_present bucket)) [
        | inl e ↦ elim (Bool-cases (is_present key)) [
          | inl f ↦ (_, ground (arith, e, f), object)
          | inr f ↦ (_, ground (arith, e, f), level)
        ]
        | inr e ↦ (list_buckets, ground (arith, e), root e)
      ]

  operation_at-bucket :
      (method : Str) (bucket key : Option Str) (params headers : Pairs)
      → is_present ((operation_at decode method bucket key params headers).bucket) ≡ true
      → is_present bucket ≡ true
  unfolding operation_at build_op
  operation_at-bucket method bucket key params headers h = elim (Bool-cases (is_present bucket)) [
    | inl e ↦ e
    | inr e ↦ ground (arith, e, h)
  ]

  -- What `detectOperation` returns is the operation of the path's bucket and key.
  detect_operation-parsed :
      (method path : Str) (params headers : Pairs) (op : S3Operation)
      → detect_operation decode method path params headers ≡ some op
      → (bucket : Option Str) × (key : Option Str) × (parse_path decode path ≡ some (bucket, key))
        × (operation_at decode method bucket key params headers ≡ op)
  unfolding detect_operation
  detect_operation-parsed method path params headers op h =
      elim (Option-cases (parse_path decode path)) [
        | inl e ↦ absurd (
            none-ne-some _ (
              sym (ap (λ o. o >>= λ p. some (operation_at decode method p.0 p.1 params headers)) e)
              ∙ h))
        | inr ((bucket, key), e) ↦ (
          bucket,
          key,
          e,
          some-injective _ _ (
              sym (ap (λ o. o >>= λ p. some (operation_at decode method p.0 p.1 params headers)) e)
              ∙ h),
        )
      ]

  -- A request with the method GET or HEAD, whatever its path, parameters and headers are, is
  -- detected as an operation whose action is a read.
  pub reads_only :
      (method path : Str) (params headers : Pairs) (op : S3Operation)
      → detect_operation decode method path params headers ≡ some op
      → (method ≡ lit "GET") ⊎ (method ≡ lit "HEAD")
      → is_read_action (op.action) ≡ true
  unfolding reads
  reads_only method path params headers op h m =
      let (bucket, key, _, e) = detect_operation-parsed method path params headers op h in
      let (name, action, r) =
        operation_at-holds reads method bucket key params headers (λ _. root)
          (elim m [
            | inl get ↦ rw get (object_get-reads params _)
            | inr head ↦ rw head (object_head-reads params _)
          ])
          (elim m [
            | inl get ↦ rw get (bucket_get-reads params)
            | inr head ↦ rw head (bucket_head-reads params)
          ]) in
      ap is_read_action (sym (ap (λ (o : S3Operation). o.action) e) ∙ action) ∙ r

  -- A request with the method PUT or DELETE that is detected as an operation on a bucket is
  -- detected as one whose action is not a read.
  pub writes_only :
      (method path : Str) (params headers : Pairs) (op : S3Operation)
      → detect_operation decode method path params headers ≡ some op
      → (method ≡ lit "PUT") ⊎ (method ≡ lit "DELETE")
      → is_present (op.bucket) ≡ true
      → is_read_action (op.action) ≡ false
  unfolding reads writes
  writes_only method path params headers op h m present =
      let (bucket, key, _, e) = detect_operation-parsed method path params headers op h in
      let there : is_present bucket ≡ true =
        operation_at-bucket method bucket key params headers
          (ap (λ (o : S3Operation). is_present (o.bucket)) e ∙ present) in
      let (name, action, w) =
        operation_at-holds writes method bucket key params headers
          (λ gone. ground (arith, gone, there))
          (elim m [
            | inl put ↦ rw put (object_put-writes params _)
            | inr delete ↦ rw delete (object_delete-writes params _)
          ])
          (elim m [
            | inl put ↦ rw put (bucket_put-writes params)
            | inr delete ↦ rw delete (bucket_delete-writes params)
          ]) in
      ap is_read_action (sym (ap (λ (o : S3Operation). o.action) e) ∙ action)
      ∙ false_of_not (reads name) w
