-- ===== src/S3/Tests.antt =====
-- The theorems of the S3 proxy at concrete requests.
use purge_api_gateway.Base.{
  [], ◌∷◌, true, false, ◌≡◌, refl, inl, inr, Option, some, Str, str_eq, lit, lookup,
}
use purge_api_gateway.Policy.Types.{Fields}
use purge_api_gateway.S3.Operations.{
  Pairs, is_present, S3Operation, build_op, choose, detect_operation, operation_at,
  object_operation, parse_path, parse_parts, split_slash, trim_slash,
}
use purge_api_gateway.S3.Names.{get_object_tagging, delete_object}
use purge_api_gateway.S3.Operations.Safety.{is_read_action, reads_only, writes_only}
use purge_api_gateway.S3.Operations.ConditionFields.{build_condition_fields, put_copy_source}
use purge_api_gateway.S3.Operations.ConditionFields.Laws.{Holds, build_condition_fields-Holds}

-- A decoder of paths without escapes.
abbrev plain : Str → Option Str
plain s = some s

abbrev tagged : Pairs
tagged = (lit "tagging", []) ∷ []

abbrev tagging_read : S3Operation
tagging_read = build_op get_object_tagging (some (lit "b")) (some (lit "d/k.txt"))

abbrev deletion : S3Operation
deletion = build_op delete_object (some (lit "b")) (some (lit "d/k.txt"))

reading : detect_operation plain (lit "GET") (lit "/b/d/k.txt") tagged [] ≡ some tagging_read
unfolding detect_operation parse_path trim_slash split_slash parse_parts operation_at
    object_operation choose str_eq lookup
reading = refl

deleting : detect_operation plain (lit "DELETE") (lit "/b/d/k.txt") [] [] ≡ some deletion
unfolding detect_operation parse_path trim_slash split_slash parse_parts operation_at
    object_operation choose str_eq lookup
deleting = refl

there : is_present (deletion.bucket) ≡ true
unfolding build_op
there = refl

on_key : deletion.key ≡ some (lit "d/k.txt")
unfolding build_op
on_key = refl

reads_only_example : is_read_action (tagging_read.action) ≡ true
reads_only_example =
    reads_only plain (lit "GET") (lit "/b/d/k.txt") tagged [] tagging_read reading (inl refl)

writes_only_example : is_read_action (deletion.action) ≡ false
writes_only_example =
    writes_only plain (lit "DELETE") (lit "/b/d/k.txt") [] [] deletion deleting (inr refl) there

built :
    (fields : Fields) × (build_condition_fields plain deletion (lit "DELETE") [] [] ≡ some fields)
unfolding build_condition_fields put_copy_source lookup
built = (_, refl)

build_condition_fields-Holds_example : Holds (lit "d/k.txt") (built.0)
build_condition_fields-Holds_example =
    build_condition_fields-Holds plain deletion (lit "DELETE") [] [] (lit "d/k.txt") (built.0)
      on_key refl (built.1)
