-- ===== src/S3/Names.antt =====
-- `S3OperationName`, `ACTION_MAP` and `R2_SUPPORTED` of src/s3/types.ts and src/s3/operations.ts.
use purge_api_gateway.Base.{Bool, true, false, Str, lit}

pub data S3OperationName : Type 0 where
  list_buckets head_bucket create_bucket delete_bucket get_bucket_location : S3OperationName
  get_bucket_encryption get_bucket_cors put_bucket_cors delete_bucket_cors : S3OperationName
  get_bucket_lifecycle put_bucket_lifecycle list_objects list_objects_v2 : S3OperationName
  list_multipart_uploads get_object head_object put_object copy_object delete_object :
      S3OperationName
  delete_objects create_multipart_upload upload_part upload_part_copy : S3OperationName
  complete_multipart_upload abort_multipart_upload list_parts get_object_tagging : S3OperationName
  put_object_tagging delete_object_tagging get_bucket_acl put_bucket_acl : S3OperationName
  get_bucket_versioning put_bucket_versioning get_bucket_policy put_bucket_policy : S3OperationName
  delete_bucket_policy get_bucket_tagging put_bucket_tagging delete_bucket_tagging : S3OperationName
  get_bucket_website put_bucket_website delete_bucket_website get_bucket_logging : S3OperationName
  put_bucket_logging get_bucket_notification put_bucket_notification : S3OperationName
  get_bucket_replication put_bucket_replication delete_bucket_replication : S3OperationName
  get_object_lock_configuration put_object_lock_configuration get_object_retention : S3OperationName
  put_object_retention get_object_legal_hold put_object_legal_hold : S3OperationName
  get_public_access_block put_public_access_block delete_public_access_block : S3OperationName
  get_bucket_accelerate_configuration put_bucket_accelerate_configuration : S3OperationName
  get_bucket_request_payment put_bucket_request_payment get_object_acl : S3OperationName
  put_object_acl restore_object select_object_content : S3OperationName

unfoldable pub action_of : S3OperationName → Str
action_of list_buckets = lit "s3:ListAllMyBuckets"
action_of head_bucket = lit "s3:HeadBucket"
action_of create_bucket = lit "s3:CreateBucket"
action_of delete_bucket = lit "s3:DeleteBucket"
action_of get_bucket_location = lit "s3:GetBucketLocation"
action_of get_bucket_encryption = lit "s3:GetEncryptionConfiguration"
action_of get_bucket_cors = lit "s3:GetBucketCors"
action_of put_bucket_cors = lit "s3:PutBucketCors"
action_of delete_bucket_cors = lit "s3:DeleteBucketCors"
action_of get_bucket_lifecycle = lit "s3:GetLifecycleConfiguration"
action_of put_bucket_lifecycle = lit "s3:PutLifecycleConfiguration"
action_of list_objects = lit "s3:ListBucket"
action_of list_objects_v2 = lit "s3:ListBucket"
action_of list_multipart_uploads = lit "s3:ListBucketMultipartUploads"
action_of get_object = lit "s3:GetObject"
action_of head_object = lit "s3:GetObject"
action_of put_object = lit "s3:PutObject"
action_of copy_object = lit "s3:PutObject"
action_of delete_object = lit "s3:DeleteObject"
action_of delete_objects = lit "s3:DeleteObject"
action_of create_multipart_upload = lit "s3:PutObject"
action_of upload_part = lit "s3:PutObject"
action_of upload_part_copy = lit "s3:PutObject"
action_of complete_multipart_upload = lit "s3:PutObject"
action_of abort_multipart_upload = lit "s3:AbortMultipartUpload"
action_of list_parts = lit "s3:ListMultipartUploadParts"
action_of get_object_tagging = lit "s3:GetObjectTagging"
action_of put_object_tagging = lit "s3:PutObjectTagging"
action_of delete_object_tagging = lit "s3:DeleteObjectTagging"
action_of get_bucket_acl = lit "s3:GetBucketAcl"
action_of put_bucket_acl = lit "s3:PutBucketAcl"
action_of get_bucket_versioning = lit "s3:GetBucketVersioning"
action_of put_bucket_versioning = lit "s3:PutBucketVersioning"
action_of get_bucket_policy = lit "s3:GetBucketPolicy"
action_of put_bucket_policy = lit "s3:PutBucketPolicy"
action_of delete_bucket_policy = lit "s3:DeleteBucketPolicy"
action_of get_bucket_tagging = lit "s3:GetBucketTagging"
action_of put_bucket_tagging = lit "s3:PutBucketTagging"
action_of delete_bucket_tagging = lit "s3:DeleteBucketTagging"
action_of get_bucket_website = lit "s3:GetBucketWebsite"
action_of put_bucket_website = lit "s3:PutBucketWebsite"
action_of delete_bucket_website = lit "s3:DeleteBucketWebsite"
action_of get_bucket_logging = lit "s3:GetBucketLogging"
action_of put_bucket_logging = lit "s3:PutBucketLogging"
action_of get_bucket_notification = lit "s3:GetBucketNotificationConfiguration"
action_of put_bucket_notification = lit "s3:PutBucketNotificationConfiguration"
action_of get_bucket_replication = lit "s3:GetReplicationConfiguration"
action_of put_bucket_replication = lit "s3:PutReplicationConfiguration"
action_of delete_bucket_replication = lit "s3:DeleteReplicationConfiguration"
action_of get_object_lock_configuration = lit "s3:GetObjectLockConfiguration"
action_of put_object_lock_configuration = lit "s3:PutObjectLockConfiguration"
action_of get_object_retention = lit "s3:GetObjectRetention"
action_of put_object_retention = lit "s3:PutObjectRetention"
action_of get_object_legal_hold = lit "s3:GetObjectLegalHold"
action_of put_object_legal_hold = lit "s3:PutObjectLegalHold"
action_of get_public_access_block = lit "s3:GetBucketPublicAccessBlock"
action_of put_public_access_block = lit "s3:PutBucketPublicAccessBlock"
action_of delete_public_access_block = lit "s3:DeleteBucketPublicAccessBlock"
action_of get_bucket_accelerate_configuration = lit "s3:GetAccelerateConfiguration"
action_of put_bucket_accelerate_configuration = lit "s3:PutAccelerateConfiguration"
action_of get_bucket_request_payment = lit "s3:GetBucketRequestPayment"
action_of put_bucket_request_payment = lit "s3:PutBucketRequestPayment"
action_of get_object_acl = lit "s3:GetObjectAcl"
action_of put_object_acl = lit "s3:PutObjectAcl"
action_of restore_object = lit "s3:RestoreObject"
action_of select_object_content = lit "s3:SelectObjectContent"

unfoldable pub is_r2_supported : S3OperationName → Bool
is_r2_supported list_buckets = true
is_r2_supported head_bucket = true
is_r2_supported create_bucket = true
is_r2_supported delete_bucket = true
is_r2_supported get_bucket_location = true
is_r2_supported get_bucket_encryption = true
is_r2_supported get_bucket_cors = true
is_r2_supported put_bucket_cors = true
is_r2_supported delete_bucket_cors = true
is_r2_supported get_bucket_lifecycle = true
is_r2_supported put_bucket_lifecycle = true
is_r2_supported list_objects = true
is_r2_supported list_objects_v2 = true
is_r2_supported list_multipart_uploads = true
is_r2_supported get_object = true
is_r2_supported head_object = true
is_r2_supported put_object = true
is_r2_supported copy_object = true
is_r2_supported delete_object = true
is_r2_supported delete_objects = true
is_r2_supported create_multipart_upload = true
is_r2_supported upload_part = true
is_r2_supported upload_part_copy = true
is_r2_supported complete_multipart_upload = true
is_r2_supported abort_multipart_upload = true
is_r2_supported list_parts = true
is_r2_supported get_object_tagging = false
is_r2_supported put_object_tagging = false
is_r2_supported delete_object_tagging = false
is_r2_supported get_bucket_acl = false
is_r2_supported put_bucket_acl = false
is_r2_supported get_bucket_versioning = false
is_r2_supported put_bucket_versioning = false
is_r2_supported get_bucket_policy = false
is_r2_supported put_bucket_policy = false
is_r2_supported delete_bucket_policy = false
is_r2_supported get_bucket_tagging = false
is_r2_supported put_bucket_tagging = false
is_r2_supported delete_bucket_tagging = false
is_r2_supported get_bucket_website = false
is_r2_supported put_bucket_website = false
is_r2_supported delete_bucket_website = false
is_r2_supported get_bucket_logging = false
is_r2_supported put_bucket_logging = false
is_r2_supported get_bucket_notification = false
is_r2_supported put_bucket_notification = false
is_r2_supported get_bucket_replication = false
is_r2_supported put_bucket_replication = false
is_r2_supported delete_bucket_replication = false
is_r2_supported get_object_lock_configuration = false
is_r2_supported put_object_lock_configuration = false
is_r2_supported get_object_retention = false
is_r2_supported put_object_retention = false
is_r2_supported get_object_legal_hold = false
is_r2_supported put_object_legal_hold = false
is_r2_supported get_public_access_block = false
is_r2_supported put_public_access_block = false
is_r2_supported delete_public_access_block = false
is_r2_supported get_bucket_accelerate_configuration = false
is_r2_supported put_bucket_accelerate_configuration = false
is_r2_supported get_bucket_request_payment = false
is_r2_supported put_bucket_request_payment = false
is_r2_supported get_object_acl = false
is_r2_supported put_object_acl = false
is_r2_supported restore_object = false
is_r2_supported select_object_content = false
