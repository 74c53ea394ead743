-- ===== src/S3.antt =====
-- The S3 proxy (src/s3): operation names, detection of the operation and condition fields.
pub mod Names
pub mod Operations
pub mod Iam
mod Tests
