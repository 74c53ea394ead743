-- ===== src/Credentials.antt =====
-- The managers of API keys and S3 credentials (src/credential-manager.ts, src/iam.ts).
pub mod Table
pub mod Ordered
pub mod Types
pub mod Manager
pub mod PurgeContexts
pub mod Keys
mod Tests
