-- ===== src/Policy.antt =====
-- The IAM policy engine (src/policy-types.ts, src/policy-engine.ts).
pub mod Types
pub mod Runtime
pub mod Decides
pub mod Matching
pub mod Regex
pub mod Conditions
pub mod Evaluate
pub mod Sample
mod Tests
