-- ===== src/Upstream.antt =====
-- The registries of upstream tokens and R2 endpoints (src/upstream-tokens.ts, src/s3/upstream-r2.ts)
-- and the binding of policies to tokens (src/routes/token-binding.ts).
pub mod Registry
pub mod Tokens
pub mod R2
pub mod Binding
mod Tests
