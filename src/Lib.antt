-- ===== src/Lib.antt =====
-- Gatekeeper (purge-api-gateway): a gateway in front of the cache purge, S3 and service interfaces of
-- Cloudflare. Clients hold API keys with policies; each request is turned into request contexts,
-- authorized against the policy of its key, rate limited, and passed on.
--
-- The parts and their files:
-- - Base: texts as lists of UTF-16 code units with the methods of `String.prototype`, `Map` as an
--   association list in insertion order, Boolean tests on the native numbers.
-- - Policy: src/policy-types.ts and the evaluation of src/policy-engine.ts. Types has the documents,
--   Matching `matchesAction` and `matchesResource`, Regex `evalRegex` with its module-wide cache,
--   Conditions `evaluateCondition`, `evaluateLeaf` and the operators, Evaluate `evaluatePolicy`. Since
--   evaluation changes the cache of regular expressions, a test is a function from the cache to its
--   answer and the next cache (Decides).
-- - RateLimit: src/token-bucket.ts. TokenBucket has one function for each method.
-- - Credentials: src/credential-manager.ts in Types and Manager, src/iam.ts in Keys and
--   PurgeContexts. The SQL table is the list of its rows (Table); the manager's state is that table,
--   its cache and the cache of regular expressions. Keys instantiates Manager at `ApiKey`; the SQL
--   statements of `revokeById`, `deleteById` and `revokeExpired` stand in Manager for any table.
-- - S3: src/s3/operations.ts and the operation names of src/s3/types.ts. Names has `ACTION_MAP` and
--   `R2_SUPPORTED`, Operations `parsePath`, `detectOperation` and `buildOp`, ConditionFields
--   `buildConditionFields`. S3/Iam instantiates the manager at the credentials of src/s3/iam.ts.
-- - Admin: src/auth-admin.ts, its middleware as functions to a verdict: `next` with a role, or the
--   status of the answer.
-- - Upstream: src/upstream-tokens.ts in Tokens and src/s3/upstream-r2.ts in R2. Both managers do the
--   same to tables of their own, so that Registry has their statements, cache and resolution over an
--   interface `Entry` of columns, which the two fill. Registry/Refinement sets the registry with its
--   cache against a table without one. Binding: src/routes/token-binding.ts, whose error messages are
--   constructors.
-- - Config: src/config-registry.ts, and src/config-cache.ts in IsolateCache. The numbers of
--   JavaScript are the interface `Numbers`.
-- - Collapse: src/request-collapse.ts. Flights live in a store, and `collapseOrCreate` is cut where it
--   waits; Run is the relation of the states that requests, settled promises and timers reach, Log a
--   record of when each promise was settled, which the code does not have.
-- - Gatekeeper: src/durable-object.ts, with all the managers and buckets in one state. `doPurge` is cut
--   at its call of the upstream and holds its bucket across it: the account's buckets live in a store. KeyMethods has the methods that change keys, Reach the relation of
--   the states that the methods reach, Rebuild the change of the buckets by a configuration.
--
-- What is not this program's code is a parameter: regular expressions and floating-point numbers
-- (Policy.Runtime), `JSON.parse` and `JSON.stringify` of policies (`parse`, `stringify`), the URL
-- parser (`parse_url`), `decodeURIComponent` (`decode`), `Date.now()` (`now`) and generated ids
-- (`fresh`, `secret`), `trim` and `toLowerCase` of texts, `timingSafeEqual` (`same`), the names
-- that every object inherits (`inherited`), the environment (`env`). An operation reads the clock
-- once.
--
-- Bounds: the token bucket counts thousandths of a token, which are whole where rates are whole
-- numbers and times milliseconds; rates and sizes with fractions are not modelled. The source counts
-- in binary doubles: their rounding is left out, by which its tokens can differ from the model's by a
-- rounding error, and a retry-after time by a second. Every loop is structural recursion; no fuel is
-- used. Evaluation of conditions stops at 20 levels, as in the source.
--
-- Not modelled: validation of policies, the purge route, S3 signatures and routes, access tokens, the
-- service proxies, analytics, audit log, dashboard and command line. Log lines, the texts of error
-- bodies, headers and schema migrations are left out of what is modelled.
pub mod Admin
pub mod Base
pub mod Collapse
pub mod Config
pub mod Credentials
pub mod Gatekeeper
pub mod Policy
pub mod RateLimit
pub mod S3
pub mod Upstream
