-- ===== src/Gatekeeper/Tests.antt =====
-- The theorems of the durable object at concrete states.
use purge_api_gateway.Base.{
  ◌==◌, if◌then◌else◌, [], ◌∷◌, List, true, false, ℕ, ◌+◌, ◌-◌, ◌*◌, ◌≤◌, ◌≡◌, refl, pos, Option,
  none, some, Str, lit, ltb, arith,
}
use purge_api_gateway.Policy.Types.{PolicyDocument}
use purge_api_gateway.Policy.Sample.{literal_patterns, purger}
use purge_api_gateway.RateLimit.TokenBucket
use purge_api_gateway.RateLimit.TokenBucket.{TokenBucket}
use purge_api_gateway.Credentials.Keys.{ApiKey}
use purge_api_gateway.Config.{Numbers, get_config}
use purge_api_gateway.Gatekeeper.{
  bulk, Gatekeeper, answered, begin_purge, start_purge, finish_purge, positive_tokens,
  rebuild_buckets,
}
use purge_api_gateway.Gatekeeper.Rebuild.{Rebuilt, rebuild_buckets-Rebuilt}
use purge_api_gateway.Gatekeeper.Invariant.{Limited}
use purge_api_gateway.Gatekeeper.Reach.{Reached, start, step, beginning, Reached-Limited}
use purge_api_gateway.Gatekeeper.Budget.{
  Purging, begins, ends, AreInOrder, advance, sent, after, upstream_budget,
}

abbrev parse : Str → Option PolicyDocument
parse s = some purger

abbrev stringify : PolicyDocument → Str
stringify policy = lit "purger"

abbrev number_in : Str → ℕ
number_in (n ∷ []) = n
number_in _ = 0

abbrev whole : Numbers ℕ
whole = record {
  of_nat = λ n. n;
  of_text = number_in;
  to_text = λ n. n ∷ [];
  is_positive = λ n. ltb 0 n;
  is_finite = λ n. true;
}

-- A key with limits of its own for bulk purges.
abbrev limited_key : ApiKey
limited_key = record {
  id = lit "gw_1";
  name = lit "deploy";
  zone_id = none;
  created_at = 1;
  expires_at = none;
  revoked = false;
  policy = lit "purger";
  created_by = none;
  bulk_rate = some 3;
  bulk_bucket = some 6;
  single_rate = none;
  single_bucket = none;
  upstream_token_id = none;
}

abbrev initial : Gatekeeper literal_patterns
initial = record {
  buckets = λ i. if i == 0 then TokenBucket.create 0 50 500 else TokenBucket.create 0 3000 6000;
  next_bucket = 2;
  bulk_bucket = 0;
  single_bucket = 1;
  s3_bucket = TokenBucket.create 0 100 200;
  cf_proxy_bucket = TokenBucket.create 0 200 400;
  iam = record { table = limited_key ∷ []; cache = []; regexes = [] };
  s3_iam = record { table = []; cache = []; regexes = [] };
  upstream_tokens = record { rows = []; resolve_cache = [] };
  upstream_r2 = record { rows = []; resolve_cache = [] };
  config = record { rows = []; cache = none };
  key_buckets = [];
}

abbrev purged : Gatekeeper literal_patterns
purged =
    (begin_purge literal_patterns parse stringify 60 whole (λ s. false) (λ s. none) 5
      (some (lit "gw_1")) bulk (pos 2) initial).1

purged-Reached : Reached literal_patterns parse stringify 60 whole (λ s. false) (λ s. none) purged
purged-Reached = step (start initial refl) (beginning 5 (some (lit "gw_1")) bulk (pos 2))

Reached-Limited_example :
    Limited literal_patterns parse stringify 60 whole (λ s. false) (λ s. none) purged
Reached-Limited_example =
    Reached-Limited literal_patterns parse stringify 60 whole (λ s. false) (λ s. none)
      purged-Reached

-- The object when the buckets of the account are not those of the configuration.
abbrev resized : Gatekeeper literal_patterns
resized = record initial { buckets = λ i. TokenBucket.create 0 10 20 }

rebuild_buckets-Rebuilt_example :
    Rebuilt literal_patterns parse stringify 60 whole
      (λ s. false)
      (λ s. none)
      90
      (get_config whole (λ s. none) resized.config).0
      resized
      (rebuild_buckets literal_patterns parse stringify 60 whole
        (λ s. false)
        (λ s. none)
        90
        resized)
rebuild_buckets-Rebuilt_example =
    rebuild_buckets-Rebuilt literal_patterns parse stringify 60 whole (λ s. false) (λ s. none) 90
      resized (omega arith) (omega arith)

-- Two purges, the second of which is over the limit of a bucket of 5 tokens, and an answer 429.
abbrev two_purges : List Purging
two_purges = begins 10 (pos 4) ∷ begins 10 (pos 2) ∷ ends 20 (answered 429 none) ∷ []

sent_once : sent two_purges (TokenBucket.create 10 1 5) ≡ 4
unfolding sent advance start_purge finish_purge positive_tokens TokenBucket.create
    TokenBucket.consume TokenBucket.take_tokens TokenBucket.refill TokenBucket.drain
sent_once = refl

two_purges-AreInOrder :
    AreInOrder ((after [] (TokenBucket.create 10 1 5)).last_refill) 20 two_purges
unfolding after TokenBucket.create
two_purges-AreInOrder = (omega arith, (omega arith, (omega arith, omega arith)))

upstream_budget_example :
    sent two_purges (after [] (TokenBucket.create 10 1 5)) * 1000
    ≤ 5 * 1000 + (20 - (after [] (TokenBucket.create 10 1 5)).last_refill) * 1
upstream_budget_example = upstream_budget 10 1 5 [] two_purges 20 two_purges-AreInOrder
