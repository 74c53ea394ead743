-- ===== src/Gatekeeper/KeyLimits.antt =====
-- The buckets of keys: each has the limits that its key stores now, and there are at most 1024.
use purge_api_gateway.Base.{
  List, [], ◌∷◌, ℕ, ◌+◌, ◌≤◌, ℤ, ◌≡◌, refl, sym, subst, Option, none, some, Str, str_eq_iff, length,
  lookup, insert, delete, insert_inv, lookup-delete-some, length-delete-le, arith,
}
use mathlib.Core.Option
use mathlib.Core.Option.{some-injective, none-ne-some}
use purge_api_gateway.RateLimit.TokenBucket
use purge_api_gateway.RateLimit.TokenBucket.{TokenBucket}
use purge_api_gateway.Credentials.Table.{find}
use purge_api_gateway.Credentials.Keys.{ApiKey}
use purge_api_gateway.Gatekeeper.{
  RateClass, bulk, single, KeyBuckets, evict_lru, new_key_buckets, bucket_of, set_bucket,
  start_purge,
}

-- The number is that of the limit, if there is one.
abbrev pub Agrees : Option ℕ → ℕ → Type 0
Agrees none n = Unit
Agrees (some limit) n = n ≡ limit

-- Buckets have the limits that a key stores.
abbrev pub Follows : ApiKey → KeyBuckets → Type 0
Follows key b =
    Agrees key.bulk_rate b.bulk_bucket.rate
    × Agrees key.bulk_bucket b.bulk_bucket.bucket_size
    × Agrees key.single_rate b.single_bucket.rate
    × Agrees key.single_bucket b.single_bucket.bucket_size

-- Every key that has buckets is stored, with the limits of its buckets.
abbrev pub Enforced : List ApiKey → List (Str × KeyBuckets) → Type 0
Enforced table m =
    (id : Str) (b : KeyBuckets)
    → lookup id m ≡ some b
    → (key : ApiKey) × (find (λ (k : ApiKey). k.id) id table ≡ some key) × Follows key b

get_or-Agrees : (o : Option ℕ) (n : ℕ) → Agrees o (Option.get_or o n)
get_or-Agrees none n = tt
get_or-Agrees (some limit) n = refl

pub new_key_buckets-Follows :
    (now : ℕ) (key : ApiKey) (config : List (Str × ℕ))
    → Follows key (new_key_buckets now key config)
unfolding new_key_buckets TokenBucket.create
new_key_buckets-Follows now key config =
    (get_or-Agrees _ _, get_or-Agrees _ _, get_or-Agrees _ _, get_or-Agrees _ _)

start_purge_keeps :
    (now : ℕ) (tokens : ℤ) (b : TokenBucket)
    → ((start_purge now tokens b).1.rate ≡ b.rate)
      × ((start_purge now tokens b).1.bucket_size ≡ b.bucket_size)
unfolding start_purge TokenBucket.consume TokenBucket.take_tokens TokenBucket.refill
start_purge_keeps now tokens b = (ground arith, ground arith)

pub start_purge-Follows :
    (now : ℕ) (class : RateClass) (tokens : ℤ) (key : ApiKey) (b : KeyBuckets)
    → Follows key b
    → Follows key (set_bucket class (start_purge now tokens (bucket_of class b)).1 b)
start_purge-Follows now bulk tokens key b (rate, size, rate', size') =
    let (r, s) = start_purge_keeps now tokens b.bulk_bucket in
    (
      subst (Agrees key.bulk_rate) (sym r) rate,
      subst (Agrees key.bulk_bucket) (sym s) size,
      rate',
      size',
    )
start_purge-Follows now single tokens key b (rate, size, rate', size') =
    let (r, s) = start_purge_keeps now tokens b.single_bucket in
    (
      rate,
      size,
      subst (Agrees key.single_rate) (sym r) rate',
      subst (Agrees key.single_bucket) (sym s) size',
    )

pub insert-Enforced :
    (table : List ApiKey) (id : Str) (key : ApiKey) (b : KeyBuckets) (m : List (Str × KeyBuckets))
    → find (λ (k : ApiKey). k.id) id table ≡ some key
    → Follows key b
    → Enforced table m
    → Enforced table (insert id b m)
insert-Enforced table id key b m found follows h =
    insert_inv (λ i c. (k : ApiKey) × (find (λ (k : ApiKey). k.id) i table ≡ some k) × Follows k c)
      id b m (key, found, follows) h

pub delete-Enforced :
    (table : List ApiKey) (id : Str) (m : List (Str × KeyBuckets))
    → Enforced table m
    → Enforced table (delete id m)
delete-Enforced table id m h i b e = h i b (lookup-delete-some id i b m e).0

pub evict_lru-Enforced :
    (table : List ApiKey) (m : List (Str × KeyBuckets))
    → Enforced table m
    → Enforced table (evict_lru m)
unfolding evict_lru
evict_lru-Enforced table [] h = h
evict_lru-Enforced table ((k, b) ∷ m) h = delete-Enforced table k ((k, b) ∷ m) h

module _ {V : Type 0} where
  pub length-delete-lt :
      (k : Str) (v : V) (m : List (Str × V))
      → lookup k m ≡ some v
      → length (delete k m) + 1 ≤ length m
  unfolding lookup delete
  length-delete-lt k v [] h = absurd (none-ne-some _ h)
  length-delete-lt k v ((j, w) ∷ m) h = ground (arith, length-delete-lt k v m, length-delete-le k m)

  pub length-insert-same :
      (k : Str) (v w : V) (m : List (Str × V))
      → lookup k m ≡ some w
      → length (insert k v m) ≤ length m
  unfolding lookup insert
  length-insert-same k v w [] h = absurd (none-ne-some _ h)
  length-insert-same k v w ((j, u) ∷ m) h = ground (arith, length-insert-same k v w m)

pub evict_lru-lt :
    (m : List (Str × KeyBuckets)) → 1 ≤ length m → length (evict_lru m) + 1 ≤ length m
unfolding evict_lru lookup
evict_lru-lt [] h = absurd (omega (arith, h))
evict_lru-lt ((k, b) ∷ m) h =
    length-delete-lt k b ((k, b) ∷ m) (ground (arith, (str_eq_iff k k).1 refl))
