-- ===== src/Ingest/RateLimit.antt =====
-- `TokenBucketRateLimiter` of services/ingress_rate_limit.py, with `bucket_refill_per_second` and
-- `preauth_bucket_capacity` of domain/ingestion.py, and `_limit` of services/ingestion.py. Tokens are
-- exact where the program's are floats: a token is 60,000,000 units, so that a limiter of `n` requests
-- per minute refills `n` units in a microsecond.
pub mod Buckets
pub mod Rate
use limnopulse.Prelude.{
  ℕ, ◌+◌, ◌-◌, ◌*◌, ◌/◌, min, max, Bool, true, false, not, ◌&&◌, Option, none, some, List, [], ◌∷◌,
  ◌++◌, if◌then◌else◌, leb, ◌==◌, length,
}
use limnopulse.Ingest.{Ident, Instant}

abbrev pub token : ℕ
token = 60000000

abbrev pub second : ℕ
second = 1000000

-- `capacity`, `refill_per_second` and `max_keys`
pub record Limits : Type 0 where
  pub capacity : ℕ
  pub refill : ℕ
  pub max_keys : ℕ

pub record Bucket : Type 0 where
  pub tokens : ℕ
  pub last : Instant

-- `_buckets`: an ordered dictionary, the least recently used key first
abbrev pub Buckets : Type 0
Buckets = List (Ident × Bucket)

-- the checks of `__init__`
unfoldable pub validate_limits : Limits → Bool
validate_limits limits = leb 1 limits.capacity && leb 1 limits.refill && leb 1 limits.max_keys

-- `_buckets.get(key)`
unfoldable pub find : Ident → Buckets → Option Bucket
find k [] = none
find k ((j, b) ∷ bs) = if j == k then some b else find k bs

unfoldable pub remove : Ident → Buckets → Buckets
remove k [] = []
remove k ((j, b) ∷ bs) = let rest = remove k bs in if j == k then rest else (j, b) ∷ rest

-- `while len(self._buckets) >= self.max_keys: self._buckets.popitem(last=False)`
unfoldable pub evict : ℕ → Buckets → Buckets
evict max_keys [] = []
evict max_keys (b ∷ bs) =
    let rest = evict max_keys bs in if leb max_keys (length (b ∷ bs)) then rest else b ∷ bs

-- the bucket at a reading of the clock, which may be older than the bucket
unfoldable pub refilled : Limits → Instant → Bucket → Bucket
refilled limits now b = record {
  tokens = min (limits.capacity * token) (b.tokens + (now - b.last) * limits.refill);
  last = max now b.last;
}

-- `none` when a token was taken, else the units that are missing for one
unfoldable pub spend : Bucket → Option ℕ × Bucket
spend b =
    if leb token b.tokens
    then (none, record b { tokens = b.tokens - token })
    else (some (token - b.tokens), b)

-- the kept buckets, with the key's bucket last
abbrev pub store : Ident → Buckets → Option ℕ × Bucket → Option ℕ × Buckets
store k bs (r, b) = (r, bs ++ (k, b) ∷ [])

-- `try_acquire`, on the bucket of the key
unfoldable pub acquire : Limits → Ident → Instant → Buckets → Option Bucket → Option ℕ × Buckets
unfolding evict remove refilled spend
acquire limits k now bs none =
    store k (evict limits.max_keys bs)
      (spend (record { tokens = limits.capacity * token; last = now }))
acquire limits k now bs (some b) = store k (remove k bs) (spend (refilled limits now b))

-- `try_acquire`
unfoldable pub try_acquire : Limits → Ident → Instant → Buckets → Option ℕ × Buckets
unfolding acquire find
try_acquire limits k now bs = acquire limits k now bs (find k bs)

-- the `Retry-After` of `_limit`, in seconds: the missing units over the refill of a second. The
-- quotient is a float's, and the `ceil` of it is a parameter.
unfoldable pub retry_after : (ℕ → ℕ → ℕ) → Limits → ℕ → ℕ
retry_after ceil_quotient limits missing = max 1 (ceil_quotient missing (limits.refill * second))

-- `preauth_bucket_capacity`
unfoldable pub preauth_bucket_capacity : ℕ → ℕ
preauth_bucket_capacity per_minute = max 1 (per_minute / 10)
