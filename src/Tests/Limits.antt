-- ===== src/Tests/Limits.antt =====
-- Rate limiters, on concrete calls.
use native.Mathlib.Nat.{lt-div-mul-add}
use limnopulse.Prelude.{
  ℕ, ◌/◌, ◌+◌, ◌-◌, ◌*◌, ◌≤◌, ◌≡◌, refl, true, none, some, List, [], ◌∷◌, arith,
}
use limnopulse.Ingest.{Ident, Instant}
use limnopulse.Ingest.RateLimit.{
  Limits, Buckets, token, validate_limits, find, remove, evict, try_acquire, retry_after,
}
use limnopulse.Ingest.RateLimit.Buckets.{IsTable}
use limnopulse.Ingest.RateLimit.Rate.{granted, IsKept, granted_bound, IsNear, granted_second_later}

-- two at once, and thirty per minute
abbrev limits : Limits
limits = record { capacity = 2; refill = 30; max_keys = 2 }

limits_valid : validate_limits limits ≡ true
unfolding validate_limits
limits_valid = refl

-- the third call on key 1 is refused, and the fourth comes two seconds later
abbrev calls : List (Ident × Instant)
calls = (1, 100) ∷ (2, 100) ∷ (1, 150) ∷ (1, 150) ∷ (1, 2000150) ∷ []

three_granted : granted limits 1 0 calls [] ≡ 3
unfolding try_acquire find remove evict
three_granted = refl

calls-IsKept : IsKept limits 1 calls []
unfolding try_acquire find remove evict
calls-IsKept = (λ h. refl, (λ h. refl, (λ h. refl, (λ h. refl, (λ h. refl, tt)))))

granted_bound_example : granted limits 1 0 calls [] * token ≤ 2 * token + (2000150 - 100) * 30
granted_bound_example =
    granted_bound limits 100 2000150 1 calls limits_valid (omega arith) calls-IsKept

-- a table with an empty bucket
abbrev drained : Buckets
drained = (2, record { tokens = 0; last = 90 }) ∷ (1, record { tokens = 0; last = 100 }) ∷ []

drained-IsTable : IsTable limits drained
unfolding find
drained-IsTable = record { distinct = (refl, (refl, tt)); few = omega arith }

drained_refuses : (try_acquire limits 1 100 drained).0 ≡ some 60000000
unfolding try_acquire find remove
drained_refuses = refl

-- the exact quotient, rounded up
abbrev ceil_quotient : ℕ → ℕ → ℕ
ceil_quotient a b = (a + b - 1) / b

ceil_quotient-IsNear : IsNear ceil_quotient
ceil_quotient-IsNear a b positive =
    let bound = lt-div-mul-add {a = a + b - 1} {b = b} positive in
    let more : ((a + b - 1) / b + 1) * b ≡ (a + b - 1) / b * b + b = grind arith in
    omega (arith, bound, more)

granted_second_later_example :
    (try_acquire limits 1 3000100 (try_acquire limits 1 100 drained).1).0 ≡ none
unfolding find retry_after
granted_second_later_example =
    granted_second_later ceil_quotient ceil_quotient-IsNear limits limits_valid 1 100 3000100
      60000000 drained drained-IsTable (omega arith) drained_refuses (omega arith)
