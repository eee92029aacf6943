-- ===== src/Ingest/RateLimit/Rate.antt =====
-- How much a limiter lets through, and what its refusals promise.
use native.Mathlib.Nat.{add-mul, mul_comm, mul_assoc, mul-le-mul_right}
use limnopulse.Prelude.{
  ℕ, ◌+◌, ◌-◌, ◌*◌, min, max, ◌≤◌, ◌<◌, ◌≡◌, refl, ◌⊎◌, inl, inr, true, ◌&&◌, not, Option, none,
  some, List, [], ◌∷◌, if◌then◌else◌, ◌==◌, Bool-cases, ==_iff, is_some, arith, sym, ◌∙◌, ap,
}
use limnopulse.Ingest.{Ident, Instant}
use limnopulse.Ingest.RateLimit.{
  Limits, Bucket, Buckets, token, second, find, spend, refilled, try_acquire, retry_after,
  validate_limits,
}
use limnopulse.Ingest.RateLimit.Buckets.{
  IsTable, Distinct, try_acquire-IsTable, spent, try_acquire_self, try_acquire_other,
}

-- a count of the granted calls on a key, after a call
abbrev pub count_grant : Ident → Ident → Option ℕ → ℕ → ℕ
count_grant k j r n = if j == k && not (is_some r) then n + 1 else n

-- how many of the calls on a key were granted, from a count on
abbrev pub granted : Limits → Ident → ℕ → List (Ident × Instant) → Buckets → ℕ
granted limits k n [] bs = n
granted limits k n ((j, now) ∷ calls) bs =
    let (r, bs') = try_acquire limits j now bs in granted limits k (count_grant k j r n) calls bs'

-- The key's bucket is never dropped for other keys.
abbrev pub IsKept : Limits → Ident → List (Ident × Instant) → Buckets → Type 0
IsKept limits k [] bs = Unit
IsKept limits k ((j, now) ∷ calls) bs =
    let bs' = (try_acquire limits j now bs).1 in
    (is_some (find k bs) ≡ true → is_some (find k bs') ≡ true) × IsKept limits k calls bs'

-- Every reading of the clock lies between two instants.
abbrev pub IsDuring : Instant → Instant → List (Ident × Instant) → Type 0
IsDuring t u [] = Unit
IsDuring t u ((j, now) ∷ calls) = (t ≤ now) × (now ≤ u) × IsDuring t u calls

-- What was granted since `t` and what is left is no more than a full bucket and the refill since `t`.
abbrev pub IsPaid : Limits → Instant → Instant → ℕ → Option Bucket → Type 0
IsPaid limits t u n none = n ≡ 0
IsPaid limits t u n (some b) =
    (t ≤ b.last)
    × (b.last ≤ u)
    × (n * token + b.tokens ≤ limits.capacity * token + (b.last - t) * limits.refill)

module _ (limits : Limits) (t u : Instant) where
  elapsed :
      (last now : Instant)
      → t ≤ last
      → (now - last) * limits.refill + (last - t) * limits.refill
        ≡ (max now last - t) * limits.refill
  elapsed last now h =
      let e : (now - last) + (last - t) ≡ max now last - t = omega arith in
      sym (add-mul (now - last) (last - t) limits.refill) ∙ ap (λ (d : ℕ). d * limits.refill) e

  spend-IsPaid :
      (n : ℕ) (b : Bucket)
      → IsPaid limits t u n (some b)
      → IsPaid limits t u (if not (is_some (spend b).0) then n + 1 else n) (some (spend b).1)
  unfolding spend
  spend-IsPaid n b h = ground arith

  refilled-IsPaid :
      (n : ℕ) (b : Bucket) (now : Instant)
      → now ≤ u
      → IsPaid limits t u n (some b)
      → IsPaid limits t u n (some (refilled limits now b))
  unfolding refilled
  refilled-IsPaid n b now late h = omega (arith, elapsed b.last now h.0)

  module _ (k : Ident) where
    -- a new bucket is full
    spent-IsPaid :
        (n : ℕ) (now : Instant) (bs : Buckets) (o : Option Bucket)
        → t ≤ now
        → now ≤ u
        → IsPaid limits t u n o
        → IsPaid limits t u
            (if not (is_some (spent limits k now bs o).0) then n + 1 else n)
            (some (spent limits k now bs o).1)
    spent-IsPaid n now bs none early late h =
        spend-IsPaid n (record { tokens = limits.capacity * token; last = now })
          (early, late, omega (arith, h))
    spent-IsPaid n now bs (some b) early late h =
        spend-IsPaid n (refilled limits now b) (refilled-IsPaid n b now late h)

    other-IsPaid :
        (n : ℕ) (o o' : Option Bucket)
        → (o' ≡ none) ⊎ (o' ≡ o)
        → (is_some o ≡ true → is_some o' ≡ true)
        → IsPaid limits t u n o
        → IsPaid limits t u n o'
    other-IsPaid n none o' (inl gone) kept h = rw gone h
    other-IsPaid n (some b) o' (inl gone) kept h = absurd (let e = kept refl in ground arith)
    other-IsPaid n o o' (inr same) kept h = rw same h

    paid_bound :
        (n : ℕ) (o : Option Bucket)
        → IsPaid limits t u n o
        → n * token ≤ limits.capacity * token + (u - t) * limits.refill
    paid_bound n none h = omega (arith, h)
    paid_bound n (some b) h =
        let late : b.last - t ≤ u - t = omega (arith, h.1) in
        omega (arith, h.2, mul-le-mul_right limits.refill late)

    own-IsPaid :
        (n : ℕ) (now : Instant) (bs : Buckets)
        → Distinct bs
        → t ≤ now
        → now ≤ u
        → IsPaid limits t u n (find k bs)
        → IsPaid limits t u
            (if not (is_some (try_acquire limits k now bs).0) then n + 1 else n)
            (find k (try_acquire limits k now bs).1)
    own-IsPaid n now bs d early late h =
        let own = try_acquire_self limits k now bs d in
        rw (own.0, own.1) (spent-IsPaid n now bs (find k bs) early late h)

    step-IsPaid :
        (n : ℕ) (j : Ident) (now : Instant) (bs : Buckets)
        → Distinct bs
        → t ≤ now
        → now ≤ u
        → (is_some (find k bs) ≡ true → is_some (find k (try_acquire limits j now bs).1) ≡ true)
        → IsPaid limits t u n (find k bs)
        → IsPaid limits t u
            (count_grant k j (try_acquire limits j now bs).0 n)
            (find k (try_acquire limits j now bs).1)
    step-IsPaid n j now bs d early late kept h = elim (Bool-cases (j == k)) [
      | inr apart ↦
          rw apart
            (other-IsPaid n (find k bs) _ (try_acquire_other limits j now bs k apart d) kept h)
      | inl same ↦
          let e : j ≡ k = (==_iff j k).0 same in rw (same, e) (own-IsPaid n now bs d early late h)
    ]

    rate_run :
        (n : ℕ) (calls : List (Ident × Instant)) (bs : Buckets)
        → 1 ≤ limits.max_keys
        → IsTable limits bs
        → IsDuring t u calls
        → IsKept limits k calls bs
        → IsPaid limits t u n (find k bs)
        → granted limits k n calls bs * token ≤ limits.capacity * token + (u - t) * limits.refill
    rate_run n [] bs some_keys table during kept paid = paid_bound n (find k bs) paid
    rate_run n ((j, now) ∷ calls) bs some_keys table during kept paid =
        let r = try_acquire limits j now bs in
        rate_run (count_grant k j r.0 n) calls r.1 some_keys
          (try_acquire-IsTable limits j now bs some_keys table) during.2 kept.1
          (step-IsPaid n j now bs table.distinct during.0 during.1 kept.0 paid)

-- A limiter lets through no more than its capacity and what is refilled: of the calls on one key in a
-- window of time, on a new limiter and in any order, whatever the calls on other keys, and where the
-- key's bucket is not dropped for those, no more are granted than the capacity and the refill of the
-- window make up.
pub granted_bound :
    (limits : Limits) (t u : Instant) (k : Ident) (calls : List (Ident × Instant))
    → validate_limits limits ≡ true
    → IsDuring t u calls
    → IsKept limits k calls []
    → granted limits k 0 calls [] * token ≤ limits.capacity * token + (u - t) * limits.refill
unfolding validate_limits find
granted_bound limits t u k calls valid during kept =
    rate_run limits t u k 0 calls [] (ground arith) (record { distinct = tt; few = omega arith })
      during kept refl

scaled : (q n r : ℕ) → q ≤ n → q * (r * second) ≤ n * second * r
scaled q n r h =
    let e : n * (r * second) ≡ n * second * r =
      ap (λ (x : ℕ). n * x) (mul_comm r second) ∙ sym (mul_assoc n second r) in
    omega (arith, mul-le-mul_right {m = q} {n = n} (r * second) h, e)

-- A quotient that is rounded, and then rounded up, falls short of the exact one by less than 1.
abbrev pub IsNear : (ℕ → ℕ → ℕ) → Type 0
IsNear ceil_quotient = (a b : ℕ) → 0 < b → a ≤ (ceil_quotient a b + 1) * b

-- a wait of `Retry-After` seconds and one more refills what was missing
waited_enough :
    (ceil_quotient : ℕ → ℕ → ℕ) (limits : Limits) (missing : ℕ)
    → IsNear ceil_quotient
    → 1 ≤ limits.refill
    → missing ≤ (retry_after ceil_quotient limits missing + 1) * second * limits.refill
unfolding retry_after
waited_enough ceil_quotient limits missing near h =
    let d = limits.refill * second in
    let q = ceil_quotient missing d in
    let bound : missing ≤ (q + 1) * d = near missing d (omega arith) in
    let more : q + 1 ≤ max 1 q + 1 = omega arith in
    omega (arith, bound, scaled (q + 1) (max 1 q + 1) limits.refill more)

-- The reading is no older than the key's bucket.
abbrev pub IsRecent : Instant → Option Bucket → Type 0
IsRecent now none = Unit
IsRecent now (some b) = b.last ≤ now

spend_refused :
    (b : Bucket) (missing : ℕ)
    → (spend b).0 ≡ some missing
    → ((spend b).1 ≡ b) × (missing + b.tokens ≡ token)
unfolding spend
spend_refused b missing h = (ground arith, ground arith)

module _ (limits : Limits) (valid : validate_limits limits ≡ true) where
  some_keys : 1 ≤ limits.max_keys
  unfolding validate_limits
  some_keys = let h = valid in ground arith

  spend_full :
      (now : Instant) → (spend (record { tokens = limits.capacity * token; last = now })).0 ≡ none
  unfolding spend validate_limits
  spend_full now = let h = valid in ground arith

module _ (ceil_quotient : ℕ → ℕ → ℕ) (near : IsNear ceil_quotient) (limits : Limits)
    (valid : validate_limits limits ≡ true) where
  spend_later :
      (b : Bucket) (missing : ℕ) (later : Instant)
      → missing + b.tokens ≡ token
      → b.last + (retry_after ceil_quotient limits missing + 1) * second ≤ later
      → (spend (refilled limits later b)).0 ≡ none
  unfolding spend refilled validate_limits
  spend_later b missing later short waited =
      let h = valid in
      let refills : 1 ≤ limits.refill = ground arith in
      let some_tokens : 1 ≤ limits.capacity = ground arith in
      let gap : (retry_after ceil_quotient limits missing + 1) * second ≤ later - b.last =
        omega arith in
      let enough = waited_enough ceil_quotient limits missing near refills in
      let credit = mul-le-mul_right limits.refill gap in
      let full : token
          ≤ min (limits.capacity * token) (b.tokens + (later - b.last) * limits.refill) =
        omega arith in
      ground arith

  module _ (k : Ident) (now later : Instant) (missing : ℕ) (bs : Buckets) where
    spent_later :
        (o : Option Bucket)
        → IsRecent now o
        → (spent limits k now bs o).0 ≡ some missing
        → now + (retry_after ceil_quotient limits missing + 1) * second ≤ later
        → (spend (refilled limits later (spent limits k now bs o).1)).0 ≡ none
    unfolding refilled
    spent_later none recent refused waited =
        let full = spend_full limits valid now in absurd (ground arith)
    spent_later (some b) recent refused waited =
        let (same, short) = spend_refused (refilled limits now b) missing refused in
        rw same (spend_later (refilled limits now b) missing later short (ground arith))

    -- A refused caller that waits a second longer than `Retry-After` says is served: a call that is
    -- refused, and comes again after that many seconds and one more with no call in between, is granted,
    -- where the rounded quotient falls short by less than 1, the limits are valid, the table holds each key
    -- once and no more keys than it may, and the first reading of the clock is no older than the key's
    -- bucket.
    pub granted_second_later :
        IsTable limits bs
        → IsRecent now (find k bs)
        → (try_acquire limits k now bs).0 ≡ some missing
        → now + (retry_after ceil_quotient limits missing + 1) * second ≤ later
        → (try_acquire limits k later (try_acquire limits k now bs).1).0 ≡ none
    granted_second_later table recent refused waited =
        let first = try_acquire_self limits k now bs table.distinct in
        let next = (try_acquire limits k now bs).1 in
        let table' = try_acquire-IsTable limits k now bs (some_keys limits valid) table in
        let again = try_acquire_self limits k later next table'.distinct in
        again.0 ∙ rw first.1 (spent_later (find k bs) recent (sym first.0 ∙ refused) waited)
