-- ===== src/Ingest/RateLimit/Buckets.antt =====
-- The table of buckets: one for each key, and no more than the limiter may hold.
use limnopulse.Prelude.{
  ℕ, ◌*◌, ◌≤◌, ◌<◌, ◌≡◌, refl, ◌⊎◌, inl, inr, false, Option, none, some, [], ◌∷◌, ◌++◌, leb, ◌==◌,
  length, length-append, Bool-cases, arith, ◌∙◌,
}
use limnopulse.Ingest.{Ident, Instant}
use limnopulse.Ingest.RateLimit.{
  Limits, Bucket, Buckets, find, remove, evict, spend, store, acquire, try_acquire, refilled, token,
}

-- No key is listed twice.
abbrev pub Distinct : Buckets → Type 0
Distinct [] = Unit
Distinct ((j, b) ∷ bs) = (find j bs ≡ none) × Distinct bs

pub find-append_self :
    (k : Ident) (b : Bucket) (bs : Buckets) → find k bs ≡ none → find k (bs ++ (k, b) ∷ []) ≡ some b
unfolding find
find-append_self k b [] h = ground arith
find-append_self k b ((i, c) ∷ bs) h = ground (arith, find-append_self k b bs)

find-append_other :
    (k j : Ident) (b : Bucket) (bs : Buckets)
    → (k == j) ≡ false
    → find j (bs ++ (k, b) ∷ []) ≡ find j bs
unfolding find
find-append_other k j b [] h = ground arith
find-append_other k j b ((i, c) ∷ bs) h = ground (arith, find-append_other k j b bs h)

find-remove : (k : Ident) (bs : Buckets) → find k (remove k bs) ≡ none
unfolding find remove
find-remove k [] = refl
find-remove k ((i, c) ∷ bs) = ground (arith, find-remove k bs)

find-remove_other :
    (k j : Ident) (bs : Buckets) → (j == k) ≡ false → find k (remove j bs) ≡ find k bs
unfolding find remove
find-remove_other k j [] h = refl
find-remove_other k j ((i, c) ∷ bs) h = ground (arith, find-remove_other k j bs h)

-- an eviction drops the bucket of a key, or leaves it as it is
find-evict :
    (k : Ident) (n : ℕ) (bs : Buckets)
    → Distinct bs
    → (find k (evict n bs) ≡ none) ⊎ (find k (evict n bs) ≡ find k bs)
unfolding find evict
find-evict k n [] h = inl refl
find-evict k n ((i, c) ∷ bs) h = ground (arith, find-evict k n bs h.1)

Distinct-evict : (n : ℕ) (bs : Buckets) → Distinct bs → Distinct (evict n bs)
unfolding evict
Distinct-evict n [] h = tt
Distinct-evict n (b ∷ bs) h = elim (Bool-cases (leb n (length (b ∷ bs)))) [
  | inl full ↦ rw (full, evict) (Distinct-evict n bs h.1)
  | inr fits ↦ rw (fits, evict) h
]

find-remove-none : (k j : Ident) (bs : Buckets) → find k bs ≡ none → find k (remove j bs) ≡ none
unfolding find remove
find-remove-none k j [] h = refl
find-remove-none k j ((i, c) ∷ bs) h = ground (arith, find-remove-none k j bs)

Distinct-remove : (k : Ident) (bs : Buckets) → Distinct bs → Distinct (remove k bs)
unfolding remove
Distinct-remove k [] h = tt
Distinct-remove k ((i, c) ∷ bs) h = elim (Bool-cases (i == k)) [
  | inl same ↦ rw same (Distinct-remove k bs h.1)
  | inr other ↦ rw other (find-remove-none i k bs h.0, Distinct-remove k bs h.1)
]

Distinct-append :
    (k : Ident) (b : Bucket) (bs : Buckets)
    → find k bs ≡ none
    → Distinct bs
    → Distinct (bs ++ (k, b) ∷ [])
unfolding find
Distinct-append k b [] h d = (refl, tt)
Distinct-append k b ((i, c) ∷ bs) h d =
    let apart : (i == k) ≡ false = ground arith in
    let rest : find k bs ≡ none = ground arith in
    (find-append_other k i b bs (ground arith) ∙ d.0, Distinct-append k b bs rest d.1)

length-evict : (n : ℕ) (bs : Buckets) → 1 ≤ n → length (evict n bs) < n
unfolding evict
length-evict n [] h = h
length-evict n (b ∷ bs) h = ground (arith, length-evict n bs h)

length-remove_le : (k : Ident) (bs : Buckets) → length (remove k bs) ≤ length bs
unfolding remove
length-remove_le k [] = omega arith
length-remove_le k ((i, c) ∷ bs) = ground (arith, length-remove_le k bs)

length-remove :
    (k : Ident) (b : Bucket) (bs : Buckets) → find k bs ≡ some b → length (remove k bs) < length bs
unfolding find remove
length-remove k b [] h = ground arith
length-remove k b ((i, c) ∷ bs) h = ground (arith, length-remove_le k bs, length-remove k b bs)

-- What every table of a limiter satisfies.
pub record IsTable (limits : Limits) (bs : Buckets) : Type 0 where
  pub distinct : Distinct bs
  pub few : length bs ≤ limits.max_keys

-- where the key has no bucket after the eviction, it is new there
evict_absent :
    (k : Ident) (n : ℕ) (bs : Buckets) → Distinct bs → find k bs ≡ none → find k (evict n bs) ≡ none
evict_absent k n bs d h = elim (find-evict k n bs d) [ inl gone ↦ gone | inr same ↦ same ∙ h ]

module _ (limits : Limits) (k : Ident) (now : Instant) (bs : Buckets) where
  store-IsTable :
      (kept : Buckets) (p : Option ℕ × Bucket)
      → Distinct kept
      → find k kept ≡ none
      → length kept < limits.max_keys
      → IsTable limits (store k kept p).1
  store-IsTable kept (r, b) d absent short = record {
    distinct = Distinct-append k b kept absent d;
    few = omega (arith, length-append kept ((k, b) ∷ []));
  }

  acquire-IsTable :
      (o : Option Bucket)
      → find k bs ≡ o
      → 1 ≤ limits.max_keys
      → IsTable limits bs
      → IsTable limits (acquire limits k now bs o).1
  unfolding acquire
  acquire-IsTable none e some_keys h =
      store-IsTable (evict limits.max_keys bs)
        (spend (record { tokens = limits.capacity * token; last = now }))
        (Distinct-evict limits.max_keys bs h.distinct)
        (evict_absent k limits.max_keys bs h.distinct e) (length-evict limits.max_keys bs some_keys)
  acquire-IsTable (some b) e some_keys h =
      store-IsTable (remove k bs) (spend (refilled limits now b)) (Distinct-remove k bs h.distinct)
        (find-remove k bs) (omega (arith, length-remove k b bs e, h.few))

  pub try_acquire-IsTable :
      1 ≤ limits.max_keys → IsTable limits bs → IsTable limits (try_acquire limits k now bs).1
  unfolding try_acquire
  try_acquire-IsTable some_keys h = acquire-IsTable (find k bs) refl some_keys h

  -- a call on another key drops the bucket of a key, or leaves it as it is
  acquire_other :
      (j : Ident) (o : Option Bucket)
      → (k == j) ≡ false
      → Distinct bs
      → (find j (acquire limits k now bs o).1 ≡ none)
        ⊎ (find j (acquire limits k now bs o).1 ≡ find j bs)
  unfolding acquire
  acquire_other j none apart d =
      let rest =
        find-append_other k j (spend (record { tokens = limits.capacity * token; last = now })).1
          (evict limits.max_keys bs) apart in
      elim (find-evict j limits.max_keys bs d) [
        | inl gone ↦ inl (rest ∙ gone)
        | inr same ↦ inr (rest ∙ same)
      ]
  acquire_other j (some b) apart d = inr (
      find-append_other k j (spend (refilled limits now b)).1 (remove k bs) apart
      ∙ find-remove_other j k bs apart)

  -- what the key's own bucket holds after a call
  abbrev pub spent : Option Bucket → Option ℕ × Bucket
  spent none = spend (record { tokens = limits.capacity * token; last = now })
  spent (some b) = spend (refilled limits now b)

  acquire_self :
      (o : Option Bucket)
      → find k bs ≡ o
      → Distinct bs
      → ((acquire limits k now bs o).0 ≡ (spent o).0)
        × (find k (acquire limits k now bs o).1 ≡ some (spent o).1)
  unfolding acquire
  acquire_self none e d = (
    refl,
    find-append_self k (spent none).1 (evict limits.max_keys bs)
        (evict_absent k limits.max_keys bs d e),
  )
  acquire_self (some b) e d =
      (refl, find-append_self k (spent (some b)).1 (remove k bs) (find-remove k bs))

  pub try_acquire_self :
      Distinct bs
      → ((try_acquire limits k now bs).0 ≡ (spent (find k bs)).0)
        × (find k (try_acquire limits k now bs).1 ≡ some (spent (find k bs)).1)
  unfolding try_acquire
  try_acquire_self d = acquire_self (find k bs) refl d

  pub try_acquire_other :
      (j : Ident)
      → (k == j) ≡ false
      → Distinct bs
      → (find j (try_acquire limits k now bs).1 ≡ none)
        ⊎ (find j (try_acquire limits k now bs).1 ≡ find j bs)
  unfolding try_acquire
  try_acquire_other j apart d = acquire_other j (find k bs) apart d
