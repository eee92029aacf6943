-- ===== src/Idempotency.antt =====
-- Idempotency receipts of the v2 API: `IdempotencyReceipt` of domain/v2_common.py, and the receipt
-- requests of adapters/dynamodb_v2.py. A response snapshot is carried as the value that it encodes.
pub mod Window
use limnopulse.Prelude.{
  ℕ, ◌+◌, ◌*◌, ◌/◌, Bool, true, false, Option, none, some, if◌then◌else◌, leb, ◌==◌,
}
use limnopulse.Ingest.{Ident, Instant}

-- `IDEMPOTENCY_RECEIPT_TTL`
abbrev pub receipt_ttl : ℕ
receipt_ttl = 86400000000

-- `IdempotencyReceipt`; `expires_at` is `created_at + IDEMPOTENCY_RECEIPT_TTL`
pub record IdempotencyReceipt {ℓ} (R : Type ℓ) : Type ℓ where
  pub tenant_id : Ident
  pub key_hash : Ident
  pub request_hash : Ident
  pub response : R
  pub created_at : Instant

-- What a lookup of a receipt says: no live one, the response of the same request, or another request.
pub data Replay {ℓ} (R : Type ℓ) : Type ℓ where
  absent : Replay R
  response : R → Replay R
  mismatch : Replay R

module _ {ℓ} {R : Type ℓ} where
  -- the row's `expires_at`: epoch seconds, rounded up
  unfoldable pub expires_epoch : IdempotencyReceipt R → ℕ
  expires_epoch r = (r.created_at + receipt_ttl + 999999) / 1000000

  -- `receipt_put_request`: `attribute_not_exists(PK) OR #expires_at <= :now`
  unfoldable pub receipt_put_allowed : Instant → Option (IdempotencyReceipt R) → Bool
  unfolding expires_epoch
  receipt_put_allowed now none = true
  receipt_put_allowed now (some old) = leb (expires_epoch old) (now / 1000000)

  -- `get_idempotency_replay`
  unfoldable pub get_idempotency_replay : Option (IdempotencyReceipt R) → Ident → Instant → Replay R
  get_idempotency_replay none request now = Replay.absent
  get_idempotency_replay (some r) request now =
      if leb (r.created_at + receipt_ttl) now
      then Replay.absent
      else if r.request_hash == request
      then Replay.response r.response
      else Replay.mismatch
