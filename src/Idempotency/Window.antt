-- ===== src/Idempotency/Window.antt =====
-- The two tests of a receipt's age: a lookup decides on the exact deadline, a write on whole seconds.
use limnopulse.Prelude.{◌+◌, ◌≤◌, ◌≡◌, some, true, arith}
use limnopulse.Ingest.{Ident, Instant}
use limnopulse.Idempotency.{
  IdempotencyReceipt, Replay, receipt_ttl, expires_epoch, receipt_put_allowed,
  get_idempotency_replay,
}

module _ {R : Type 0} (r : IdempotencyReceipt R) (now : Instant) where
  -- A receipt is overwritten only when a lookup no longer finds it, and from a second after its
  -- deadline on it always is.
  pub overwrite_window :
      (receipt_put_allowed now (some r) ≡ true
        → (request : Ident) → get_idempotency_replay (some r) request now ≡ Replay.absent)
      × (r.created_at + receipt_ttl + 1000000 ≤ now → receipt_put_allowed now (some r) ≡ true)
  unfolding receipt_put_allowed get_idempotency_replay expires_epoch
  overwrite_window = (λ h request. ground arith, λ h. ground arith)
