-- ===== src/Ingest/Receipt.antt =====
-- Ingress receipts: domain/ingestion.py, the section "Receipts".
pub mod Adapter
pub mod Decide
use limnopulse.Prelude.{
  ℕ, ◌+◌, ◌-◌, ◌*◌, ◌/◌, ◌≤◌, ◌<◌, Bool, not, ◌&&◌, Option, none, some, ◌==◌, if◌then◌else◌,
}
use limnopulse.Prelude.Int.{ℤ, pos, ◌-ℤ◌, ltb_ℤ}
use limnopulse.Ingest.{Ident, Instant, Versions}

-- A `timedelta` from the epoch: whole days, and the normalised seconds and microseconds.
pub record Delta : Type 0 where
  pub days : ℕ
  pub seconds : ℕ
  pub microseconds : ℕ

unfoldable pub epoch_microseconds : Delta → ℕ
epoch_microseconds delta = (delta.days * 86400 + delta.seconds) * 1000000 + delta.microseconds

abbrev pub receipt_ttl_us : ℕ
receipt_ttl_us = 86400000000

-- `-(-(created_at_us + ttl) // 1_000_000)`: seconds, rounded up.
unfoldable pub receipt_expires_at : ℕ → ℕ
receipt_expires_at created_at_us = (created_at_us + receipt_ttl_us + 999999) / 1000000

pub data ReceiptState : Type 0 where
  pending enqueued : ReceiptState

abbrev pub is_enqueued : ReceiptState → Bool
is_enqueued s = elim s [ ReceiptState.enqueued ↦ Bool.true | _ ↦ Bool.false ]

-- `IngressReceipt`
pub record Receipt : Type 0 where
  pub integration_account_id : Ident
  pub tenant_id : Ident
  pub key_sha256 : Ident
  pub request_sha256 : Ident
  pub ingress_id : Ident
  pub received_at : Instant
  pub mapping_versions : Versions
  pub state : ReceiptState
  pub created_at : Instant
  pub created_at_us : ℕ
  pub expires_at : ℕ

-- `IngressReceipt.validate_receipt`
unfoldable pub validate_receipt : Receipt → Bool
unfolding receipt_expires_at
validate_receipt r =
    r.created_at_us == r.created_at && r.expires_at == receipt_expires_at r.created_at_us

unfoldable pub new_ingress_receipt :
    (integration_account_id tenant_id key_sha256 request_sha256 ingress_id : Ident)
    → (received_at : Instant) → Versions
    → (created_at : Instant) → Receipt
unfolding receipt_expires_at
new_ingress_receipt account tenant key request ingress received versions created = record {
  integration_account_id = account;
  tenant_id = tenant;
  key_sha256 = key;
  request_sha256 = request;
  ingress_id = ingress;
  received_at = received;
  mapping_versions = versions;
  state = ReceiptState.pending;
  created_at = created;
  created_at_us = created;
  expires_at = receipt_expires_at created;
}

unfoldable pub ingress_receipt_cutoff_us : Instant → ℤ
unfolding ◌-ℤ◌
ingress_receipt_cutoff_us now = pos now -ℤ pos receipt_ttl_us

unfoldable pub is_ingress_receipt_live : Receipt → Instant → Bool
unfolding ingress_receipt_cutoff_us
is_ingress_receipt_live receipt now =
    ltb_ℤ (ingress_receipt_cutoff_us now) (pos receipt.created_at_us)

-- `IngressReceiptAction`
pub data ReceiptAction : Type 0 where
  admit replay resume conflict : ReceiptAction

unfoldable pub decide_receipt_replay : Option Receipt → Ident → Instant → ReceiptAction
unfolding is_ingress_receipt_live
decide_receipt_replay none request_sha256 now = ReceiptAction.admit
decide_receipt_replay (some receipt) request_sha256 now =
    if not (is_ingress_receipt_live receipt now)
    then ReceiptAction.admit
    else if not (receipt.request_sha256 == request_sha256)
    then ReceiptAction.conflict
    else if is_enqueued receipt.state
    then ReceiptAction.replay
    else ReceiptAction.resume
