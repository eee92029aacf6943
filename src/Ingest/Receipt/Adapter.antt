-- ===== src/Ingest/Receipt/Adapter.antt =====
-- `DynamoIngressReceiptRepository` of adapters/dynamodb_ingress_receipts.py, over a document table.
pub mod Claim
use limnopulse.Prelude.{
  ℕ, ◌≡◌, Bool, true, false, not, ◌&&◌, Option, none, some, ◌==◌, if◌then◌else◌,
}
use limnopulse.Prelude.Int.{pos, ltb_ℤ}
use limnopulse.Calls.{Outcome, returned, raised, Call, WriteReply, written, refused, failed, Table}
use limnopulse.Ingest.{Ident, Instant}
use limnopulse.Ingest.Receipt.{ReceiptState, Receipt, is_enqueued, ingress_receipt_cutoff_us}

-- `keys.ingress_receipt`
abbrev pub ReceiptKey : Type 0
ReceiptKey = Ident × Ident

-- `attribute_not_exists(PK) OR #created_at_us <= :cutoff_us`
unfoldable pub claim_condition : Instant → Option Receipt → Bool
unfolding ingress_receipt_cutoff_us
claim_condition now none = true
claim_condition now (some old) = not (ltb_ℤ (ingress_receipt_cutoff_us now) (pos old.created_at_us))

unfoldable pub claim_write : Receipt → Instant → Option Receipt → Option Receipt
unfolding claim_condition
claim_write receipt now old = if claim_condition now old then some receipt else none

-- `SET #state = :enqueued` where `#ingress_id = :ingress_id AND #state = :pending`
unfoldable pub mark_write : Ident → Option Receipt → Option Receipt
mark_write ingress_id none = none
mark_write ingress_id (some old) =
    if old.ingress_id == ingress_id && not (is_enqueued old.state)
    then some (record old { state = ReceiptState.enqueued })
    else none

module _ {W : Type 0} (table : Table W ReceiptKey Receipt) where
  unfoldable pub get_ingress_receipt : Ident → Ident → Call W (Option Receipt)
  get_ingress_receipt account key = table.get_item (account, key)

  -- the winner of a lost claim that the reply did not bring back: one consistent read
  unfoldable pub read_winner : Receipt → Call W Receipt
  unfolding get_ingress_receipt
  read_winner receipt w =
      let (o, w') = get_ingress_receipt receipt.integration_account_id receipt.key_sha256 w in
      elim o [ returned (some winner) ↦ (returned winner, w') | _ ↦ (raised, w') ]

  unfoldable pub claim_ingress_receipt : Receipt → Instant → Call W Receipt
  unfolding read_winner claim_write
  claim_ingress_receipt receipt now w =
      let (r, w') =
        table.write_item (receipt.integration_account_id, receipt.key_sha256)
          (claim_write receipt now) w in
      elim r [
        | written ↦ (returned receipt, w')
        | refused (some winner) ↦ (returned winner, w')
        | refused none ↦ read_winner receipt w'
        | failed ↦ (raised, w')
      ]

  -- A condition failure is a no-op.
  unfoldable pub mark_ingress_receipt_enqueued : Ident → Ident → Ident → Call W (Unit {0})
  unfolding mark_write
  mark_ingress_receipt_enqueued account key ingress_id w =
      let (r, w') = table.write_item (account, key) (mark_write ingress_id) w in
      elim r [ failed ↦ (raised, w') | _ ↦ (returned tt, w') ]
