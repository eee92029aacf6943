-- ===== src/Ingest/Receipt/Adapter/Claim.antt =====
-- What the receipt adapter promises its client, from the laws of the table.
use limnopulse.Prelude.{◌≡◌, ◌⊎◌, true, false, some, arith}
use limnopulse.Calls.{returned, Table, TableLaws}
use limnopulse.Ingest.{Instant}
use limnopulse.Ingest.Receipt.{Receipt, is_ingress_receipt_live}
use limnopulse.Ingest.Receipt.Adapter.{
  ReceiptKey, claim_condition, claim_write, claim_ingress_receipt, read_winner, get_ingress_receipt,
}

module _ {W : Type 0} (table : Table W ReceiptKey Receipt) (laws : TableLaws table) where
  open table use {contents}

  abbrev pub key_of : Receipt → ReceiptKey
  key_of r = (r.integration_account_id, r.key_sha256)

  -- How a claim that returned `x` changed the table from `w` to `w'`.
  abbrev pub Claimed : Receipt → Instant → W → Receipt → W → Type 0
  Claimed receipt now w x w' =
      (contents w' (key_of receipt) ≡ some x)
      × (((x ≡ receipt)
            × ((o : Receipt)
                → contents w (key_of receipt) ≡ some o
                → is_ingress_receipt_live o now ≡ false))
          ⊎ ((contents w (key_of receipt) ≡ some x) × (is_ingress_receipt_live x now ≡ true)))

  -- A claim that returns a receipt leaves that receipt stored; it is the one that was offered, and
  -- none that is live stood in its place, or it stood there already and is live.
  pub claim-Claimed :
      (receipt : Receipt) (now : Instant) (w : W) (x : Receipt)
      → (claim_ingress_receipt table receipt now w).0 ≡ returned x
      → Claimed receipt now w x (claim_ingress_receipt table receipt now w).1
  unfolding claim_ingress_receipt read_winner get_ingress_receipt claim_write claim_condition
      is_ingress_receipt_live
  claim-Claimed receipt now w x h = grind (
    arith,
    laws.write_written (key_of receipt) (claim_write receipt now) w,
    laws.write_refused (key_of receipt) (claim_write receipt now) w,
    laws.write_refused_item (key_of receipt) (claim_write receipt now) w,
    laws.get_returned (key_of receipt)
        (table.write_item (key_of receipt) (claim_write receipt now) w).1,
    laws.get_keeps (key_of receipt) (key_of receipt)
        (table.write_item (key_of receipt) (claim_write receipt now) w).1,
  )
