-- ===== src/Ingest/Service/Durable.antt =====
-- The answers of `admit`, as a caller sees them.
use limnopulse.Prelude.{◌≡◌, ◌∙◌, ◌⊎◌, true, Option, some, ◌∷◌, ◌≤◌, refl}
use limnopulse.Ingest.{Ident, Source, Batch, Envelope}
use limnopulse.Ingest.Receipt.{Receipt, ReceiptAction, decide_receipt_replay}
use limnopulse.Ingest.Service.Answers.{Rejection, served, rejected, attempt}
use limnopulse.Ingest.Service.Collaborators.{Ports, Accepted, max_message_bytes, unavailable}
use limnopulse.Ingest.Service.{message_bytes, admit_request, admit}
use limnopulse.Ingest.Service.Accepts.{request-Ended}
use limnopulse.Ingest.Service.Accepts.Refusals.{Quiet, unavailable-Ends}
use limnopulse.Ingest.Service.Accepts.Rules.{Ledger, PortLaws, Ends-bind, Ends-attempt}
use limnopulse.Ingest.Service.Accepts.Sends.{Finishes}

module _ {W : Type 0} (ports : Ports W) (ledger : Ledger W) (laws : PortLaws ports ledger)
    (source : Source) (batch : Batch) (idempotency_key : Ident) (version : Option Ident)
    (w : W) where
  open ports use {clock, get_receipt, idempotency_key_hash, request_hash}

  abbrev key : Ident
  key = idempotency_key_hash idempotency_key

  abbrev request : Ident
  request = request_hash batch version

  admit-Finishes :
      Finishes ports ledger laws source key request
        (clock w).0
        w
        (admit ports source batch idempotency_key version w)
  unfolding admit
  admit-Finishes =
      let (now, w') = clock w in
      let found = get_receipt source.integration_account_id key in
      Ends-bind
        (λ receipt v.
          (ledger.stored v source.integration_account_id key ≡ receipt) × Quiet ledger w v)
        _ _ (attempt found (unavailable ports))
        (λ receipt.
          admit_request ports (decide_receipt_replay receipt request now) receipt source batch
            version key request now)
        w'
        (Ends-attempt _ _ found (unavailable ports) w'
          (λ o h. (
            laws.get_receipt_stored source.integration_account_id key w' o h,
            laws.get_receipt_sent source.integration_account_id key w' ∙ laws.clock_sent w,
          ))
          (unavailable-Ends ports ledger laws w _ _))
        (λ receipt v ok.
          request-Ended ports ledger laws source key request now w batch version receipt v ok.1 ok.0
            _ refl)

  -- A request that is accepted is durable: either the queue took exactly one message for it, which
  -- has the answered id, the tenant and account of the source and a size within the bound, or
  -- nothing was sent and a receipt is stored under its key that has the answered id, and on which
  -- the replay table says that this very request was enqueued before.
  pub admit-accepted :
      (a : Accepted)
      → (admit ports source batch idempotency_key version w).0 ≡ served a
      → let w' = (admit ports source batch idempotency_key version w).1 in
        ((e : Envelope) × (ledger.sent w' ≡ e ∷ ledger.sent w)
          × (e.ingress_id ≡ a.ingress_id)
          × ((e.tenant_id ≡ source.tenant_id)
              × (e.integration_account_id ≡ source.integration_account_id)
              × (message_bytes ports e ≤ max_message_bytes)))
        ⊎ ((r : Receipt) × (ledger.stored w' source.integration_account_id
                (idempotency_key_hash idempotency_key)
              ≡ some r)
            × (decide_receipt_replay (some r) (request_hash batch version) (clock w).0
                ≡ ReceiptAction.replay)
            × (r.ingress_id ≡ a.ingress_id)
            × (a.replayed ≡ true)
            × (ledger.sent w' ≡ ledger.sent w))
  admit-accepted a h = admit-Finishes.at_served a h

  -- A request that is rejected has sent nothing, unless the answer is 503.
  pub admit-rejected :
      (r : Rejection)
      → (admit ports source batch idempotency_key version w).0 ≡ rejected r
      → (r.status_code ≡ 503)
        ⊎ (ledger.sent (admit ports source batch idempotency_key version w).1 ≡ ledger.sent w)
  admit-rejected r h = admit-Finishes.at_rejected r h
