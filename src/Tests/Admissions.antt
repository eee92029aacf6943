-- ===== src/Tests/Admissions.antt =====
-- A request through the service, over a world with one queue and one receipt.
use limnopulse.Prelude.{
  ◌≤◌, ◌≡◌, refl, ◌⊎◌, true, false, Option, none, some, List, [], ◌∷◌, arith, ◌==◌, ◌&&◌,
  if◌then◌else◌,
}
use limnopulse.Calls.{returned, pure, WriteReply, written, refused, Table, TableLaws}
use limnopulse.Ingest.{Versions, Batch, Envelope}
use limnopulse.Ingest.Receipt.{Receipt, ReceiptAction, new_ingress_receipt, decide_receipt_replay}
use limnopulse.Ingest.Receipt.Adapter.{
  ReceiptKey, get_ingress_receipt, claim_ingress_receipt, mark_ingress_receipt_enqueued,
  claim_write,
}
use limnopulse.Ingest.Receipt.Adapter.Claim.{Claimed, claim-Claimed}
use limnopulse.Ingest.Trust.Mapping.{admission}
use limnopulse.Ingest.Service.Answers.{Rejection, served, rejected, Detail, RequestOutcome}
use limnopulse.Ingest.Service.Collaborators.{Ports, Accepted, max_message_bytes, plain}
use limnopulse.Ingest.Service.{message_bytes, claim_loop, admit, build_envelope}
use limnopulse.Ingest.Service.Accepts.Rules.{Ledger, PortLaws}
use limnopulse.Ingest.Service.Durable.{admit-accepted, admit-rejected}
use limnopulse.Ingest.Service.Claims.{claim_loop_once}
use limnopulse.Tests.Trusted.{source, batch, own_admission}

record World : Type 0 where
  queue : List Envelope
  rows : ReceiptKey → Option Receipt

abbrev empty : World
empty = record { queue = []; rows = λ k. none }

abbrev update : ReceiptKey → Receipt → (ReceiptKey → Option Receipt) → ReceiptKey → Option Receipt
update k r rows j = if (j.0 == k.0) && (j.1 == k.1) then some r else rows j

abbrev write_row :
    ReceiptKey → (Option Receipt → Option Receipt) → World → WriteReply Receipt × World
write_row k f w = elim (f (w.rows k)) [
  | none ↦ (refused (w.rows k), w)
  | some r ↦ (written, record w { rows = update k r w.rows })
]

abbrev table : Table World ReceiptKey Receipt
table = record {
  contents = λ w. w.rows;
  get_item = λ k w. (returned (w.rows k), w);
  write_item = write_row;
}

table_laws : TableLaws table
table_laws = record {
  get_returned = λ k w o h. cc h;
  get_keeps = λ k j w. refl;
  write_written = λ k f w h. ground arith;
  write_refused = λ k f w o h. ground arith;
  write_refused_item = λ k f w i h. ground arith;
  write_others = λ k j f w ne. ground arith;
}

abbrev versions : Versions
versions = record { catalog_version = 1; unit_mapping_version = 1; quality_policy_version = 1 }

abbrev ports : Ports World
ports = record {
  clock = λ w. (100000000000, w);
  new_ingress_id = λ w. (70, w);
  get_receipt = get_ingress_receipt table;
  claim_receipt = claim_ingress_receipt table;
  mark_enqueued = mark_ingress_receipt_enqueued table;
  admit = λ s b. pure (admission (record own_admission { source = s }));
  allows = λ t a n. pure true;
  send = λ e w. (returned tt, record w { queue = e ∷ w.queue });
  count_request = λ o w. w;
  count_denied = λ d w. w;
  count_admitted = λ n w. w;
  idempotency_key_hash = λ k. k;
  request_hash = λ b v. b.external_device_id;
  body_bytes = λ e. 500;
  default_versions = versions;
}

abbrev ledger : Ledger World
ledger = record { sent = λ w. w.queue; stored = λ w a k. w.rows (a, k) }

laws : PortLaws ports ledger
unfolding get_ingress_receipt claim_ingress_receipt mark_ingress_receipt_enqueued
laws = record {
  clock_sent = λ w. refl;
  new_ingress_id_sent = λ w. refl;
  get_receipt_sent = λ a k w. refl;
  claim_receipt_sent = λ r t w. ground arith;
  mark_enqueued_sent = λ a k i w. ground arith;
  admit_sent = λ s b w. refl;
  allows_sent = λ t a n w. refl;
  count_request_sent = λ o w. refl;
  count_denied_sent = λ d w. refl;
  count_admitted_sent = λ n w. refl;
  send_returned = λ e w h. refl;
  get_receipt_stored = λ a k w o h. cc h;
  claim_receipt_stored = λ r t w x h. (claim-Claimed table table_laws r t w x h).0;
  count_request_stored = λ o w a k. refl;
  admit_source = λ s b w a h. ground arith;
}

-- the first request, and the same request again
abbrev first : Accepted
first = record { ingress_id = 70; accepted_observations = 2; replayed = false }

first_accepted : (admit ports source batch 30 none empty).0 ≡ served first
unfolding admit get_ingress_receipt claim_ingress_receipt mark_ingress_receipt_enqueued
first_accepted = refl

again_replayed :
    (admit ports source batch 30 none (admit ports source batch 30 none empty).1).0
    ≡ served (record first { replayed = true })
unfolding admit get_ingress_receipt claim_ingress_receipt mark_ingress_receipt_enqueued
again_replayed = refl

abbrev other_batch : Batch
other_batch = record batch { external_device_id = 10 }

abbrev reused : Rejection
reused = plain 409 Detail.idempotency_conflict RequestOutcome.conflict

abbrev after_first : World
after_first = (admit ports source batch 30 none empty).1

key_reused : (admit ports source other_batch 30 none after_first).0 ≡ rejected reused
unfolding admit get_ingress_receipt claim_ingress_receipt mark_ingress_receipt_enqueued
key_reused = refl

admit-accepted_example :
    let w' = (admit ports source batch 30 none empty).1 in
    ((e : Envelope) × (w'.queue ≡ e ∷ [])
      × (e.ingress_id ≡ 70)
      × ((e.tenant_id ≡ 1)
          × (e.integration_account_id ≡ 2)
          × (message_bytes ports e ≤ max_message_bytes)))
    ⊎ ((r : Receipt) × (w'.rows (2, 30) ≡ some r)
        × (decide_receipt_replay (some r) 9 100000000000 ≡ ReceiptAction.replay)
        × (r.ingress_id ≡ 70)
        × (false ≡ true)
        × (w'.queue ≡ []))
admit-accepted_example =
    admit-accepted ports ledger laws source batch 30 none empty first first_accepted

admit-rejected_example :
    (reused.status_code ≡ 503)
    ⊎ ((admit ports source other_batch 30 none after_first).1.queue ≡ after_first.queue)
admit-rejected_example =
    admit-rejected ports ledger laws source other_batch 30 none after_first reused key_reused

-- a lost claim: another request holds the row
abbrev holder : Receipt
holder = new_ingress_receipt 2 1 30 8 60 99999999999 versions 99999999999

abbrev held : World
held = record empty { rows = update (2, 30) holder (λ k. none) }

abbrev claim : Receipt
claim = new_ingress_receipt 2 1 30 9 70 100000000000 versions 100000000000

claim_lost : (claim_ingress_receipt table claim 100000000000 held).0 ≡ returned holder
unfolding claim_ingress_receipt claim_write new_ingress_receipt
claim_lost = refl

claim-Claimed_example :
    Claimed table table_laws claim 100000000000 held holder
      (claim_ingress_receipt table claim 100000000000 held).1
claim-Claimed_example = claim-Claimed table table_laws claim 100000000000 held holder claim_lost

claim_loop_once_example :
    claim_loop ports 2 own_admission none claim
      (build_envelope own_admission none claim)
      30
      2
      100000000000
      held
    ≡ claim_loop ports 1 own_admission none claim
        (build_envelope own_admission none claim)
        30
        2
        100000000000
        held
claim_loop_once_example =
    claim_loop_once ports own_admission none claim (build_envelope own_admission none claim) 30 2
      100000000000 table table_laws (λ v. refl) 1 held
