-- ===== src/Ingest/Service.antt =====
-- `IngressService` of services/ingestion.py: admission of a parsed batch, steps 8 to 16 of the
-- route order. What the service calls is a parameter, the record `Ports`: the clock, the receipt
-- repository, the trusted mapping, the entitlement check, the queue, the counters, and the
-- hashes and the JSON length, which it only compares.
pub mod Answers
pub mod Collaborators
pub mod Accepts
pub mod Durable
pub mod Claims
use limnopulse.Prelude.{
  ℕ, zero, suc, ◌+◌, Bool, true, false, Option, none, some, ◌==◌, ltb, length, if◌then◌else◌,
}
use limnopulse.Calls.{Call}
use limnopulse.Ingest.{Ident, Instant, SourceType, Source, Batch, Envelope}
use limnopulse.Ingest.Receipt.{Receipt, new_ingress_receipt, ReceiptAction, decide_receipt_replay}
use limnopulse.Ingest.Trust.{AdmissionDenied}
use limnopulse.Ingest.Trust.Mapping.{Admission, Admitted, admission, denial}
use limnopulse.Ingest.Service.Answers.{
  RequestOutcome, Detail, Served, served, escaped, Serve, ◌>>=◌, return, attempt,
}
use limnopulse.Ingest.Service.Collaborators.{
  Ports, Accepted, max_message_bytes, schema_attribute_bytes, claim_attempts, plain, reject,
  unavailable, conflict, denied, replayed, deny,
}

-- the envelope of step 12, before its size guard
unfoldable pub build_envelope : Admission → Option Ident → Receipt → Envelope
build_envelope a connector_version receipt = record {
  ingress_id = receipt.ingress_id;
  replay_of = none;
  tenant_id = a.source.tenant_id;
  integration_account_id = a.source.integration_account_id;
  provider_key = a.device_integration.provider_key;
  external_identity_hash = a.device_integration.external_identity_hash;
  device_integration_id = a.device_integration.device_integration_id;
  device_id = a.device_integration.device_id;
  source_type = SourceType.https;
  connector_version = connector_version;
  received_at = receipt.received_at;
  replay = false;
  mapping_versions = receipt.mapping_versions;
  observations = a.observations;
}

module _ {W : Type 0} (ports : Ports W) where
  open ports use {
    clock, new_ingress_id, get_receipt, claim_receipt, mark_enqueued, allows, send, count_request,
    count_admitted, idempotency_key_hash, request_hash, body_bytes, default_versions,
  }

  unfoldable pub admitted_or_deny : Admitted → Serve W Admission
  unfolding deny
  admitted_or_deny (admission a) = return a
  admitted_or_deny (denial d) = deny ports d

  -- `_admission`
  unfoldable pub require_admission : Source → Batch → Serve W Admission
  unfolding admitted_or_deny unavailable
  require_admission source batch =
      attempt (ports.admit source batch) (unavailable ports) >>= admitted_or_deny

  unfoldable pub check_entitlement : Source → ℕ → Serve W (Unit {0})
  unfolding unavailable denied
  check_entitlement source count =
      attempt (allows source.tenant_id source.integration_account_id count) (unavailable ports)
      >>= λ allowed.
          if allowed
          then return tt
          else denied ports AdmissionDenied.entitlement_denied Detail.forbidden 403

  -- `ingress_message_bytes`
  unfoldable pub message_bytes : Envelope → ℕ
  message_bytes envelope = body_bytes envelope + schema_attribute_bytes

  unfoldable pub guarded_envelope : Admission → Option Ident → Receipt → Serve W Envelope
  unfolding reject build_envelope message_bytes
  guarded_envelope a connector_version receipt =
      let envelope = build_envelope a connector_version receipt in
      if ltb max_message_bytes (message_bytes envelope)
      then reject ports (plain 413 Detail.too_large RequestOutcome.too_large)
      else return envelope

  -- after the send: a mark that raises is logged, and the answer is still 202
  unfoldable pub accept : Envelope → Ident → ℕ → Bool → Serve W Accepted
  accept envelope key count again w =
      let w' = (mark_enqueued envelope.integration_account_id key envelope.ingress_id w).1 in
      (
        served (record {
          ingress_id = envelope.ingress_id;
          accepted_observations = count;
          replayed = again;
        }),
        count_admitted count
            (count_request (if again then RequestOutcome.replayed else RequestOutcome.accepted) w'),
      )

  -- `_send`
  unfoldable pub send_envelope : Envelope → Ident → ℕ → Bool → Serve W Accepted
  unfolding unavailable accept
  send_envelope envelope key count again =
      attempt (send envelope) (unavailable ports) >>= λ _. accept envelope key count again

  -- the receipt of another request in place of the claim, or the request's own earlier receipt
  unfoldable pub resume_receipt : Admission → Option Ident → Receipt → Ident → ℕ → Serve W Accepted
  unfolding guarded_envelope send_envelope
  resume_receipt a connector_version receipt key count =
      guarded_envelope a connector_version receipt >>= λ envelope.
      send_envelope envelope key count true

  unfoldable pub on_winner :
      ReceiptAction
      → Admission
      → Option Ident
      → Receipt
      → Ident
      → ℕ
      → Serve W Accepted
      → Serve W Accepted
  unfolding conflict replayed resume_receipt
  on_winner ReceiptAction.conflict a version winner key count again = conflict ports
  on_winner ReceiptAction.replay a version winner key count again =
      replayed ports winner.ingress_id count
  on_winner ReceiptAction.resume a version winner key count again =
      resume_receipt a version winner key count
  on_winner ReceiptAction.admit a version winner key count again = again

  -- one turn of the loop: the claim is the winner, or the replay table decides on the winner
  unfoldable pub on_claim :
      Admission
      → Option Ident
      → Receipt
      → Envelope
      → Ident
      → ℕ
      → Instant
      → Serve W Accepted
      → Receipt
      → Serve W Accepted
  unfolding send_envelope on_winner
  on_claim a version claim envelope key count now again winner =
      if winner.ingress_id == claim.ingress_id
      then send_envelope envelope key count false
      else on_winner (decide_receipt_replay (some winner) claim.request_sha256 now) a version winner
          key count again

  -- the loop over the claim attempts
  unfoldable pub claim_loop :
      ℕ → Admission → Option Ident → Receipt → Envelope → Ident → ℕ → Instant → Serve W Accepted
  unfolding on_claim
  claim_loop zero a version claim envelope key count now = unavailable ports
  claim_loop (suc n) a version claim envelope key count now =
      let again = claim_loop n a version claim envelope key count now in
      attempt (claim_receipt claim now) (unavailable ports)
      >>= on_claim a version claim envelope key count now again

  -- no live receipt: claim one, and send
  unfoldable pub claim_and_send :
      Admission → Source → Option Ident → Ident → Ident → ℕ → Instant → Serve W Accepted
  unfolding guarded_envelope claim_loop new_ingress_receipt
  claim_and_send a source version key request count now w =
      let (ingress_id, w') = new_ingress_id w in
      let claim =
        new_ingress_receipt source.integration_account_id source.tenant_id key request ingress_id
          now default_versions now in
      (guarded_envelope a version claim >>= λ envelope.
      claim_loop claim_attempts a version claim envelope key count now)
        w'

  -- steps 9 to 16, for the actions that do not answer at once
  unfoldable pub admit_request :
      ReceiptAction
      → Option Receipt
      → Source
      → Batch
      → Option Ident
      → Ident
      → Ident
      → Instant
      → Serve W Accepted
  unfolding conflict replayed require_admission check_entitlement resume_receipt claim_and_send
  admit_request ReceiptAction.conflict receipt source batch version key request now = conflict ports
  admit_request ReceiptAction.replay (some receipt) source batch version key request now =
      replayed ports receipt.ingress_id (length batch.observations)
  admit_request ReceiptAction.resume (some receipt) source batch version key request now =
      let count = length batch.observations in
      require_admission source batch >>= λ a.
      check_entitlement source count >>= λ _. resume_receipt a version receipt key count
  admit_request ReceiptAction.admit receipt source batch version key request now =
      let count = length batch.observations in
      require_admission source batch >>= λ a.
      check_entitlement source count >>= λ _. claim_and_send a source version key request count now
  admit_request _ none source batch version key request now = λ w. (escaped, w)

  -- `admit`
  unfoldable pub admit : Source → Batch → Ident → Option Ident → Serve W Accepted
  unfolding admit_request unavailable decide_receipt_replay
  admit source batch idempotency_key version w =
      let (now, w') = clock w in
      let key = idempotency_key_hash idempotency_key in
      let request = request_hash batch version in
      (attempt (get_receipt source.integration_account_id key) (unavailable ports) >>= λ receipt.
      admit_request (decide_receipt_replay receipt request now) receipt source batch version key
        request now)
        w'
