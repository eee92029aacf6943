-- ===== src/Ingest/Service/Collaborators.antt =====
-- The collaborators of `IngressService`, and its rejections.
use limnopulse.Prelude.{ℕ, Bool, true, false, Option, none, some, ◌==◌, if◌then◌else◌}
use limnopulse.Calls.{Call}
use limnopulse.Ingest.{Ident, Instant, Versions, Source, Batch, Envelope}
use limnopulse.Ingest.Receipt.{Receipt}
use limnopulse.Ingest.Trust.{AdmissionDenied, Denial}
use limnopulse.Ingest.Trust.Mapping.{Admitted}
use limnopulse.Ingest.Service.Answers.{
  RequestOutcome, Detail, Rejection, served, rejected, escaped, Serve,
}

-- The collaborators of the service.
pub record Ports (W : Type 0) : Type 0 where
  pub clock : W → Instant × W
  pub new_ingress_id : W → Ident × W
  pub get_receipt : Ident → Ident → Call W (Option Receipt)
  pub claim_receipt : Receipt → Instant → Call W Receipt
  pub mark_enqueued : Ident → Ident → Ident → Call W (Unit {0})
  pub admit : Source → Batch → Call W Admitted
  pub allows : Ident → Ident → ℕ → Call W Bool
  pub send : Envelope → Call W (Unit {0})
  pub count_request : RequestOutcome → W → W
  pub count_denied : AdmissionDenied → W → W
  pub count_admitted : ℕ → W → W
  pub idempotency_key_hash : Ident → Ident
  pub request_hash : Batch → Option Ident → Ident
  pub body_bytes : Envelope → ℕ
  pub default_versions : Versions

-- `IngestAccepted`
pub record Accepted : Type 0 where
  pub ingress_id : Ident
  pub accepted_observations : ℕ
  pub replayed : Bool

abbrev pub max_message_bytes : ℕ
max_message_bytes = 262144

abbrev pub schema_attribute_bytes : ℕ
schema_attribute_bytes = 31

abbrev pub claim_attempts : ℕ
claim_attempts = 2

-- a rejection with no headers
abbrev pub plain : ℕ → Detail → RequestOutcome → Rejection
plain status detail outcome = record {
  status_code = status;
  detail = detail;
  outcome = outcome;
  retry_after = none;
  challenge = false;
}

-- `_COMPONENT_DENIALS`
abbrev pub is_component_denial : AdmissionDenied → Bool
is_component_denial r = elim r [
  | AdmissionDenied.component_required ↦ true
  | AdmissionDenied.component_invalid ↦ true
  | _ ↦ false
]

module _ {W : Type 0} (ports : Ports W) where
  open ports use {
    clock, new_ingress_id, get_receipt, claim_receipt, mark_enqueued, allows, send, count_request,
    count_denied, count_admitted, idempotency_key_hash, request_hash, body_bytes, default_versions,
  }

  unfoldable pub reject : {A : Type 0} → Rejection → Serve W A
  reject r w = (rejected r, count_request r.outcome w)

  unfoldable pub unavailable : {A : Type 0} → Serve W A
  unfolding reject
  unavailable = reject (plain 503 Detail.unavailable RequestOutcome.unavailable)

  unfoldable pub conflict : {A : Type 0} → Serve W A
  unfolding reject
  conflict = reject (plain 409 Detail.idempotency_conflict RequestOutcome.conflict)

  unfoldable pub denied : {A : Type 0} → AdmissionDenied → Detail → ℕ → Serve W A
  unfolding reject
  denied reason detail status w =
      reject
        (plain status detail
          (if status == 422 then RequestOutcome.invalid else RequestOutcome.forbidden))
        (count_denied reason w)

  unfoldable pub replayed : Ident → ℕ → Serve W Accepted
  replayed ingress_id count w = (
    served (record { ingress_id = ingress_id; accepted_observations = count; replayed = true }),
    count_request RequestOutcome.replayed w,
  )

  -- `component_denial_detail`, which raises where there is no index
  unfoldable pub deny_component : {A : Type 0} → AdmissionDenied → Option ℕ → Serve W A
  unfolding denied
  deny_component reason none w = (escaped, w)
  deny_component reason (some index) w = denied reason (Detail.component index reason) 422 w

  unfoldable pub deny : {A : Type 0} → Denial → Serve W A
  unfolding denied deny_component
  deny d =
      if is_component_denial d.reason
      then deny_component d.reason d.observation_index
      else denied d.reason Detail.forbidden 403
