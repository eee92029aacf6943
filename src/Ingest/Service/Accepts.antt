-- ===== src/Ingest/Service/Accepts.antt =====
-- What an answered request did to the queue: a 202 rests on a message that the queue took, or on a
-- stored receipt of the same request that says so; a refusal has sent nothing.
pub mod Rules
pub mod Refusals
pub mod Sends
use limnopulse.Prelude.{
  ℕ, zero, suc, ◌≤◌, ◌≡◌, refl, ◌∙◌, ◌⊎◌, inl, inr, Bool, true, false, Bool-cases, Option, none,
  some, List, ◌∷◌, arith, length, ltb, ◌==◌, if◌then◌else◌,
}
use limnopulse.Calls.{returned, raised}
use limnopulse.Ingest.{Ident, Instant, Source, Batch, Envelope}
use limnopulse.Ingest.Receipt.{Receipt, ReceiptAction, decide_receipt_replay, new_ingress_receipt}
use limnopulse.Ingest.Trust.{AdmissionDenied, Denial}
use limnopulse.Ingest.Trust.Mapping.{Admission, Admitted, admission, denial}
use limnopulse.Ingest.Service.Answers.{
  Rejection, Served, served, rejected, Serve, ◌>>=◌, return, attempt,
}
use limnopulse.Ingest.Service.Collaborators.{
  Ports, Accepted, claim_attempts, plain, reject, unavailable, conflict, denied, replayed, deny,
  deny_component, is_component_denial,
}
use limnopulse.Ingest.Service.{
  admitted_or_deny, require_admission, check_entitlement, build_envelope, message_bytes,
  guarded_envelope, resume_receipt, on_winner, on_claim, claim_loop, claim_and_send, admit_request,
  admit,
}
use limnopulse.Ingest.Service.Accepts.Refusals.{
  Quiet, Refused, Own, reject-Ends, unavailable-Ends, admission-Ends, entitlement-Ends,
}
use limnopulse.Ingest.Service.Accepts.Sends.{
  Sendable, Answered, Finishes, send-Finishes, guarded-Ends, resume-Finishes, replayed-Finishes,
  conflict-Finishes,
}
use limnopulse.Ingest.Service.Accepts.Rules.{
  Ledger, PortLaws, Ends, Ends-bind, Ends-return, Ends-attempt,
}

module _ {W : Type 0} (ports : Ports W) (ledger : Ledger W) (laws : PortLaws ports ledger)
    (source : Source) (key request : Ident) (now : Instant) (before : W) where
  open ledger use {stored}

  abbrev pub Ended : Served Accepted × W → Type 0
  Ended = Finishes ports ledger laws source key request now before

  winner-Ended :
      (a : Admission) (version : Option Ident) (winner : Receipt) (count : ℕ)
      (again : Serve W Accepted) (w : W)
      → Own ledger before source a w
      → stored w source.integration_account_id key ≡ some winner
      → Ended (again w)
      → (action : ReceiptAction) → decide_receipt_replay (some winner) request now ≡ action
      → Ended (on_winner ports action a version winner key count again w)
  unfolding on_winner
  winner-Ended a version winner count again w own here next ReceiptAction.conflict e =
      conflict-Finishes ports ledger laws source key request now before w own.1
  winner-Ended a version winner count again w own here next ReceiptAction.replay e =
      replayed-Finishes ports ledger laws source key request now before winner count w here e own.1
  winner-Ended a version winner count again w own here next ReceiptAction.resume e =
      resume-Finishes ports ledger laws source key request now before a version winner count w own
  winner-Ended a version winner count again w own here next ReceiptAction.admit e = next

  -- a claim of this request
  abbrev IsClaim : Receipt → Type 0
  IsClaim claim =
      (claim.integration_account_id ≡ source.integration_account_id)
      × (claim.key_sha256 ≡ key)
      × (claim.request_sha256 ≡ request)

  claim-Ended :
      (a : Admission) (version : Option Ident) (claim : Receipt) (e : Envelope) (count : ℕ)
      (again : Serve W Accepted) (winner : Receipt) (w : W)
      → Own ledger before source a w
      → IsClaim claim
      → Sendable ports ledger laws source key request now before e
      → stored w source.integration_account_id key ≡ some winner
      → Ended (again w)
      → Ended (on_claim ports a version claim e key count now again winner w)
  unfolding on_claim
  claim-Ended a version claim e count again winner w own c fits here next =
      elim (Bool-cases (winner.ingress_id == claim.ingress_id)) [
        | inl mine ↦ rw mine (
            send-Finishes ports ledger laws source key request now before e count false w own.1
              fits)
        | inr other ↦
            rw (other, c.2) (winner-Ended a version winner count again w own here next _ refl)
      ]

  claim_loop-Ended :
      (n : ℕ) (a : Admission) (version : Option Ident) (claim : Receipt) (e : Envelope) (count : ℕ)
      (w : W)
      → Own ledger before source a w
      → IsClaim claim
      → Sendable ports ledger laws source key request now before e
      → Ended (claim_loop ports n a version claim e key count now w)
  unfolding claim_loop
  claim_loop-Ended zero a version claim e count w own c fits =
      unavailable-Ends ports ledger laws before _ w
  claim_loop-Ended (suc n) a version claim e count w own c fits =
      let own' : Own ledger before source a (ports.claim_receipt claim now w).1 =
        (own.0, laws.claim_receipt_sent claim now w ∙ own.1) in
      Ends-bind
        (λ winner v.
          (stored v source.integration_account_id key ≡ some winner) × Own ledger before source a v)
        _ _ (attempt (ports.claim_receipt claim now) (unavailable ports))
        (on_claim ports a version claim e key count now
          (claim_loop ports n a version claim e key count now))
        w
        (Ends-attempt _ _ (ports.claim_receipt claim now) (unavailable ports) w
          (λ x h. (rw (← c.0, ← c.1) (laws.claim_receipt_stored claim now w x h), own'))
          (unavailable-Ends ports ledger laws before _ _))
        (λ winner v ok.
          claim-Ended a version claim e count _ winner v ok.1 c fits ok.0
            (claim_loop-Ended n a version claim e count v ok.1 c fits))

  claim_and_send-Ended :
      (a : Admission) (version : Option Ident) (count : ℕ) (w : W)
      → Own ledger before source a w
      → Ended (claim_and_send ports a source version key request count now w)
  unfolding claim_and_send new_ingress_receipt
  claim_and_send-Ended a version count w own =
      let w' = (ports.new_ingress_id w).1 in
      let claim =
        new_ingress_receipt source.integration_account_id source.tenant_id key request
          (ports.new_ingress_id w).0 now ports.default_versions now in
      Ends-bind
        (λ e v. Sendable ports ledger laws source key request now before e × Quiet ledger before v)
        _ _ (guarded_envelope ports a version claim)
        (λ e. claim_loop ports claim_attempts a version claim e key count now) w'
        (guarded-Ends ports ledger laws source key request now before a version claim w'
          (own.0, laws.new_ingress_id_sent w ∙ own.1))
        (λ e v ok.
          claim_loop-Ended claim_attempts a version claim e count v (own.0, ok.1) (refl, refl, refl)
            ok.0)

  -- after the admission and the entitlement
  admitted-Ended :
      (b : Batch) (finish : Admission → Serve W Accepted) (w : W)
      → Quiet ledger before w
      → ((a : Admission) (v : W) → Own ledger before source a v → Ended (finish a v))
      → Ended (
          (require_admission ports source b >>= λ a.
          check_entitlement ports source (length b.observations) >>= λ _. finish a)
            w)
  admitted-Ended b finish w q next =
      Ends-bind (Own ledger before source) _ _ (require_admission ports source b) _ w
        (admission-Ends ports ledger laws before source b w q)
        (λ a v own.
          Ends-bind (λ _. Quiet ledger before) _ _
            (check_entitlement ports source (length b.observations)) (λ _. finish a) v
            (entitlement-Ends ports ledger laws before source (length b.observations) v own.1)
            (λ _ v' q'. next a v' (own.0, q')))

  pub request-Ended :
      (b : Batch) (version : Option Ident) (receipt : Option Receipt) (w : W)
      → Quiet ledger before w
      → stored w source.integration_account_id key ≡ receipt
      → (action : ReceiptAction) → decide_receipt_replay receipt request now ≡ action
      → Ended (admit_request ports action receipt source b version key request now w)
  unfolding admit_request
  request-Ended b version receipt w q here ReceiptAction.conflict e =
      conflict-Finishes ports ledger laws source key request now before w q
  request-Ended b version (some r) w q here ReceiptAction.replay e =
      replayed-Finishes ports ledger laws source key request now before r (length b.observations) w
        here e q
  request-Ended b version (some r) w q here ReceiptAction.resume e =
      admitted-Ended b (λ a. resume_receipt ports a version r key (length b.observations)) w q
        (λ a v own.
          resume-Finishes ports ledger laws source key request now before a version r
            (length b.observations) v own)
  request-Ended b version receipt w q here ReceiptAction.admit e =
      admitted-Ended b
        (λ a. claim_and_send ports a source version key request (length b.observations) now) w q
        (λ a v own. claim_and_send-Ended a version (length b.observations) v own)
  request-Ended b version none w q here _ e = record {
    at_served = λ a h. cc h;
    at_rejected = λ x h. cc h;
  }
