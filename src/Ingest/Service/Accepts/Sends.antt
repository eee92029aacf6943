-- ===== src/Ingest/Service/Accepts/Sends.antt =====
-- The sends of a request: each adds one message, of a bounded size, of the source.
use limnopulse.Prelude.{
  ℕ, ◌≤◌, ◌≡◌, refl, ◌∙◌, ◌⊎◌, inl, inr, Bool, true, Bool-cases, Option, some, ◌∷◌, arith, ltb,
  if◌then◌else◌,
}
use limnopulse.Ingest.{Ident, Instant, Source, Envelope}
use limnopulse.Ingest.Receipt.{Receipt, ReceiptAction, decide_receipt_replay}
use limnopulse.Ingest.Trust.Mapping.{Admission}
use limnopulse.Ingest.Service.Answers.{RequestOutcome, Served, attempt}
use limnopulse.Ingest.Service.Collaborators.{
  Ports, Accepted, max_message_bytes, unavailable, conflict, replayed,
}
use limnopulse.Ingest.Service.{
  build_envelope, message_bytes, guarded_envelope, accept, send_envelope, resume_receipt,
}
use limnopulse.Ingest.Service.Accepts.Refusals.{Quiet, Refused, Own, reject-Ends, unavailable-Ends}
use limnopulse.Ingest.Service.Accepts.Rules.{
  Ledger, PortLaws, Ends, Ends-bind, Ends-return, Ends-attempt,
}

module _ {W : Type 0} (ports : Ports W) (ledger : Ledger W) (laws : PortLaws ports ledger)
    (source : Source) (key request : Ident) (now : Instant) (before : W) where
  open ledger use {sent, stored}

  -- an envelope that may be sent for the request
  abbrev pub Sendable : Envelope → Type 0
  Sendable e =
      (e.tenant_id ≡ source.tenant_id)
      × (e.integration_account_id ≡ source.integration_account_id)
      × (message_bytes ports e ≤ max_message_bytes)

  -- the queue took one message, with the answered id
  abbrev pub Enqueued : Accepted → W → Type 0
  Enqueued a w =
      (e : Envelope) × (sent w ≡ e ∷ sent before) × (e.ingress_id ≡ a.ingress_id) × Sendable e

  -- the stored receipt is live, of this request, and enqueued already
  abbrev pub Repeated : Accepted → W → Type 0
  Repeated a w =
      (r : Receipt) × (stored w source.integration_account_id key ≡ some r)
      × (decide_receipt_replay (some r) request now ≡ ReceiptAction.replay)
      × (r.ingress_id ≡ a.ingress_id)
      × (a.replayed ≡ true)
      × Quiet ledger before w

  abbrev pub Answered : Accepted → W → Type 0
  Answered a w = Enqueued a w ⊎ Repeated a w

  abbrev pub Finishes : Served Accepted × W → Type 0
  Finishes = Ends Answered (Refused ledger before)

  sent-accept :
      (e : Envelope) (count : ℕ) (again : Bool) (w : W)
      → sent (accept ports e key count again w).1 ≡ sent w
  unfolding accept
  sent-accept e count again w =
      let o = if again then RequestOutcome.replayed else RequestOutcome.accepted in
      laws.count_admitted_sent count _
      ∙ laws.count_request_sent o _
      ∙ laws.mark_enqueued_sent e.integration_account_id key e.ingress_id w

  accept-Finishes :
      (e : Envelope) (count : ℕ) (again : Bool) (w : W)
      → sent w ≡ e ∷ sent before
      → Sendable e
      → Finishes (accept ports e key count again w)
  unfolding accept
  accept-Finishes e count again w done fits =
      Ends-return Answered (Refused ledger before) _ _
        (inl (e, sent-accept e count again w ∙ done, refl, fits))

  -- Only a send adds to the queue, and what comes after it adds nothing.
  pub send-Finishes :
      (e : Envelope) (count : ℕ) (again : Bool) (w : W)
      → Quiet ledger before w
      → Sendable e
      → Finishes (send_envelope ports e key count again w)
  unfolding send_envelope
  send-Finishes e count again w q fits =
      Ends-bind (λ _ w'. sent w' ≡ e ∷ sent before) _ _ (attempt (ports.send e) (unavailable ports))
        (λ _. accept ports e key count again) w
        (Ends-attempt _ _ (ports.send e) (unavailable ports) w
          (λ u done. rw (laws.send_returned e w (cc done), q))
          (unavailable-Ends ports ledger laws before _ _))
        (λ _ w' done. accept-Finishes e count again w' done fits)

  -- the size guard, and whose envelope it is
  pub guarded-Ends :
      (a : Admission) (version : Option Ident) (r : Receipt) (w : W)
      → Own ledger before source a w
      → Ends
          (λ e w'. Sendable e × Quiet ledger before w')
          (Refused ledger before)
          (guarded_envelope ports a version r w)
  unfolding guarded_envelope build_envelope
  guarded-Ends a version r w own =
      let e = build_envelope a version r in
      elim (Bool-cases (ltb max_message_bytes (message_bytes ports e))) [
        | inl large ↦ rw large (reject-Ends ports ledger laws before _ _ w own.1)
        | inr small ↦ rw small (Ends-return _ _ e w ((rw own.0, rw own.0, ground arith), own.1))
      ]

  pub resume-Finishes :
      (a : Admission) (version : Option Ident) (r : Receipt) (count : ℕ) (w : W)
      → Own ledger before source a w
      → Finishes (resume_receipt ports a version r key count w)
  unfolding resume_receipt
  resume-Finishes a version r count w own =
      Ends-bind _ _ _ (guarded_envelope ports a version r)
        (λ e. send_envelope ports e key count true) w (guarded-Ends a version r w own)
        (λ e w' ok. send-Finishes e count true w' ok.1 ok.0)

  pub replayed-Finishes :
      (r : Receipt) (count : ℕ) (w : W)
      → stored w source.integration_account_id key ≡ some r
      → decide_receipt_replay (some r) request now ≡ ReceiptAction.replay
      → Quiet ledger before w
      → Finishes (replayed ports r.ingress_id count w)
  unfolding replayed
  replayed-Finishes r count w here same q = Ends-return Answered (Refused ledger before) _ _ (
      inr (
        r,
        laws.count_request_stored RequestOutcome.replayed w source.integration_account_id key
            ∙ here,
        same,
        refl,
        refl,
        laws.count_request_sent RequestOutcome.replayed w ∙ q,
      ))

  pub conflict-Finishes : (w : W) → Quiet ledger before w → Finishes (conflict ports w)
  unfolding conflict
  conflict-Finishes w q = reject-Ends ports ledger laws before _ _ w q
