-- ===== src/Worker/Processor/Mapped.antt =====
-- The processor over the mapping service: `process` of services/ingest_processor.py with `fence` of
-- services/trusted_mapping.py. What a failed read of the mapping raises is a parameter, which may
-- depend on the world.
use limnopulse.Prelude.{ℕ, ◌≡◌, ◌⊎◌, inl, inr, true, some, List, ◌∷◌, arith}
use limnopulse.Calls.{Outcome, returned, raised, Call}
use limnopulse.Ingest.{Instant, Envelope, Observation}
use limnopulse.Ingest.Trust.{TrustedContext, FenceReason, Blocked}
use limnopulse.Ingest.Trust.Mapping
use limnopulse.Ingest.Trust.Mapping.{Fenced, trusted, blocked}
use limnopulse.Ingest.Trust.Mapping.Laws.{Rows, ReadsRows}
use limnopulse.Ingest.Trust.Mapping.Fences.{decision_of, IsResolved, IsAnswer, fence-IsAnswer}
use limnopulse.Worker.{RetryPolicy, ProcessAction}
use limnopulse.Worker.Processor.{Ports, Answer, done, threw, Fault, Step, Message, process}
use limnopulse.Worker.Processor.Ledger.{
  ingested, rows_put, outcome_recorded, fence_recorded, Ledger,
}
use limnopulse.Worker.Processor.Durable.{with_rows, process-Settled}

abbrev pub answer_of : {A : Type 0} → Fault → Outcome A → Answer A
answer_of fault (returned a) = done a
answer_of fault raised = threw fault

-- `await self.mapping.fence(envelope)`
unfoldable pub await_mapping : {W A : Type 0} → (W → Fault) → Call W A → Step W A
await_mapping fault call w = let (r, w') = call w in (answer_of (fault w') r, w')

-- the processor's collaborators, with the mapping service among them
abbrev pub mapped :
    {W O E V : Type 0} → Mapping.Readers W → (W → Fault) → Ports W O E V → Ports W O E V
mapped readers fault ports = record ports {
  fence = λ e. await_mapping fault (Mapping.fence readers e);
}

answered :
    (fault : Fault) (r : Outcome Fenced) (f : Fenced) → answer_of fault r ≡ done f → r ≡ returned f
answered fault (returned g) f h = ground arith
answered fault raised f h = ground arith

module _ {W O E V : Type 0} (readers : Mapping.Readers W) (rows : Rows) (fault : W → Fault)
    (ports : Ports W O E V) where
  mapped-IsAnswer :
      (e : Envelope) (w : W) (f : Fenced)
      → ReadsRows readers rows
      → ((mapped readers fault ports).fence e w).0 ≡ done f
      → IsAnswer rows e f
  unfolding await_mapping
  mapped-IsAnswer e w f reads h =
      (fence-IsAnswer readers rows reads e).at w f
        (answered (fault (Mapping.fence readers e w).1) (Mapping.fence readers e w).0 f h)

  module _ (ledger : Ledger (mapped readers fault ports)) where
    open ledger use {effects}

    -- The rows let the envelope through; all its observations went through the pipeline, under the
    -- context of its integration row, then the rows of the outcome were put, then it was recorded.
    abbrev pub IsIngested : Envelope → ℕ → W → W → Type 0
    IsIngested e n w v =
        (c : TrustedContext) × (os : List Observation) × (o : O) × (now : Instant) × (put : List E)
        × IsResolved rows e c os
        × (ports.outcome_entries e o now ≡ done put)
        × (effects v ≡ outcome_recorded e o n ∷ with_rows put (ingested c os o ∷ effects w))

    -- The rows fence the envelope, on a verified account; the rows of that fence were put, then it was
    -- recorded.
    abbrev pub IsFencedOff : Envelope → W → W → Type 0
    IsFencedOff e w v =
        (reason : FenceReason) × (now : Instant) × (put : List E) × (decision_of rows e
          ≡ some (Blocked.fence reason true))
        × (ports.fence_entries e reason now ≡ done put)
        × (effects v ≡ fence_recorded e reason ∷ rows_put put ∷ effects w)

    -- What was done for a message that is deleted.
    abbrev pub IsDealtWith : Message → W → W → Type 0
    IsDealtWith m w v =
        (e : Envelope) × (ports.parse m.body ≡ some e)
        × (IsIngested e m.receive_count w v ⊎ IsFencedOff e w v)

    -- A message that the processor answers with a deletion is dealt with, where the reads of the
    -- mapping give what is stored and a call that returns has written what it was asked to: its
    -- body is an envelope, and either the rows behind it let it through, all its observations went
    -- through the pipeline under the context of its integration row, the rows of the outcome were
    -- put, where there are some, and the outcome was recorded, or those rows fence it, on a
    -- verified account, the rows of that fence were put and it was recorded, in this order and
    -- with nothing written besides.
    pub process-IsDealtWith :
        (retry : RetryPolicy) (m : Message) (w : W)
        → ReadsRows readers rows
        → ((process (mapped readers fault ports) retry m w).0).action ≡ ProcessAction.delete
        → IsDealtWith m w (process (mapped readers fault ports) retry m w).1
    process-IsDealtWith retry m w reads h =
        let (e, known, done_so) = process-Settled (mapped readers fault ports) ledger retry m w h in
        (
          e,
          known,
          elim done_so [
            | inl (c, os, o, now, put, said, entries, wrote) ↦
                inl (c, os, o, now, put, mapped-IsAnswer e w _ reads said, entries, wrote)
            | inr (reason, now, put, said, entries, wrote) ↦
                inr (reason, now, put, mapped-IsAnswer e w _ reads said, entries, wrote)
          ],
        )
