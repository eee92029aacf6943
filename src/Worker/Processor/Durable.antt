-- ===== src/Worker/Processor/Durable.antt =====
-- A message is deleted only after its work is written: `process` of services/ingest_processor.py.
use limnopulse.Prelude.{
  ℕ, ◌≡◌, refl, ◌∙◌, ap, ◌⊎◌, inl, inr, Bool, true, false, Option, none, some, List, [], ◌∷◌, arith,
}
use limnopulse.Ingest.{Instant, Envelope, Observation}
use limnopulse.Ingest.Trust.{TrustedContext, FenceReason, Blocked}
use limnopulse.Ingest.Trust.Mapping.{Fenced, trusted, blocked}
use limnopulse.Worker.{Category, RetryPolicy, ProcessAction}
use limnopulse.Worker.Retries.{decision-delete_iff}
use limnopulse.Worker.Processor.{
  Ports, Answer, done, threw, Fault, Message, process_fence, process_ingest, process_result,
  process_envelope, categorize, categorize_body, settle, categorize_fault, process,
  ingest_or_violation, violation, put_rows, read_clock,
}
use limnopulse.Worker.Processor.Ledger.{
  Effect, ingested, rows_put, outcome_recorded, fence_recorded, Ledger, Ended, Ended-bind, Ended-of,
}

-- the rows of an outcome, which are put only where there are some
abbrev pub with_rows : {O E : Type 0} → List E → List (Effect O E) → List (Effect O E)
with_rows [] effects = effects
with_rows (row ∷ rows) effects = rows_put (row ∷ rows) ∷ effects

violation-done :
    {W O E V : Type 0} (ports : Ports W O E V) (r : Answer O) (o : O)
    → violation ports r ≡ done o
    → r ≡ done o
violation-done ports r o h = ground arith

module _ {W O E V : Type 0} (ports : Ports W O E V) (ledger : Ledger ports) where
  open ledger use {
    effects, fence_effects, ingest_effects, put_effects, outcome_effects, fence_recorded_effects,
    clock_effects, deferred_effects, fenced_effects, emit_effects,
  }

  -- What the mapping resolved for the envelope, the context and the observations, went through the
  -- pipeline, then the rows of its outcome were put, then the outcome was recorded.
  abbrev pub Processed : Envelope → ℕ → W → W → Type 0
  Processed e n w v =
      (c : TrustedContext) × (os : List Observation) × (o : O) × (now : Instant) × (rows : List E)
      × ((ports.fence e w).0 ≡ done (trusted c os))
      × (ports.outcome_entries e o now ≡ done rows)
      × (effects v ≡ outcome_recorded e o n ∷ with_rows rows (ingested c os o ∷ effects w))

  -- The mapping fenced the envelope, with a verified account; the rows of this fence were put, then the
  -- fence was recorded.
  abbrev pub FencedOff : Envelope → W → W → Type 0
  FencedOff e w v =
      (reason : FenceReason) × (now : Instant) × (rows : List E) × ((ports.fence e w).0
        ≡ done (blocked (Blocked.fence reason true)))
      × (ports.fence_entries e reason now ≡ done rows)
      × (effects v ≡ fence_recorded e reason ∷ rows_put rows ∷ effects w)

  -- What a category says of the writes.
  abbrev pub Wrote : Envelope → ℕ → W → Category → W → Type 0
  Wrote e n w Category.processed v = Processed e n w v
  Wrote e n w Category.fenced v = FencedOff e w v
  Wrote e n w _ v = effects v ≡ effects w

  clock-Ended : (w : W) → Ended (λ t v. effects v ≡ effects w) (read_clock ports w)
  clock-Ended w = clock_effects w

  put-Ended :
      (rows : List E) (w : W)
      → Ended (λ u v. effects v ≡ rows_put rows ∷ effects w) (ports.put_quarantine_entries rows w)
  put-Ended rows w = Ended-of _ _ (λ u h. put_effects rows w h)

  put_rows-Ended :
      (rows : List E) (w : W)
      → Ended (λ u v. effects v ≡ with_rows rows (effects w)) (put_rows ports rows w)
  unfolding put_rows
  put_rows-Ended [] w = refl
  put_rows-Ended (row ∷ rows) w = put-Ended (row ∷ rows) w

  ingest-Ended :
      (c : TrustedContext) (os : List Observation) (w : W)
      → Ended (λ o v. effects v ≡ ingested c os o ∷ effects w) (ingest_or_violation ports c os w)
  unfolding ingest_or_violation
  ingest-Ended c os w =
      Ended-of (λ o v. effects v ≡ ingested c os o ∷ effects w) (ingest_or_violation ports c os w)
        (λ o h. ingest_effects c os w o (violation-done ports (ports.ingest c os w).0 o h))

  process_fence-Ended :
      (e : Envelope) (n : ℕ) (reason : FenceReason) (verified : Bool) (w0 w : W)
      → (ports.fence e w0).0 ≡ done (blocked (Blocked.fence reason verified))
      → effects w ≡ effects w0
      → Ended (Wrote e n w0) (process_fence ports e reason verified w)
  unfolding process_fence
  process_fence-Ended e n reason false w0 w said same = fenced_effects reason w ∙ same
  process_fence-Ended e n reason true w0 w said same =
      Ended-bind _ _ (λ t v. effects v ≡ effects w) (Wrote e n w0) w (clock-Ended w)
        λ now v1 h1.
          Ended-bind _ _
            (λ rows v. (effects v ≡ effects w) × (ports.fence_entries e reason now ≡ done rows))
            (Wrote e n w0) v1
            (Ended-of
              (λ rows v. (effects v ≡ effects w) × (ports.fence_entries e reason now ≡ done rows))
              (ports.fence_entries e reason now, v1) (λ rows h. (h1, h)))
            λ rows v2 h2.
              Ended-bind _ _ (λ u v. effects v ≡ rows_put rows ∷ effects v2) (Wrote e n w0) v2
                (put-Ended rows v2)
                λ u v3 h3.
                  Ended-bind _ _ (λ u v. effects v ≡ fence_recorded e reason ∷ effects v3)
                    (Wrote e n w0) v3 (Ended-of _ _ (λ u h. fence_recorded_effects e reason v3 h))
                    λ u v4 h4. (
                      reason,
                      now,
                      rows,
                      said,
                      h2.1,
                      cc (fenced_effects reason v4, h4, h3, h2.0, same),
                    )

  process_ingest-Ended :
      (e : Envelope) (n : ℕ) (c : TrustedContext) (os : List Observation) (w0 w : W)
      → (ports.fence e w0).0 ≡ done (trusted c os)
      → effects w ≡ effects w0
      → Ended (Wrote e n w0) (process_ingest ports e c os n w)
  unfolding process_ingest
  process_ingest-Ended e n c os w0 w said same =
      Ended-bind _ _ (λ t v. effects v ≡ effects w) (Wrote e n w0) w (clock-Ended w)
        λ started v1 h1.
          Ended-bind _ _ (λ o v. effects v ≡ ingested c os o ∷ effects v1) (Wrote e n w0) v1
            (ingest-Ended c os v1)
            λ o v2 h2.
              Ended-bind _ _ (λ t v. effects v ≡ effects v2) (Wrote e n w0) v2 (clock-Ended v2)
                λ ended v3 h3.
                  Ended-bind _ _ (λ t v. effects v ≡ effects v3) (Wrote e n w0) v3 (clock-Ended v3)
                    λ now v4 h4.
                      Ended-bind _ _
                        (λ rows v.
                          (effects v ≡ effects v4) × (ports.outcome_entries e o now ≡ done rows))
                        (Wrote e n w0) v4
                        (Ended-of
                          (λ rows v.
                            (effects v ≡ effects v4) × (ports.outcome_entries e o now ≡ done rows))
                          (ports.outcome_entries e o now, v4) (λ rows h. (refl, h)))
                        λ rows v5 h5.
                          Ended-bind _ _ (λ u v. effects v ≡ with_rows rows (effects v5))
                            (Wrote e n w0) v5 (put_rows-Ended rows v5)
                            λ u v6 h6.
                              Ended-bind _ _
                                (λ x v. effects v ≡ outcome_recorded e o n ∷ effects v6)
                                (Wrote e n w0) v6
                                (Ended-of _ _ (λ x h. outcome_effects e o n v6 x h))
                                λ x v7 h7.
                                  let before : effects v5 ≡ ingested c os o ∷ effects w0 =
                                    cc (h5.0, h4, h3, h2, h1, same) in
                                  (
                                    c,
                                    os,
                                    o,
                                    now,
                                    rows,
                                    said,
                                    h5.1,
                                    emit_effects o x started ended v7
                                        ∙ h7
                                        ∙ ap (λ es. outcome_recorded e o n ∷ es)
                                            (h6 ∙ ap (with_rows rows) before),
                                  )

  process_result-Ended :
      (e : Envelope) (n : ℕ) (w : W) (f : Fenced) (v : W)
      → (ports.fence e w).0 ≡ done f
      → effects v ≡ effects w
      → Ended (Wrote e n w) (process_result ports e n f v)
  unfolding process_result
  process_result-Ended e n w (blocked (Blocked.defer reason)) v said h =
      deferred_effects reason v ∙ h
  process_result-Ended e n w (blocked (Blocked.fence reason verified)) v said h =
      process_fence-Ended e n reason verified w v said h
  process_result-Ended e n w (trusted c os) v said h = process_ingest-Ended e n c os w v said h

  process_envelope-Ended :
      (e : Envelope) (n : ℕ) (w : W) → Ended (Wrote e n w) (process_envelope ports e n w)
  unfolding process_envelope
  process_envelope-Ended e n w =
      let P = λ (f : Fenced) (v : W). (effects v ≡ effects w) × ((ports.fence e w).0 ≡ done f) in
      Ended-bind _ _ P (Wrote e n w) w
        (Ended-of P (ports.fence e w) (λ f said. (fence_effects e w, said)))
        λ (f : Fenced) v h. process_result-Ended e n w f v h.1 h.0

  -- the category of an exception is none that deletes
  fault-keeps :
      (x : Fault) (w : W)
      → (((categorize_fault ports x w).0 ≡ Category.processed) → ⊥)
        × (((categorize_fault ports x w).0 ≡ Category.fenced) → ⊥)
  unfolding categorize_fault
  fault-keeps x w = ground arith

  -- What was written for a message that is deleted.
  abbrev pub Settled : Message → W → W → Type 0
  Settled m w v =
      (e : Envelope) × (ports.parse m.body ≡ some e)
      × (Processed e m.receive_count w v ⊎ FencedOff e w v)

  settle-Settled :
      (m : Message) (w : W) (e : Envelope)
      → ports.parse m.body ≡ some e
      → (r : Answer Category × W) → Ended (Wrote e m.receive_count w) r
      → ((settle ports r).0 ≡ Category.processed) ⊎ ((settle ports r).0 ≡ Category.fenced)
      → Settled m w (settle ports r).1
  settle-Settled m w e known (done Category.processed, v) h d = (e, known, inl h)
  settle-Settled m w e known (done Category.fenced, v) h d = (e, known, inr h)
  settle-Settled m w e known (done _, v) h d = ground arith
  settle-Settled m w e known (threw x, v) h d = ground (arith, fault-keeps x v)

  -- `_categorize`, from the parsed body on
  categorize_body-Settled :
      (m : Message) (w : W) (o : Option Envelope)
      → ports.parse m.body ≡ o
      → ((categorize_body ports o m.receive_count w).0 ≡ Category.processed)
        ⊎ ((categorize_body ports o m.receive_count w).0 ≡ Category.fenced)
      → Settled m w (categorize_body ports o m.receive_count w).1
  unfolding categorize_body
  categorize_body-Settled m w none known d = ground arith
  categorize_body-Settled m w (some e) known d =
      settle-Settled m w e known (process_envelope ports e m.receive_count w)
        (process_envelope-Ended e m.receive_count w) d

  -- A message that `process` answers with a deletion is settled: its body is an envelope, and
  -- either the context and the observations that the mapping's `fence` answered for it went through
  -- the pipeline, the rows of its outcome were put, where there are some, and the outcome was recorded,
  -- or the mapping answered with a fence on a verified account, the rows of that fence were put and it
  -- was recorded, in this order and with nothing written besides.
  pub process-Settled :
      (retry : RetryPolicy) (m : Message) (w : W)
      → ((process ports retry m w).0).action ≡ ProcessAction.delete
      → Settled m w (process ports retry m w).1
  unfolding process categorize
  process-Settled retry m w h =
      categorize_body-Settled m w (ports.parse m.body) refl
        ((decision-delete_iff retry (categorize ports m w).0 m.receive_count).0 h)
