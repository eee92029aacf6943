-- ===== src/Worker/Processor/Ledger.antt =====
-- What the processor writes, as a ledger of its effects, and what the documented calls add to it.
use limnopulse.Prelude.{ℕ, ◌≡◌, List, ◌∷◌, refl}
use limnopulse.Ingest.{Instant, Envelope, Observation}
use limnopulse.Ingest.Trust.{TrustedContext, FenceReason, DeferReason}
use limnopulse.Worker.Processor.{Ports, Answer, done, threw, Step, ◌>>=◌}

pub data Effect (O E : Type 0) : Type 0 where
  ingested : TrustedContext → List Observation → O → Effect O E
  rows_put : List E → Effect O E
  outcome_recorded : Envelope → O → ℕ → Effect O E
  fence_recorded : Envelope → FenceReason → Effect O E

-- A call that returns has written what it is asked to write, and nothing else; the lookups, the
-- clock and the metrics write nothing. Of a call that raises nothing is known.
pub record Ledger {W O E V : Type 0} (ports : Ports W O E V) : Type 0 where
  pub effects : W → List (Effect O E)
  pub fence_effects : (e : Envelope) (w : W) → effects (ports.fence e w).1 ≡ effects w
  pub ingest_effects :
      (c : TrustedContext) (os : List Observation) (w : W) (o : O)
      → (ports.ingest c os w).0 ≡ done o
      → effects (ports.ingest c os w).1 ≡ ingested c os o ∷ effects w
  pub put_effects :
      (rows : List E) (w : W)
      → (ports.put_quarantine_entries rows w).0 ≡ done tt
      → effects (ports.put_quarantine_entries rows w).1 ≡ rows_put rows ∷ effects w
  pub outcome_effects :
      (e : Envelope) (o : O) (n : ℕ) (w : W) (v : V)
      → (ports.record_outcome e o n w).0 ≡ done v
      → effects (ports.record_outcome e o n w).1 ≡ outcome_recorded e o n ∷ effects w
  pub fence_recorded_effects :
      (e : Envelope) (r : FenceReason) (w : W)
      → (ports.record_fence e r w).0 ≡ done tt
      → effects (ports.record_fence e r w).1 ≡ fence_recorded e r ∷ effects w
  pub clock_effects : (w : W) → effects (ports.clock w).1 ≡ effects w
  pub deferred_effects : (r : DeferReason) (w : W) → effects (ports.count_deferred r w) ≡ effects w
  pub fenced_effects : (r : FenceReason) (w : W) → effects (ports.count_fenced r w) ≡ effects w
  pub emit_effects :
      (o : O) (v : V) (t u : Instant) (w : W) → effects (ports.emit_processed o v t u w) ≡ effects w

-- What holds of a step that ended without an exception.
abbrev pub Ended : {W A : Type 0} → (A → W → Type 0) → Answer A × W → Type 0
Ended Q (done a, w) = Q a w
Ended Q (threw x, w) = Unit

module _ {W A B : Type 0} (m : Step W A) (f : A → Step W B) where
  Ended-after :
      (P : A → W → Type 0) (Q : B → W → Type 0) (r : Answer A × W)
      → Ended P r
      → ((a : A) (v : W) → P a v → Ended Q (f a v))
      → Ended Q (elim (r.0) [ done a ↦ f a (r.1) | threw x ↦ (threw x, (r.1)) ])
  Ended-after P Q (done a, w) h k = k a w h
  Ended-after P Q (threw x, w) h k = tt

  pub Ended-bind :
      (P : A → W → Type 0) (Q : B → W → Type 0) (w : W)
      → Ended P (m w)
      → ((a : A) (v : W) → P a v → Ended Q (f a v))
      → Ended Q ((m >>= f) w)
  unfolding ◌>>=◌
  Ended-bind P Q w h k = Ended-after P Q (m w) h k

-- A step's promise about the value that it returns is a promise of how it ends.
pub Ended-of :
    {W A : Type 0} (P : A → W → Type 0) (r : Answer A × W)
    → ((a : A) → r.0 ≡ done a → P a r.1)
    → Ended P r
Ended-of P (done a, w) h = h a refl
Ended-of P (threw x, w) h = tt
