-- ===== src/Worker/Processor.antt =====
-- `IngestMessageProcessor` of services/ingest_processor.py. The repositories, the mapping, the
-- pipeline, the clock, the metrics, the parser of the body and `build_quarantine_entries` are a
-- record of parameters; its types of outcomes, quarantine rows and sequence events are parameters
-- too.
pub mod Ledger
pub mod Durable
pub mod Mapped
use limnopulse.Prelude.{Bool, true, false, Option, none, some, List, [], ◌∷◌, ℕ, if◌then◌else◌}
use limnopulse.Ingest.{Ident, Instant, Envelope, Observation}
use limnopulse.Ingest.Trust.{TrustedContext, Blocked, FenceReason, DeferReason}
use limnopulse.Ingest.Trust.Mapping.{Fenced, trusted, blocked}
use limnopulse.Worker.{Category, RetryPolicy, Decision, decision}

-- What a step raises, as far as the `except` clauses tell it apart.
pub data Fault : Type 0 where
  telemetry_write : Bool → Fault
  store value contract other : Fault

pub data Answer (A : Type 0) : Type 0 where
  done : A → Answer A
  threw : Fault → Answer A

abbrev pub Step : Type 0 → Type 0 → Type 0
Step W A = W → Answer A × W

infixl 10 ◌>>=◌
unfoldable pub ◌>>=◌ : {W A B : Type 0} → Step W A → (A → Step W B) → Step W B
(m >>= f) w = let (r, w') = m w in elim r [ done a ↦ f a w' | threw x ↦ (threw x, w') ]

-- `IngressQueueMessage`, as far as the worker reads it
pub record Message : Type 0 where
  pub message_id : Ident
  pub body : Ident
  pub receive_count : ℕ

pub record Ports (W O E V : Type 0) : Type 0 where
  pub parse : Ident → Option Envelope
  pub fence : Envelope → Step W Fenced
  pub ingest : TrustedContext → List Observation → Step W O
  pub fence_entries : Envelope → FenceReason → Instant → Answer (List E)
  pub outcome_entries : Envelope → O → Instant → Answer (List E)
  pub put_quarantine_entries : List E → Step W (Unit {0})
  pub record_outcome : Envelope → O → ℕ → Step W V
  pub record_fence : Envelope → FenceReason → Step W (Unit {0})
  pub clock : W → Instant × W
  pub count_deferred : DeferReason → W → W
  pub count_fenced : FenceReason → W → W
  pub count_write_failure : Bool → W → W
  pub emit_processed : O → V → Instant → Instant → W → W

module _ {W O E V : Type 0} (ports : Ports W O E V) where
  abbrev pub read_clock : Step W Instant
  read_clock w = let (t, w') = ports.clock w in (done t, w')

  -- `_fence`
  unfoldable pub process_fence : Envelope → FenceReason → Bool → Step W Category
  process_fence envelope reason false =
      λ w. (done Category.fenced_unverified, ports.count_fenced reason w)
  process_fence envelope reason true = read_clock >>= λ now.
      (λ w. (ports.fence_entries envelope reason now, w)) >>= λ rows.
      ports.put_quarantine_entries rows >>= λ _. ports.record_fence envelope reason >>= λ _.
      λ w. (done Category.fenced, ports.count_fenced reason w)

  -- `except ValueError as error: raise _ContractViolation`
  abbrev pub violation : Answer O → Answer O
  violation (threw Fault.value) = threw Fault.contract
  violation r = r

  unfoldable pub ingest_or_violation : TrustedContext → List Observation → Step W O
  ingest_or_violation context observations w =
      let (r, w') = ports.ingest context observations w in (violation r, w')

  -- `if rows: await self.quarantine.put_quarantine_entries(rows)`
  unfoldable pub put_rows : List E → Step W (Unit {0})
  put_rows [] = λ w. (done tt, w)
  put_rows (row ∷ rows) = ports.put_quarantine_entries (row ∷ rows)

  -- `_ingest`
  unfoldable pub process_ingest : Envelope → TrustedContext → List Observation → ℕ → Step W Category
  unfolding ingest_or_violation put_rows
  process_ingest envelope context observations receive_count = read_clock >>= λ started.
      ingest_or_violation context observations >>= λ outcome. read_clock >>= λ ended.
      read_clock >>= λ now. (λ w. (ports.outcome_entries envelope outcome now, w)) >>= λ rows.
      put_rows rows >>= λ _. ports.record_outcome envelope outcome receive_count >>= λ events.
      λ w. (done Category.processed, ports.emit_processed outcome events started ended w)

  unfoldable pub process_result : Envelope → ℕ → Fenced → Step W Category
  unfolding process_fence process_ingest
  process_result envelope n (blocked (Blocked.defer reason)) =
      λ w. (done Category.deferred, ports.count_deferred reason w)
  process_result envelope n (blocked (Blocked.fence reason verified)) =
      process_fence envelope reason verified
  process_result envelope n (trusted context observations) =
      process_ingest envelope context observations n

  -- `_process`
  unfoldable pub process_envelope : Envelope → ℕ → Step W Category
  unfolding process_result
  process_envelope envelope n = ports.fence envelope >>= process_result envelope n

  -- the `except` clauses of `_categorize`
  unfoldable pub categorize_fault : Fault → W → Category × W
  categorize_fault (Fault.telemetry_write retryable) w = (
    if retryable then Category.write_retryable else Category.write_permanent,
    ports.count_write_failure retryable w,
  )
  categorize_fault Fault.store w = (Category.store_unavailable, w)
  categorize_fault Fault.contract w = (Category.contract_violation, w)
  categorize_fault _ w = (Category.unexpected, w)

  -- `try: return await self._process(...)` and its `except` clauses
  abbrev pub settle : Answer Category × W → Category × W
  settle (done c, w) = (c, w)
  settle (threw x, w) = categorize_fault x w

  unfoldable pub categorize_body : Option Envelope → ℕ → W → Category × W
  unfolding process_envelope categorize_fault
  categorize_body none n w = (Category.envelope_invalid, w)
  categorize_body (some envelope) n w = settle (process_envelope envelope n w)

  -- `_categorize`
  unfoldable pub categorize : Message → W → Category × W
  unfolding categorize_body
  categorize message = categorize_body (ports.parse message.body) message.receive_count

  -- `process`
  unfoldable pub process : RetryPolicy → Message → W → Decision × W
  unfolding categorize decision
  process retry message w =
      let (c, w') = categorize message w in (decision retry c message.receive_count, w')
