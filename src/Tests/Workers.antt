-- ===== src/Tests/Workers.antt =====
-- The worker and the marks, on concrete inputs.
use limnopulse.Prelude.{
  Bool, true, false, Option, ◌∙◌, ℕ, ◌≤◌, min, max, ◌≡◌, refl, ap, inl, inr, none, some, List, [],
  ◌∷◌, arith, if◌then◌else◌, ◌==◌,
}
use limnopulse.Prelude.Deliver.{deliver}
use limnopulse.Ingest.Trust.{build_trusted_context}
use limnopulse.Ingest.Trust.Mapping.{Fenced, trusted}
use limnopulse.Ingest.Marks.{
  ComponentMark, DeviceMark, ConnectorMark, ComponentState, ConnectorState, apply_component_mark,
  apply_connector_mark,
}
use limnopulse.Ingest.Marks.Orders.{component_marks_same, connector_marks_same}
use limnopulse.Worker.{
  Category, ingress_backoff_seconds, backoff_window, RetryPolicy, ProcessAction, decision,
  max_visibility_seconds,
}
use limnopulse.Worker.Retries.{backoff_bounds, Hidden, decision-hides}
use limnopulse.Worker.Processor.{Ports, done, Fault, Message, process, ◌>>=◌}
use limnopulse.Worker.Processor.Ledger.{
  Effect, ingested, rows_put, outcome_recorded, fence_recorded, Ledger,
}
use limnopulse.Worker.Processor.Mapped.{await_mapping, mapped, IsDealtWith, process-IsDealtWith}
use limnopulse.Calls.{Outcome, returned, raised, pure}
use limnopulse.Ingest.{Envelope, Integration, Device}
use limnopulse.Ingest.Trust.{Blocked, classify_fence, matches_envelope}
use limnopulse.Ingest.Trust.Mapping
use limnopulse.Ingest.Trust.Mapping.Laws.{Rows, ReadsRows}
use limnopulse.Tests.Trusted.{envelope, integration, account, device}

abbrev half : ℕ → ℕ
half w = min w 7

half_within : (w : ℕ) → half w ≤ w
half_within w = omega arith

abbrev policy : RetryPolicy
policy = record { base = 30; cap = 900; permanent_visibility = 60; jitter = half }

backoff_bounds_example :
    (1 ≤ ingress_backoff_seconds 3 30 900 half)
    × (ingress_backoff_seconds 3 30 900 half ≤ max_visibility_seconds)
    × (ingress_backoff_seconds 3 30 900 half ≤ max (backoff_window 3 30 900) 1)
backoff_bounds_example = backoff_bounds 3 30 900 half half_within

deferred_hides : (decision policy Category.deferred 2).action ≡ ProcessAction.visibility
unfolding decision
deferred_hides = refl

decision-hides_example : Hidden (decision policy Category.deferred 2) max_visibility_seconds
decision-hides_example =
    decision-hides policy Category.deferred 2 half_within (omega arith) (omega arith) deferred_hides

-- A world that is the ledger itself: outcomes, rows and events are numbers.
abbrev World : Type 0
World = List (Effect ℕ ℕ)

returned_value : (a b : ℕ) → done a ≡ done b → a ≡ b
returned_value a b h = ground arith

abbrev ports : Ports World ℕ ℕ ℕ
ports = record {
  parse = λ body. if body == 5 then some envelope else none;
  fence = λ e w. (done (trusted (build_trusted_context e integration) e.observations), w);
  ingest = λ c os w. (done 9, ingested c os 9 ∷ w);
  fence_entries = λ e r t. done (t ∷ []);
  outcome_entries = λ e o t. done (o ∷ []);
  put_quarantine_entries = λ rows w. (done tt, rows_put rows ∷ w);
  record_outcome = λ e o n w. (done 4, outcome_recorded e o n ∷ w);
  record_fence = λ e r w. (done tt, fence_recorded e r ∷ w);
  clock = λ w. (100, w);
  count_deferred = λ r w. w;
  count_fenced = λ r w. w;
  count_write_failure = λ b w. w;
  emit_processed = λ o v t u w. w;
}

abbrev ledger : Ledger ports
ledger = record {
  effects = λ w. w;
  fence_effects = λ e w. refl;
  ingest_effects = λ c os w o h. ap (λ x. ingested c os x ∷ w) (returned_value 9 o h);
  put_effects = λ rows w h. refl;
  outcome_effects = λ e o n w v h. refl;
  fence_recorded_effects = λ e r w h. refl;
  clock_effects = λ w. refl;
  deferred_effects = λ r w. refl;
  fenced_effects = λ r w. refl;
  emit_effects = λ o v t u w. refl;
}

abbrev message : Message
message = record { message_id = 1; body = 5; receive_count = 2 }

-- The mapping service over a store of one device; its reads write nothing.
abbrev rows : Rows
rows = record {
  integration = λ p h. some integration;
  account = λ t a. some account;
  device = λ t d. some device;
  component = λ t c. none;
}

abbrev readers : Mapping.Readers World
readers = record {
  resolve_external_identity = λ p h. pure (some integration);
  get_integration_account = λ t a. pure (some account);
  get_device = λ t d. pure (some device);
  get_component = λ t c. pure none;
  account_scoped_identity_hash = λ p a e. 6;
  default_component_id = λ t d. 7;
}

reads : ReadsRows readers rows
reads = record {
  integration_read = λ p h w o e. cc e;
  account_read = λ t a w o e. cc e;
  device_read = λ t d w o e. cc e;
  component_read = λ t c w o e. cc e;
}

device_quiet : (own : Bool) (w : World) → ((if own then pure (some device) else pure none) w).1 ≡ w
device_quiet true w = refl
device_quiet false w = refl

result_quiet :
    (e : Envelope) (o : Option Integration) (b : Option Blocked) (w : World)
    → (Mapping.fence_result readers e o b w).1 ≡ w
unfolding Mapping.fence_result
result_quiet e o (some b) w = refl
result_quiet e none none w = refl
result_quiet e (some i) none w = refl

after_device :
    (e : Envelope) (r : Outcome (Option Device)) (w : World)
    → (elim r as (λ x. Outcome Fenced × World) [
      | returned d ↦
          Mapping.fence_result readers e
            (some integration)
            (classify_fence e (some integration) (some account) d)
            w
      | raised ↦ (raised, w)
    ]).1
      ≡ w
after_device e (returned d) w =
    result_quiet e (some integration) (classify_fence e (some integration) (some account) d) w
after_device e raised w = refl

fence_quiet : (e : Envelope) (w : World) → (Mapping.fence readers e w).1 ≡ w
unfolding Mapping.fence
fence_quiet e w =
    after_device e ((if matches_envelope integration e then pure (some device) else pure none) w).0
      _
    ∙ device_quiet (matches_envelope integration e) w

abbrev fault : World → Fault
fault w = Fault.store

mapping_quiet : (e : Envelope) (w : World) → ((mapped readers fault ports).fence e w).1 ≡ w
unfolding await_mapping
mapping_quiet e w = fence_quiet e w

abbrev mapped_ledger : Ledger (mapped readers fault ports)
mapped_ledger = record {
  effects = λ w. w;
  fence_effects = mapping_quiet;
  ingest_effects = ledger.ingest_effects;
  put_effects = ledger.put_effects;
  outcome_effects = ledger.outcome_effects;
  fence_recorded_effects = ledger.fence_recorded_effects;
  clock_effects = ledger.clock_effects;
  deferred_effects = ledger.deferred_effects;
  fenced_effects = ledger.fenced_effects;
  emit_effects = ledger.emit_effects;
}

message_deleted :
    ((process (mapped readers fault ports) policy message []).0).action ≡ ProcessAction.delete
unfolding process ◌>>=◌ await_mapping Mapping.fence matches_envelope classify_fence
message_deleted = refl

process-IsDealtWith_example :
    IsDealtWith readers rows fault ports mapped_ledger message []
      (process (mapped readers fault ports) policy message []).1
process-IsDealtWith_example =
    process-IsDealtWith readers rows fault ports mapped_ledger policy message [] reads
      message_deleted

-- Two marks delivered in one order and once each, and in the other order with one of them twice.
abbrev early : ComponentMark
early = record { received_at = some 5; ingested_at = some 6; observed = some (3, 10) }

abbrev late : ComponentMark
late = record { received_at = some 8; ingested_at = some 9; observed = some (3, 11) }

abbrev no_state : ComponentState
no_state = record { last_received_at = none; last_ingested_at = none; last_observed = none }

component_marks_same_example :
    deliver apply_component_mark (early ∷ late ∷ []) no_state
    ≡ deliver apply_component_mark (late ∷ early ∷ late ∷ []) no_state
component_marks_same_example =
    component_marks_same (early ∷ late ∷ []) (late ∷ early ∷ late ∷ []) no_state
      (inr (inl refl), (inl refl, tt)) (inr (inl refl), (inl refl, (inr (inl refl), tt)))

abbrev first_seen : DeviceMark
first_seen = record { received_at = 5; ingested_at = 6 }

abbrev last_seen : DeviceMark
last_seen = record { received_at = 8; ingested_at = 9 }

abbrev accepts : ConnectorMark
accepts = record { received_at = some 5; accepted_at = some 5; quarantined = none; fenced = none }

abbrev fences : ConnectorMark
fences = record { received_at = none; accepted_at = none; quarantined = none; fenced = some (7, 2) }

abbrev healthy : ConnectorState
healthy = record {
  last_received_at = none;
  last_accepted_at = none;
  last_quarantined = none;
  last_fenced = some (7, 1);
}

connector_marks_same_example :
    deliver apply_connector_mark (accepts ∷ fences ∷ []) healthy
    ≡ deliver apply_connector_mark (fences ∷ fences ∷ accepts ∷ []) healthy
connector_marks_same_example =
    connector_marks_same (accepts ∷ fences ∷ []) (fences ∷ fences ∷ accepts ∷ []) healthy
      (inr (inr (inl refl)), (inl refl, tt)) (inr (inl refl), (inr (inl refl), (inl refl, tt)))
