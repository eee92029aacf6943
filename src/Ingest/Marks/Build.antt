-- ===== src/Ingest/Marks/Build.antt =====
-- `build_ingest_marks` of domain/ingestion.py: the marks of one message. The arguments of the outcome
-- are what the code reads of it; a reason is a number, in the order that `max` compares it by.
use limnopulse.Prelude.{
  ℕ, max, Bool, Option, none, some, List, [], ◌∷◌, map, if◌then◌else◌, ltb, ◌==◌, ◌&&◌, ◌||◌, not,
  is_empty, is_some,
}
use limnopulse.Ingest.{Ident, Instant, Envelope}
use limnopulse.Ingest.Marks.{Pair, ComponentMark, DeviceMark, ConnectorMark}

-- An accepted observation: `skewed` where its quality has a flag of `_SKEW_FLAGS`.
pub record AcceptedReading : Type 0 where
  pub component_id : Ident
  pub observed_at : Instant
  pub sequence : Option ℕ
  pub skewed : Bool

-- `IngestMarks`
pub record IngestMarks : Type 0 where
  pub tenant_id : Ident
  pub device_id : Option Ident
  pub integration_account_id : Ident
  pub component_marks : List (Ident × ComponentMark)
  pub device_mark : Option DeviceMark
  pub connector_mark : ConnectorMark

-- The outcome of the pipeline, or a verified or unverified fence with its reason: exactly one.
pub data Ending : Type 0 where
  outcome : List AcceptedReading → List ℕ → Ending
  fenced : ℕ → Bool → Ending

-- `current is None or pair > current`
unfoldable pub better_pair : Option Pair → Option Pair → Option Pair
better_pair none current = current
better_pair (some p) none = some p
better_pair (some p) (some q) =
    if ltb q.0 p.0 || (q.0 == p.0 && ltb q.1 p.1) then some p else some q

-- the pair that an observation offers
unfoldable pub offered_pair : AcceptedReading → Option Pair
offered_pair r = elim (r.sequence) [
  | none ↦ none
  | some n ↦ if r.skewed then none else some (r.observed_at, n)
]

-- `best`, in the order of its keys
unfoldable pub insert_best :
    Ident → Option Pair → List (Ident × Option Pair) → List (Ident × Option Pair)
unfolding better_pair
insert_best c p [] = (c, p) ∷ []
insert_best c p ((d, q) ∷ best) =
    let rest = insert_best c p best in
    if c == d
    then (d, better_pair p q) ∷ best
    else if ltb c d
    then (c, p) ∷ (d, q) ∷ best
    else (d, q) ∷ rest

-- the loop over the accepted observations, from the last one on: `best` keeps the greatest pair of
-- each component, whichever comes first
unfoldable pub best_pairs : List AcceptedReading → List (Ident × Option Pair)
unfolding insert_best offered_pair
best_pairs [] = []
best_pairs (r ∷ rs) = insert_best r.component_id (offered_pair r) (best_pairs rs)

abbrev pub greatest_reason : List ℕ → Option ℕ
greatest_reason [] = none
greatest_reason (r ∷ rs) = elim (greatest_reason rs) [ none ↦ some r | some s ↦ some (max r s) ]

abbrev pub at_instant : Instant → Option ℕ → Option Pair
at_instant t none = none
at_instant t (some r) = some (t, r)

abbrev pub no_connector_mark : ConnectorMark
no_connector_mark = record {
  received_at = none;
  accepted_at = none;
  quarantined = none;
  fenced = none;
}

abbrev pub empty_marks : Envelope → IngestMarks
empty_marks e = record {
  tenant_id = e.tenant_id;
  device_id = none;
  integration_account_id = e.integration_account_id;
  component_marks = [];
  device_mark = none;
  connector_mark = no_connector_mark;
}

abbrev pub outcome_marks : Envelope → Instant → List AcceptedReading → List ℕ → IngestMarks
unfolding best_pairs
outcome_marks e ingested_at accepted reasons = record {
  tenant_id = e.tenant_id;
  device_id = some e.device_id;
  integration_account_id = e.integration_account_id;
  component_marks =
      map
        (λ (best : Ident × Option Pair). (
          best.0,
          record {
            received_at = some e.received_at;
            ingested_at = some ingested_at;
            observed = best.1;
          },
        ))
        (best_pairs accepted);
  device_mark = some (record { received_at = e.received_at; ingested_at = ingested_at });
  connector_mark = record {
    received_at = some e.received_at;
    accepted_at = if is_empty accepted then none else some e.received_at;
    quarantined = at_instant e.received_at (greatest_reason reasons);
    fenced = none;
  };
}

-- `build_ingest_marks`
unfoldable pub build_ingest_marks : Envelope → Instant → Ending → IngestMarks
build_ingest_marks e ingested_at (outcome accepted reasons) =
    if e.replay then empty_marks e else outcome_marks e ingested_at accepted reasons
build_ingest_marks e ingested_at (fenced reason verified) =
    if e.replay || not verified then empty_marks e else record (empty_marks e) {
      connector_mark = record no_connector_mark { fenced = some (e.received_at, reason) };
    }

-- `IngestMarks.validate_device`
unfoldable pub validate_device : IngestMarks → Bool
validate_device m =
    is_some m.device_id || (is_empty m.component_marks && not (is_some m.device_mark))
