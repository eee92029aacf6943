-- ===== src/Ingest/Marks.antt =====
-- High-water marks: the marks of domain/ingestion.py and `_advance` and `apply_ingest_marks` of
-- adapters/dynamodb_ingest_state.py, row by row. A pair of a mark and its tie-breaker is one value,
-- as `_paired` demands; a tie-breaker is a number, in the order that the table compares it by.
pub mod Orders
pub mod Build
use limnopulse.Prelude.{
  ℕ, Bool, true, false, Option, none, some, if◌then◌else◌, ltb, ◌==◌, ◌&&◌, ◌||◌,
}
use limnopulse.Ingest.{Ident, Instant}

abbrev pub Pair : Type 0
Pair = Instant × ℕ

-- `attribute_not_exists(#m) OR #m < :t`
unfoldable pub simple_condition : Instant → Option Instant → Bool
simple_condition t none = true
simple_condition t (some m) = ltb m t

-- `attribute_not_exists(#m) OR #m < :t OR (#m = :t AND #tb < :tb)`
unfoldable pub paired_condition : Pair → Option Pair → Bool
paired_condition p none = true
paired_condition p (some q) = ltb q.0 p.0 || (q.0 == p.0 && ltb q.1 p.1)

-- `_advance` without a tie-breaker, on its attribute
unfoldable pub advance_simple : Option Instant → Option Instant → Option Instant
unfolding simple_condition
advance_simple none stored = stored
advance_simple (some t) stored = if simple_condition t stored then some t else stored

-- `_advance` with a tie-breaker, on its two attributes
unfoldable pub advance_paired : Option Pair → Option Pair → Option Pair
unfolding paired_condition
advance_paired none stored = stored
advance_paired (some p) stored = if paired_condition p stored then some p else stored

-- `ComponentMark`
pub record ComponentMark : Type 0 where
  pub received_at : Option Instant
  pub ingested_at : Option Instant
  pub observed : Option Pair

-- `DeviceMark`
pub record DeviceMark : Type 0 where
  pub received_at : Instant
  pub ingested_at : Instant

-- `ConnectorMark`
pub record ConnectorMark : Type 0 where
  pub received_at : Option Instant
  pub accepted_at : Option Instant
  pub quarantined : Option Pair
  pub fenced : Option Pair

-- The mark attributes of a component's row, `ComponentIngestState`.
pub record ComponentState : Type 0 where
  pub last_received_at : Option Instant
  pub last_ingested_at : Option Instant
  pub last_observed : Option Pair

-- The mark attributes of a device's row, `DeviceIngestState`.
pub record DeviceState : Type 0 where
  pub last_received_at : Option Instant
  pub last_ingested_at : Option Instant

-- The mark attributes of an account's row, `ConnectorHealth`.
pub record ConnectorState : Type 0 where
  pub last_received_at : Option Instant
  pub last_accepted_at : Option Instant
  pub last_quarantined : Option Pair
  pub last_fenced : Option Pair

-- one turn of the loop over the component marks
unfoldable pub apply_component_mark : ComponentMark → ComponentState → ComponentState
unfolding advance_simple advance_paired
apply_component_mark mark row = record {
  last_received_at = advance_simple mark.received_at row.last_received_at;
  last_ingested_at = advance_simple mark.ingested_at row.last_ingested_at;
  last_observed = advance_paired mark.observed row.last_observed;
}

unfoldable pub apply_device_mark : DeviceMark → DeviceState → DeviceState
unfolding advance_simple
apply_device_mark mark row = record {
  last_received_at = advance_simple (some mark.received_at) row.last_received_at;
  last_ingested_at = advance_simple (some mark.ingested_at) row.last_ingested_at;
}

unfoldable pub apply_connector_mark : ConnectorMark → ConnectorState → ConnectorState
unfolding advance_simple advance_paired
apply_connector_mark mark row = record {
  last_received_at = advance_simple mark.received_at row.last_received_at;
  last_accepted_at = advance_simple mark.accepted_at row.last_accepted_at;
  last_quarantined = advance_paired mark.quarantined row.last_quarantined;
  last_fenced = advance_paired mark.fenced row.last_fenced;
}
