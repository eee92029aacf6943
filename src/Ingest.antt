-- ===== src/Ingest.antt =====
-- The data of the telemetry ingress: domain/ingestion.py, with the entities of
-- domain/integrations.py, domain/devices_v2.py and domain/telemetry_v2.py that it reads.
-- Identifiers and digests are opaque to this code, which only tests them for equality and sorts
-- them: an identifier is a number. An instant is the number of microseconds since the Unix epoch,
-- the unit and origin of `epoch_microseconds`, for the instants from 1970 on.
pub mod Receipt
pub mod Trust
pub mod Service
pub mod Marks
pub mod Sequence
pub mod RateLimit
use limnopulse.Prelude.{
  ℕ, ◌+◌, ◌≡◌, Bool, true, false, Option, List, ◌==◌, ◌&&◌, not, if◌then◌else◌,
}
use limnopulse.Prelude.Int.{ℤ}
use limnopulse.Status.{DeviceStatus, ComponentStatus, AccountStatus, IntegrationStatus}

abbrev pub Ident : Type 0
Ident = ℕ

abbrev pub Instant : Type 0
Instant = ℕ

-- `StrictInt | StrictFloat`; a float is carried by its bit pattern and never computed with here.
pub data SourceValue : Type 0 where
  int : ℤ → SourceValue
  float : ℕ → SourceValue

-- `NormalizationVersions`
pub record Versions : Type 0 where
  pub catalog_version : Ident
  pub unit_mapping_version : Ident
  pub quality_policy_version : Ident

-- `IntegrationAccount`
pub record Account : Type 0 where
  pub tenant_id : Ident
  pub integration_account_id : Ident
  pub provider_key : Ident
  pub status : AccountStatus

-- `DeviceIntegration`
pub record Integration : Type 0 where
  pub tenant_id : Ident
  pub device_integration_id : Ident
  pub device_id : Ident
  pub integration_account_id : Ident
  pub provider_key : Ident
  pub external_identity_hash : Ident
  pub status : IntegrationStatus

-- `DeviceV2`
pub record Device : Type 0 where
  pub tenant_id : Ident
  pub device_id : Ident
  pub status : DeviceStatus

-- `DeviceComponent`, as far as admission reads it
pub record Component : Type 0 where
  pub tenant_id : Ident
  pub component_id : Ident
  pub device_id : Ident
  pub status : ComponentStatus

-- `AuthenticatedSource`
pub record Source : Type 0 where
  pub tenant_id : Ident
  pub integration_account_id : Ident
  pub provider_key : Ident
  pub ingest_credential_id : Ident

-- The fields that `IngestSourceObservation` and `SourceObservation` share.
pub record Reading : Type 0 where
  pub metric_key : Ident
  pub value : SourceValue
  pub source_unit : Ident
  pub observed_at : Instant
  pub sequence : Option ℕ
  pub source_event_id : Option Ident
  pub source_metadata : List (Ident × Ident)

-- `IngestSourceObservation`
pub record IngestObservation : Type 0 where
  pub component_id : Option Ident
  pub reading : Reading

-- `IngestObservationBatch`
pub record Batch : Type 0 where
  pub external_device_id : Ident
  pub observations : List IngestObservation

-- `SourceObservation`
pub record Observation : Type 0 where
  pub component_id : Ident
  pub reading : Reading

-- `SourceType`
pub data SourceType : Type 0 where
  legacy_mqtt https mqtt vendor_webhook vendor_poll edge : SourceType

-- `IngressEnvelope`, without its constant schema tag
pub record Envelope : Type 0 where
  pub ingress_id : Ident
  pub replay_of : Option Ident
  pub tenant_id : Ident
  pub integration_account_id : Ident
  pub provider_key : Ident
  pub external_identity_hash : Ident
  pub device_integration_id : Ident
  pub device_id : Ident
  pub source_type : SourceType
  pub connector_version : Option Ident
  pub received_at : Instant
  pub replay : Bool
  pub mapping_versions : Versions
  pub observations : List Observation
