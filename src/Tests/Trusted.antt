-- ===== src/Tests/Trusted.antt =====
-- Admission, fences and selectors on concrete rows.
use limnopulse.Prelude.{
  ℕ, ◌≡◌, ◌≢◌, refl, ◌↔◌, true, false, none, some, List, [], ◌∷◌, ◌++◌, map, All, arith,
}
use limnopulse.Calls.{returned, pure}
use limnopulse.Status.{
  ok, DeviceStatus, AccountStatus, IntegrationStatus, ComponentStatus, ensure_device_transition,
}
use limnopulse.Status.Reach.{here, next}
use limnopulse.Ingest.{
  Account, Integration, Device, Component, Source, Reading, IngestObservation, Batch, SourceType,
  Envelope, int,
}
use limnopulse.Prelude.Int.{pos}
use limnopulse.Ingest.Trust.{
  FenceReason, fence, owned_by, classify_admission, classify_fence, resolved, denied,
  resolve_component_selectors,
}
use limnopulse.Ingest.Trust.Decisions.{
  TrustedRows, classify_admission_iff, IsEnvelopeAccount, classify_fence-verified_iff,
  admitted_not_fenced, fence_terminal,
}
use limnopulse.Ingest.Trust.Selectors.{
  selected, IsActive, selector_denial, selectors-resolved_iff, selectors-denied,
}
use limnopulse.Ingest.Trust.Mapping.{Readers, Admission, admission, admit}
use limnopulse.Ingest.Trust.Mapping.Laws.{Rows, ReadsRows, Authorised, admit-Authorised}

abbrev pub source : Source
source = record {
  tenant_id = 1;
  integration_account_id = 2;
  provider_key = 0;
  ingest_credential_id = 3;
}

abbrev pub integration : Integration
integration = record {
  tenant_id = 1;
  device_integration_id = 4;
  device_id = 5;
  integration_account_id = 2;
  provider_key = 0;
  external_identity_hash = 6;
  status = IntegrationStatus.active;
}

abbrev pub account : Account
account = record {
  tenant_id = 1;
  integration_account_id = 2;
  provider_key = 0;
  status = AccountStatus.active;
}

abbrev pub device : Device
device = record { tenant_id = 1; device_id = 5; status = DeviceStatus.active }

abbrev probe : Component
probe = record { tenant_id = 1; component_id = 7; device_id = 5; status = ComponentStatus.active }

abbrev pub reading : Reading
reading = record {
  metric_key = 1;
  value = int (pos 7);
  source_unit = 1;
  observed_at = 100;
  sequence = some 3;
  source_event_id = none;
  source_metadata = [];
}

abbrev pub batch : Batch
batch = record {
  external_device_id = 9;
  observations =
      record { component_id = none; reading = reading }
      ∷ record { component_id = some 7; reading = reading }
      ∷ [];
}

abbrev pub envelope : Envelope
envelope = record {
  ingress_id = 20;
  replay_of = none;
  tenant_id = 1;
  integration_account_id = 2;
  provider_key = 0;
  external_identity_hash = 6;
  device_integration_id = 4;
  device_id = 5;
  source_type = SourceType.https;
  connector_version = none;
  received_at = 100;
  replay = false;
  mapping_versions = record {
    catalog_version = 1;
    unit_mapping_version = 1;
    quality_policy_version = 1;
  };
  observations = record { component_id = 7; reading = reading } ∷ [];
}

classify_admission_iff_example :
    (classify_admission source (some integration) (some account) (some device) ≡ none)
    ↔ TrustedRows source (some integration) (some account) (some device)
classify_admission_iff_example =
    classify_admission_iff source (some integration) (some account) (some device)

abbrev gone : Integration
gone = record integration { status = IntegrationStatus.decommissioned }

gone_fenced :
    classify_fence envelope (some gone) (some account) (some device)
    ≡ some (fence FenceReason.integration_decommissioned true)
unfolding classify_fence
gone_fenced = refl

classify_fence-verified_iff_example : (true ≡ true) ↔ IsEnvelopeAccount envelope (some account)
classify_fence-verified_iff_example =
    classify_fence-verified_iff envelope (some gone) (some account) (some device)
      FenceReason.integration_decommissioned true gone_fenced

admitted : classify_admission source (some integration) (some account) (some device) ≡ none
unfolding classify_admission
admitted = refl

admitted_not_fenced_example :
    classify_fence envelope (some integration) (some account) (some device) ≡ none
admitted_not_fenced_example =
    admitted_not_fenced envelope source integration account device (omega arith) admitted

abbrev suspended : Device
suspended = record device { status = DeviceStatus.suspended }

suspends : ensure_device_transition DeviceStatus.active DeviceStatus.suspended ≡ ok
unfolding ensure_device_transition
suspends = refl

fence_terminal_example : classify_fence envelope (some gone) (some account) (some suspended) ≢ none
fence_terminal_example =
    fence_terminal envelope gone gone account account device suspended
      FenceReason.integration_decommissioned true gone_fenced
      (record {
        tenant = refl;
        account = refl;
        provider = refl;
        hash = refl;
        integration = refl;
        device = refl;
        history = here;
      })
      (record { tenant = refl; account = refl; provider = refl; history = here })
      (record { tenant = refl; device = refl; history = next here suspends })

selectors-resolved_iff_example :
    (resolve_component_selectors batch.observations 7 (7 ∷ []) ≡ resolved (7 ∷ 7 ∷ [])) ↔ (
      All (IsActive (7 ∷ []) 7) batch.observations
      × (◌≡◌ {A = List ℕ} (7 ∷ 7 ∷ []) (map (selected 7) batch.observations)))
selectors-resolved_iff_example = selectors-resolved_iff batch.observations 7 (7 ∷ []) (7 ∷ 7 ∷ [])

abbrev stray : IngestObservation
stray = record { component_id = some 8; reading = reading }

selectors-denied_example :
    resolve_component_selectors (batch.observations ++ stray ∷ []) 7 (7 ∷ [])
    ≡ denied (record { reason = selector_denial stray; observation_index = some 2 })
selectors-denied_example =
    selectors-denied batch.observations [] stray 7 (7 ∷ []) (refl, (refl, tt)) refl

-- A store of one device.
abbrev rows : Rows
rows = record {
  integration = λ p h. some integration;
  account = λ t a. some account;
  device = λ t d. some device;
  component = λ t c. some probe;
}

abbrev readers : Readers ℕ
readers = record {
  resolve_external_identity = λ p h. pure (some integration);
  get_integration_account = λ t a. pure (some account);
  get_device = λ t d. pure (some device);
  get_component = λ t c. pure (some probe);
  account_scoped_identity_hash = λ p a e. 6;
  default_component_id = λ t d. 7;
}

reads : ReadsRows readers rows
reads = record {
  integration_read = λ p h w o e. cc e;
  account_read = λ t a w o e. cc e;
  device_read = λ t d w o e. cc e;
  component_read = λ t c w o e. cc e;
}

abbrev pub own_admission : Admission
own_admission = record {
  source = source;
  device_integration = integration;
  device = device;
  observations =
      record { component_id = 7; reading = reading }
      ∷ record { component_id = 7; reading = reading }
      ∷ [];
}

admits : (admit readers source batch 0).0 ≡ returned (admission own_admission)
unfolding admit owned_by classify_admission resolve_component_selectors
admits = refl

admit-Authorised_example : Authorised rows source batch own_admission
admit-Authorised_example = admit-Authorised readers rows reads source batch 0 own_admission admits
