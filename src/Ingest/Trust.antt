-- ===== src/Ingest/Trust.antt =====
-- Whom a request or a queued envelope belongs to: `classify_admission`, `classify_fence`,
-- `resolve_component_selectors` and `build_trusted_context` of domain/ingestion.py.
pub mod Decisions
pub mod Selectors
pub mod Mapping
use limnopulse.Prelude.{
  ℕ, suc, ◌+◌, Bool, true, false, not, ◌&&◌, ◌||◌, Option, none, some, List, [], ◌∷◌, ◌==◌,
  contains, if◌then◌else◌,
}
use limnopulse.Status.{DeviceStatus, AccountStatus, IntegrationStatus}
use limnopulse.Ingest.{
  Ident, Instant, Versions, Account, Integration, Device, Source, IngestObservation, Envelope,
  SourceType,
}

-- `HTTPS_PROVIDER_KEYS` is one key; its text stands for this number.
abbrev pub https_direct : Ident
https_direct = 0

-- `IngressAdmissionDenied`
pub data AdmissionDenied : Type 0 where
  identity_unresolved integration_mismatch integration_inactive account_inactive : AdmissionDenied
  device_inactive component_required component_invalid entitlement_denied : AdmissionDenied

-- `IngressDenial`
pub record Denial : Type 0 where
  pub reason : AdmissionDenied
  pub observation_index : Option ℕ

-- `IngressFenceReason`
pub data FenceReason : Type 0 where
  identity_unresolved integration_mismatch integration_decommissioned : FenceReason
  account_revoked device_decommissioned : FenceReason

-- `IngressDeferReason`
pub data DeferReason : Type 0 where
  integration_not_active account_not_active device_not_active : DeferReason

-- `IngressFence | IngressDefer`; a fence carries its reason and `account_verified`.
pub data Blocked : Type 0 where
  fence : FenceReason → Bool → Blocked
  defer : DeferReason → Blocked

abbrev pub is_active_account : AccountStatus → Bool
is_active_account s = elim s [ AccountStatus.active ↦ true | _ ↦ false ]

abbrev pub is_revoked_account : AccountStatus → Bool
is_revoked_account s = elim s [ AccountStatus.revoked ↦ true | _ ↦ false ]

abbrev pub is_active_integration : IntegrationStatus → Bool
is_active_integration s = elim s [ IntegrationStatus.active ↦ true | _ ↦ false ]

abbrev pub is_decommissioned_integration : IntegrationStatus → Bool
is_decommissioned_integration s = elim s [ IntegrationStatus.decommissioned ↦ true | _ ↦ false ]

abbrev pub is_active_device : DeviceStatus → Bool
is_active_device s = elim s [ DeviceStatus.active ↦ true | _ ↦ false ]

abbrev pub is_decommissioned_device : DeviceStatus → Bool
is_decommissioned_device s = elim s [ DeviceStatus.decommissioned ↦ true | _ ↦ false ]

unfoldable pub account_is_https_active : Account → Bool
account_is_https_active account =
    is_active_account account.status && account.provider_key == https_direct

unfoldable pub device_matches : Option Device → Integration → Bool
device_matches none integration = false
device_matches (some device) integration =
    device.tenant_id == integration.tenant_id && device.device_id == integration.device_id

-- `device.status`, of a device that is there
abbrev pub status_is : (DeviceStatus → Bool) → Option Device → Bool
status_is test none = false
status_is test (some device) = test device.status

-- `_owned_by` of services/trusted_mapping.py: the comparison that `classify_admission` makes too.
unfoldable pub owned_by : Integration → Source → Bool
owned_by integration source =
    integration.tenant_id == source.tenant_id
    && integration.integration_account_id == source.integration_account_id
    && integration.provider_key == source.provider_key

-- the account test of `classify_admission`
unfoldable pub account_admits : Source → Option Account → Bool
unfolding account_is_https_active
account_admits source none = false
account_admits source (some account) =
    account.tenant_id == source.tenant_id
    && account.integration_account_id == source.integration_account_id
    && account_is_https_active account

unfoldable pub classify_admission :
    Source → Option Integration → Option Account → Option Device → Option AdmissionDenied
unfolding owned_by account_admits device_matches
classify_admission source none account device = some AdmissionDenied.identity_unresolved
classify_admission source (some integration) account device =
    if not (owned_by integration source)
    then some AdmissionDenied.integration_mismatch
    else if not (is_active_integration integration.status)
    then some AdmissionDenied.integration_inactive
    else if not (account_admits source account)
    then some AdmissionDenied.account_inactive
    else if not (device_matches device integration) || not (status_is is_active_device device)
    then some AdmissionDenied.device_inactive
    else none

-- `verified`: an account row exists for the envelope's tenant and account.
unfoldable pub account_verified : Envelope → Option Account → Bool
account_verified envelope none = false
account_verified envelope (some account) =
    account.tenant_id == envelope.tenant_id
    && account.integration_account_id == envelope.integration_account_id

-- `_matches_envelope` of services/trusted_mapping.py: the comparison of `classify_fence`.
unfoldable pub matches_envelope : Integration → Envelope → Bool
matches_envelope integration envelope =
    integration.tenant_id == envelope.tenant_id
    && integration.integration_account_id == envelope.integration_account_id
    && integration.provider_key == envelope.provider_key
    && integration.device_integration_id == envelope.device_integration_id
    && integration.device_id == envelope.device_id

-- the tests of `classify_fence` on a verified account and its device
unfoldable pub fence_device : Integration → Option Device → Option Blocked
unfolding device_matches
fence_device integration device =
    if not (device_matches device integration) || status_is is_decommissioned_device device
    then some (fence FenceReason.device_decommissioned true)
    else if not (status_is is_active_device device)
    then some (defer DeferReason.device_not_active)
    else none

unfoldable pub fence_account : Integration → Option Account → Option Device → Option Blocked
unfolding fence_device
fence_account integration none device = some (fence FenceReason.identity_unresolved false)
fence_account integration (some account) device =
    if is_revoked_account account.status || not (account.provider_key == https_direct)
    then some (fence FenceReason.account_revoked true)
    else if not (is_active_account account.status)
    then some (defer DeferReason.account_not_active)
    else fence_device integration device

unfoldable pub classify_fence :
    Envelope → Option Integration → Option Account → Option Device → Option Blocked
unfolding account_verified matches_envelope fence_account
classify_fence envelope none account device =
    some (fence FenceReason.identity_unresolved (account_verified envelope account))
classify_fence envelope (some integration) account device =
    let verified = account_verified envelope account in
    if not (integration.external_identity_hash == envelope.external_identity_hash)
    then some (fence FenceReason.identity_unresolved verified)
    else if not (matches_envelope integration envelope)
    then some (fence FenceReason.integration_mismatch verified)
    else if is_decommissioned_integration integration.status
    then some (fence FenceReason.integration_decommissioned verified)
    else if not (is_active_integration integration.status)
    then some (defer DeferReason.integration_not_active)
    else if not verified
    then some (fence FenceReason.identity_unresolved false)
    else fence_account integration account device

-- `tuple[str, ...] | IngressDenial`
pub data Selection : Type 0 where
  resolved : List Ident → Selection
  denied : Denial → Selection

abbrev pub prepend : Ident → Selection → Selection
prepend component (resolved components) = resolved (component ∷ components)
prepend component (denied d) = denied d

-- the body of the loop, with the enumeration index
unfoldable pub resolve_from : ℕ → Ident → List Ident → List IngestObservation → Selection
resolve_from index default active [] = resolved []
resolve_from index default active (o ∷ os) =
    let rest = resolve_from (index + 1) default active os in
    elim o.component_id [
      | none ↦
          if not (contains default active)
          then denied (record {
            reason = AdmissionDenied.component_required;
            observation_index = some index;
          })
          else prepend default rest
      | some component ↦
          if not (contains component active)
          then denied (record {
            reason = AdmissionDenied.component_invalid;
            observation_index = some index;
          })
          else prepend component rest
    ]

unfoldable pub resolve_component_selectors : List IngestObservation → Ident → List Ident → Selection
unfolding resolve_from
resolve_component_selectors observations default active = resolve_from 0 default active observations

-- `TrustedSourceContext`
pub record TrustedContext : Type 0 where
  pub tenant_id : Ident
  pub device_id : Ident
  pub integration_id : Ident
  pub integration_type : Ident
  pub source_type : SourceType
  pub connector_version : Option Ident
  pub received_at : Instant
  pub replay : Bool
  pub mapping_versions : Versions

unfoldable pub build_trusted_context : Envelope → Integration → TrustedContext
build_trusted_context envelope integration = record {
  tenant_id = integration.tenant_id;
  device_id = integration.device_id;
  integration_id = integration.device_integration_id;
  integration_type = integration.provider_key;
  source_type = envelope.source_type;
  connector_version = envelope.connector_version;
  received_at = envelope.received_at;
  replay = envelope.replay;
  mapping_versions = envelope.mapping_versions;
}
