-- ===== src/Status.antt =====
-- Status machines: `ensure_status_transition` of domain/v2_common.py and the transition tables of
-- domain/devices_v2.py, domain/integrations.py and domain/deployments.py.
pub mod Reach
use limnopulse.Prelude.{Bool, true, false, ◌||◌, if◌then◌else◌, ℕ, ◌==◌}

-- `ConflictError`, or no exception.
pub data Check : Type 0 where
  ok : Check
  conflict : Check

-- The table is `allowed.get(current, frozenset())` as a membership test; equality of two members
-- of one enumeration is equality of their positions.
unfoldable pub ensure_status_transition :
    {Status : Type 0} → (Status → ℕ) → (Status → Status → Bool) → Status → Status → Check
ensure_status_transition index allowed current target =
    if (index current == index target) || allowed current target then ok else conflict

pub data DeviceStatus : Type 0 where
  provisioning active suspended decommissioned : DeviceStatus

pub data ComponentStatus : Type 0 where
  active replaced decommissioned : ComponentStatus

pub data AccountStatus : Type 0 where
  pending active error revoked : AccountStatus

pub data IntegrationStatus : Type 0 where
  provisioning active error decommissioned : IntegrationStatus

pub data DeploymentStatus : Type 0 where
  active ended : DeploymentStatus

abbrev pub device_index : DeviceStatus → ℕ
device_index DeviceStatus.provisioning = 0
device_index DeviceStatus.active = 1
device_index DeviceStatus.suspended = 2
device_index DeviceStatus.decommissioned = 3

abbrev pub component_index : ComponentStatus → ℕ
component_index ComponentStatus.active = 0
component_index ComponentStatus.replaced = 1
component_index ComponentStatus.decommissioned = 2

abbrev pub account_index : AccountStatus → ℕ
account_index AccountStatus.pending = 0
account_index AccountStatus.active = 1
account_index AccountStatus.error = 2
account_index AccountStatus.revoked = 3

abbrev pub integration_index : IntegrationStatus → ℕ
integration_index IntegrationStatus.provisioning = 0
integration_index IntegrationStatus.active = 1
integration_index IntegrationStatus.error = 2
integration_index IntegrationStatus.decommissioned = 3

abbrev pub deployment_index : DeploymentStatus → ℕ
deployment_index DeploymentStatus.active = 0
deployment_index DeploymentStatus.ended = 1

-- `_DEVICE_TRANSITIONS`
unfoldable pub device_transitions : DeviceStatus → DeviceStatus → Bool
device_transitions DeviceStatus.provisioning DeviceStatus.active = true
device_transitions DeviceStatus.provisioning DeviceStatus.suspended = true
device_transitions DeviceStatus.provisioning DeviceStatus.decommissioned = true
device_transitions DeviceStatus.active DeviceStatus.suspended = true
device_transitions DeviceStatus.active DeviceStatus.decommissioned = true
device_transitions DeviceStatus.suspended DeviceStatus.active = true
device_transitions DeviceStatus.suspended DeviceStatus.decommissioned = true
device_transitions _ _ = false

-- `_COMPONENT_TRANSITIONS`
unfoldable pub component_transitions : ComponentStatus → ComponentStatus → Bool
component_transitions ComponentStatus.active ComponentStatus.replaced = true
component_transitions ComponentStatus.active ComponentStatus.decommissioned = true
component_transitions _ _ = false

-- `_ACCOUNT_TRANSITIONS`
unfoldable pub account_transitions : AccountStatus → AccountStatus → Bool
account_transitions AccountStatus.pending AccountStatus.active = true
account_transitions AccountStatus.pending AccountStatus.error = true
account_transitions AccountStatus.pending AccountStatus.revoked = true
account_transitions AccountStatus.active AccountStatus.error = true
account_transitions AccountStatus.active AccountStatus.revoked = true
account_transitions AccountStatus.error AccountStatus.active = true
account_transitions AccountStatus.error AccountStatus.revoked = true
account_transitions _ _ = false

-- `_DEVICE_INTEGRATION_TRANSITIONS`
unfoldable pub integration_transitions : IntegrationStatus → IntegrationStatus → Bool
integration_transitions IntegrationStatus.provisioning IntegrationStatus.active = true
integration_transitions IntegrationStatus.provisioning IntegrationStatus.error = true
integration_transitions IntegrationStatus.provisioning IntegrationStatus.decommissioned = true
integration_transitions IntegrationStatus.active IntegrationStatus.error = true
integration_transitions IntegrationStatus.active IntegrationStatus.decommissioned = true
integration_transitions IntegrationStatus.error IntegrationStatus.active = true
integration_transitions IntegrationStatus.error IntegrationStatus.decommissioned = true
integration_transitions _ _ = false

-- `_DEPLOYMENT_TRANSITIONS`
unfoldable pub deployment_transitions : DeploymentStatus → DeploymentStatus → Bool
deployment_transitions DeploymentStatus.active DeploymentStatus.ended = true
deployment_transitions _ _ = false

unfoldable pub ensure_device_transition : DeviceStatus → DeviceStatus → Check
unfolding ensure_status_transition device_transitions
ensure_device_transition = ensure_status_transition device_index device_transitions

unfoldable pub ensure_component_transition : ComponentStatus → ComponentStatus → Check
unfolding ensure_status_transition component_transitions
ensure_component_transition = ensure_status_transition component_index component_transitions

unfoldable pub ensure_account_transition : AccountStatus → AccountStatus → Check
unfolding ensure_status_transition account_transitions
ensure_account_transition = ensure_status_transition account_index account_transitions

unfoldable pub ensure_integration_transition : IntegrationStatus → IntegrationStatus → Check
unfolding ensure_status_transition integration_transitions
ensure_integration_transition = ensure_status_transition integration_index integration_transitions

unfoldable pub ensure_deployment_transition : DeploymentStatus → DeploymentStatus → Check
unfolding ensure_status_transition deployment_transitions
ensure_deployment_transition = ensure_status_transition deployment_index deployment_transitions
