-- ===== src/Status/Reach.antt =====
-- Histories of a status: the chains of transitions that the checks accept, and what they join.
use limnopulse.Prelude.{◌≡◌, ◌≢◌, refl, ◌↔◌, ◌⊎◌, inl, arith}
use limnopulse.Status.{
  Check, ok, DeviceStatus, ComponentStatus, AccountStatus, IntegrationStatus, DeploymentStatus,
  ensure_device_transition, ensure_component_transition, ensure_account_transition,
  ensure_integration_transition, ensure_deployment_transition,
}

-- A history from one status to another, every move accepted by `ensure`.
pub data Reach {Status : Type 0} (ensure : Status → Status → Check) (s : Status)
    : Status → Type 0 where
  here : Reach ensure s s
  next : {t u : Status} → Reach ensure s t → ensure t u ≡ ok → Reach ensure s u

module _ {Status : Type 0} (ensure : Status → Status → Check) (P : Status → Status → Type 0) where
  -- A reflexive relation that every accepted move extends, and that the check accepts, is the
  -- relation of the histories.
  Reach-iff :
      ((s : Status) → P s s)
      → ((s t u : Status) → P s t → ensure t u ≡ ok → P s u)
      → ((s t : Status) → P s t → ensure s t ≡ ok)
      → (s t : Status) → Reach ensure s t ↔ P s t
  Reach-iff start keep single s t = (go, λ h. next here (single s t h))
    where
      go : {u : Status} → Reach ensure s u → P s u
      go here = start s
      go (next {t = v} {u = u} r e) = keep s v u (go r) e

-- What the histories of a device join.
abbrev pub DeviceHistory : DeviceStatus → DeviceStatus → Type 0
DeviceHistory s t = (s ≡ t) ⊎ ((s ≢ DeviceStatus.decommissioned) × (t ≢ DeviceStatus.provisioning))

device_start : (s : DeviceStatus) → DeviceHistory s s
device_start s = inl refl

device_keep :
    (s t u : DeviceStatus)
    → DeviceHistory s t
    → ensure_device_transition t u ≡ ok
    → DeviceHistory s u
unfolding ensure_device_transition
device_keep s t u h e = ground arith

device_single : (s t : DeviceStatus) → DeviceHistory s t → ensure_device_transition s t ≡ ok
unfolding ensure_device_transition
device_single s t h = ground arith

-- Device histories: any two statuses are joined by accepted transitions exactly when they are equal, or
-- the first is not decommissioned and the second is not provisioning.
pub DeviceHistory-iff :
    (s t : DeviceStatus) → Reach ensure_device_transition s t ↔ DeviceHistory s t
DeviceHistory-iff =
    Reach-iff ensure_device_transition DeviceHistory device_start device_keep device_single

-- What the histories of an integration account join.
abbrev pub AccountHistory : AccountStatus → AccountStatus → Type 0
AccountHistory s t = (s ≡ t) ⊎ ((s ≢ AccountStatus.revoked) × (t ≢ AccountStatus.pending))

account_start : (s : AccountStatus) → AccountHistory s s
account_start s = inl refl

account_keep :
    (s t u : AccountStatus)
    → AccountHistory s t
    → ensure_account_transition t u ≡ ok
    → AccountHistory s u
unfolding ensure_account_transition
account_keep s t u h e = ground arith

account_single : (s t : AccountStatus) → AccountHistory s t → ensure_account_transition s t ≡ ok
unfolding ensure_account_transition
account_single s t h = ground arith

-- Integration account histories: two statuses are joined by accepted transitions exactly when they
-- are equal, or the first is not revoked and the second is not pending.
pub AccountHistory-iff :
    (s t : AccountStatus) → Reach ensure_account_transition s t ↔ AccountHistory s t
AccountHistory-iff =
    Reach-iff ensure_account_transition AccountHistory account_start account_keep account_single

-- What the histories of a device integration join.
abbrev pub IntegrationHistory : IntegrationStatus → IntegrationStatus → Type 0
IntegrationHistory s t =
    (s ≡ t) ⊎ ((s ≢ IntegrationStatus.decommissioned) × (t ≢ IntegrationStatus.provisioning))

integration_start : (s : IntegrationStatus) → IntegrationHistory s s
integration_start s = inl refl

integration_keep :
    (s t u : IntegrationStatus)
    → IntegrationHistory s t
    → ensure_integration_transition t u ≡ ok
    → IntegrationHistory s u
unfolding ensure_integration_transition
integration_keep s t u h e = ground arith

integration_single :
    (s t : IntegrationStatus) → IntegrationHistory s t → ensure_integration_transition s t ≡ ok
unfolding ensure_integration_transition
integration_single s t h = ground arith

-- Device integration histories: two statuses are joined by accepted transitions exactly when they are
-- equal, or the first is not decommissioned and the second is not provisioning.
pub IntegrationHistory-iff :
    (s t : IntegrationStatus) → Reach ensure_integration_transition s t ↔ IntegrationHistory s t
IntegrationHistory-iff =
    Reach-iff ensure_integration_transition IntegrationHistory integration_start integration_keep
      integration_single

-- What the histories of a component join.
abbrev pub ComponentHistory : ComponentStatus → ComponentStatus → Type 0
ComponentHistory s t = (s ≡ t) ⊎ ((s ≡ ComponentStatus.active))

component_start : (s : ComponentStatus) → ComponentHistory s s
component_start s = inl refl

component_keep :
    (s t u : ComponentStatus)
    → ComponentHistory s t
    → ensure_component_transition t u ≡ ok
    → ComponentHistory s u
unfolding ensure_component_transition
component_keep s t u h e = ground arith

component_single :
    (s t : ComponentStatus) → ComponentHistory s t → ensure_component_transition s t ≡ ok
unfolding ensure_component_transition
component_single s t h = ground arith

-- Component histories: two statuses are joined by accepted transitions exactly when they are equal or
-- the first is active.
pub ComponentHistory-iff :
    (s t : ComponentStatus) → Reach ensure_component_transition s t ↔ ComponentHistory s t
ComponentHistory-iff =
    Reach-iff ensure_component_transition ComponentHistory component_start component_keep
      component_single

-- What the histories of a deployment join.
abbrev pub DeploymentHistory : DeploymentStatus → DeploymentStatus → Type 0
DeploymentHistory s t = (s ≡ t) ⊎ ((s ≡ DeploymentStatus.active))

deployment_start : (s : DeploymentStatus) → DeploymentHistory s s
deployment_start s = inl refl

deployment_keep :
    (s t u : DeploymentStatus)
    → DeploymentHistory s t
    → ensure_deployment_transition t u ≡ ok
    → DeploymentHistory s u
unfolding ensure_deployment_transition
deployment_keep s t u h e = ground arith

deployment_single :
    (s t : DeploymentStatus) → DeploymentHistory s t → ensure_deployment_transition s t ≡ ok
unfolding ensure_deployment_transition
deployment_single s t h = ground arith

-- Deployment histories: two statuses are joined by accepted transitions exactly when they are equal
-- or the first is active.
pub DeploymentHistory-iff :
    (s t : DeploymentStatus) → Reach ensure_deployment_transition s t ↔ DeploymentHistory s t
DeploymentHistory-iff =
    Reach-iff ensure_deployment_transition DeploymentHistory deployment_start deployment_keep
      deployment_single
