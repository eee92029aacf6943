-- ===== src/Devices/Components.antt =====
-- The components and capabilities of adapters/dynamodb_devices_v2.py.
use limnopulse.Prelude.{
  ℕ, ◌+◌, max, Bool, true, false, not, ◌&&◌, Option, none, some, if◌then◌else◌, ◌==◌, is_some, set,
  set_pair,
}
use limnopulse.Ingest.{Ident, Instant}
use limnopulse.Status.{Check, DeviceStatus, ComponentStatus, ensure_component_transition}
use limnopulse.Idempotency.{IdempotencyReceipt}
use limnopulse.Devices.{
  DeviceV2, ComponentKind, DeviceComponent, Capability, Snapshot, Store, Reply, ok, conflict,
  not_found, component_scope, capability_scope, receipt_allowed, put_receipt, get_device, or_else,
  map_some,
}

abbrev pub needs_probe : ComponentKind → Bool
needs_probe ComponentKind.actuator = false
needs_probe _ = true

abbrev pub needs_actuator : ComponentKind → Bool
needs_actuator ComponentKind.probe = false
needs_actuator _ = true

abbrev pub iff : Bool → Bool → Bool
iff true b = b
iff false b = not b

-- `validate_kind_profiles`
unfoldable pub validate_kind_profiles : DeviceComponent → Bool
validate_kind_profiles c =
    iff (needs_probe c.kind) (is_some c.probe_profile)
    && iff (needs_actuator c.kind) (is_some c.actuator_profile)

abbrev pub own_component : Ident → Option DeviceComponent → Option DeviceComponent
own_component tenant none = none
own_component tenant (some c) = if c.tenant_id == tenant then some c else none

-- `get_component`
unfoldable pub get_component : Store → Ident → Ident → Option DeviceComponent
get_component s tenant id = own_component tenant (s.components id)

abbrev pub is_decommissioned : DeviceStatus → Bool
is_decommissioned DeviceStatus.decommissioned = true
is_decommissioned _ = false

abbrev pub is_terminal : ComponentStatus → Bool
is_terminal ComponentStatus.active = false
is_terminal _ = true

-- `version_check_request`, on a device row and on a component row
abbrev pub device_check : ℕ → Option DeviceV2 → Bool
device_check version none = false
device_check version (some d) = d.version == version

abbrev pub component_check : ℕ → Option DeviceComponent → Bool
component_check version none = false
component_check version (some c) = c.version == version

-- the transaction of `create_component`, on the version of the device that was read
unfoldable pub commit_component :
    Instant
    → DeviceComponent
    → IdempotencyReceipt Snapshot
    → ℕ
    → Store
    → Reply DeviceComponent × Store
unfolding receipt_allowed
commit_component now c receipt version s =
    if not (is_some (s.mirrors c.tenant_id c.component_id))
      && not (is_some (s.components c.component_id))
      && device_check version (s.devices c.tenant_id c.device_id)
      && receipt_allowed now component_scope receipt s
    then (
      ok c,
      record s {
        mirrors = set_pair c.tenant_id c.component_id (some c) s.mirrors;
        components = set c.component_id (some c) s.components;
        receipts = put_receipt component_scope receipt s.receipts;
      },
    )
    else (conflict, s)

-- `create_component`, on the device row that was read
unfoldable pub create_under :
    Instant
    → DeviceComponent
    → IdempotencyReceipt Snapshot
    → Option DeviceV2
    → Store
    → Reply DeviceComponent × Store
unfolding commit_component
create_under now c receipt none s = (not_found, s)
create_under now c receipt (some device) s =
    if is_decommissioned device.status
    then (conflict, s)
    else commit_component now c receipt device.version s

-- `create_component`, where the device row is read from `seen`
unfoldable pub create_component :
    Instant
    → DeviceComponent
    → IdempotencyReceipt Snapshot
    → (seen s : Store) → Reply DeviceComponent × Store
unfolding create_under get_device
create_component now c receipt seen s =
    create_under now c receipt (get_device seen c.tenant_id c.device_id) s

abbrev pub component_transition_refused : ComponentStatus → Option ComponentStatus → Bool
component_transition_refused current none = false
component_transition_refused current (some target) =
    elim (ensure_component_transition current target) [ Check.ok ↦ false | Check.conflict ↦ true ]

-- a component row with the changes of an update
unfoldable pub change_component :
    Option Ident → Option ComponentStatus → Instant → ℕ → DeviceComponent → DeviceComponent
change_component name status updated_at version c = record c {
  name = or_else name c.name;
  status = or_else status c.status;
  updated_at = updated_at;
  version = version;
}

-- the condition of `_fenced_set_request`
abbrev pub component_fence : Ident → ℕ → Option DeviceComponent → Bool
component_fence tenant version none = false
component_fence tenant version (some c) = c.version == version && c.tenant_id == tenant

-- the transaction of `update_component`, on the row that was read
unfoldable pub commit_change :
    Ident
    → Ident
    → ℕ
    → (DeviceComponent → DeviceComponent)
    → DeviceComponent
    → Store
    → Reply DeviceComponent × Store
commit_change tenant id version change current s =
    if component_fence tenant version (s.mirrors tenant id)
      && component_fence tenant version (s.components id)
    then (
      ok (change current),
      record s {
        mirrors = set_pair tenant id (map_some change (s.mirrors tenant id)) s.mirrors;
        components = set id (map_some change (s.components id)) s.components;
      },
    )
    else (conflict, s)

-- `update_component`, on the row that was read
unfoldable pub update_component_row :
    Instant
    → Ident
    → Ident
    → ℕ
    → Option Ident
    → Option ComponentStatus
    → Option DeviceComponent
    → Store
    → Reply DeviceComponent × Store
unfolding commit_change change_component
update_component_row now tenant id version name status none s = (not_found, s)
update_component_row now tenant id version name status (some current) s =
    if not (current.version == version)
    then (conflict, s)
    else if component_transition_refused current.status status
    then (conflict, s)
    else commit_change tenant id version
        (change_component name status (max now current.updated_at) (version + 1)) current s

-- `update_component`, where the row is read from `seen`
unfoldable pub update_component :
    Instant
    → Ident
    → Ident
    → ℕ
    → Option Ident
    → Option ComponentStatus
    → (seen s : Store) → Reply DeviceComponent × Store
unfolding update_component_row get_component
update_component now tenant id version name status seen s =
    update_component_row now tenant id version name status (get_component seen tenant id) s

-- the transaction of `create_capability`, on the version of the component that was read
unfoldable pub commit_capability :
    Instant → Capability → IdempotencyReceipt Snapshot → ℕ → Store → Reply Capability × Store
unfolding receipt_allowed
commit_capability now k receipt version s =
    if component_check version (s.components k.component_id)
      && not (is_some (s.capabilities k.component_id k.capability_id))
      && receipt_allowed now capability_scope receipt s
    then (
      ok k,
      record s {
        capabilities = set_pair k.component_id k.capability_id (some k) s.capabilities;
        receipts = put_receipt capability_scope receipt s.receipts;
      },
    )
    else (conflict, s)

unfoldable pub declare_on :
    Instant
    → Capability
    → IdempotencyReceipt Snapshot
    → Option DeviceComponent
    → Store
    → Reply Capability × Store
unfolding commit_capability
declare_on now k receipt none s = (not_found, s)
declare_on now k receipt (some component) s =
    if is_terminal component.status
    then (conflict, s)
    else commit_capability now k receipt component.version s

-- `create_capability`, where the component row is read from `seen`
unfoldable pub create_capability :
    Instant → Capability → IdempotencyReceipt Snapshot → (seen s : Store) → Reply Capability × Store
unfolding declare_on get_component
create_capability now k receipt seen s =
    declare_on now k receipt (get_component seen k.tenant_id k.component_id) s
