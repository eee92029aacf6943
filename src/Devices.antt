-- ===== src/Devices.antt =====
-- Devices, components and capabilities of the v2 API: the entities of domain/devices_v2.py, and the
-- rows, reads and transactions of adapters/dynamodb_devices_v2.py. What an operation read before its
-- transaction comes from a store of its own: the present one may have changed in between. A status text
-- of a legacy row is carried as the status that `device_status_from_legacy` reads of it.
pub mod Components
pub mod Mirrors
pub mod Later
pub mod Keeps
pub mod Traces
pub mod Fences
pub mod Service
use limnopulse.Prelude.{
  ℕ, ◌+◌, ◌*◌, ◌/◌, max, Bool, true, false, not, ◌&&◌, ◌||◌, Option, none, some, if◌then◌else◌, leb,
  ◌==◌, is_some, set, set_pair,
}
use limnopulse.Ingest.{Ident, Instant}
use limnopulse.Status.{Check, DeviceStatus, ComponentStatus, ensure_device_transition}
use limnopulse.Idempotency.{IdempotencyReceipt, receipt_put_allowed}

-- `DeviceV2`, with whether its row is one of the legacy API: whether it has a `pond_id`
pub record DeviceV2 : Type 0 where
  pub tenant_id : Ident
  pub device_id : Ident
  pub name : Ident
  pub model_profile_key : Option Ident
  pub firmware_version : Option Ident
  pub compatibility_level : Ident
  pub status : DeviceStatus
  pub created_at : Instant
  pub updated_at : Instant
  pub version : ℕ
  pub legacy : Bool

-- The global lookup row; the last three attributes are those of the full copy of a legacy row.
pub record DeviceLookup : Type 0 where
  pub tenant_id : Ident
  pub status : DeviceStatus
  pub version : ℕ
  pub name : Option Ident
  pub firmware_version : Option Ident
  pub updated_at : Option Instant

pub data ComponentKind : Type 0 where
  probe actuator hybrid : ComponentKind

-- `DeviceComponent`
pub record DeviceComponent : Type 0 where
  pub tenant_id : Ident
  pub component_id : Ident
  pub device_id : Ident
  pub kind : ComponentKind
  pub name : Ident
  pub model_profile_key : Option Ident
  pub probe_profile : Option Ident
  pub actuator_profile : Option Ident
  pub status : ComponentStatus
  pub created_at : Instant
  pub updated_at : Instant
  pub version : ℕ

-- `CapabilityDeclaration`, as far as the repository reads it
pub record Capability : Type 0 where
  pub tenant_id : Ident
  pub component_id : Ident
  pub capability_id : Ident
  pub content : Ident

-- what a create answers with
pub data Snapshot : Type 0 where
  device : DeviceV2 → Snapshot
  component : DeviceComponent → Snapshot
  capability : Capability → Snapshot

-- Receipts stand under a tenant, a scope and a key; a scope is its position in this list.
abbrev pub device_scope : ℕ
device_scope = 0

abbrev pub component_scope : ℕ
component_scope = 1

abbrev pub capability_scope : ℕ
capability_scope = 2

abbrev pub Receipts : Type 0
Receipts = ℕ → Ident → Ident → Option (IdempotencyReceipt Snapshot)

pub record Store : Type 0 where
  pub devices : Ident → Ident → Option DeviceV2
  pub lookups : Ident → Option DeviceLookup
  pub components : Ident → Option DeviceComponent
  pub mirrors : Ident → Ident → Option DeviceComponent
  pub capabilities : Ident → Ident → Option Capability
  pub receipts : Receipts

-- What an operation ends with: a value, `ConflictError`, `NotFoundError` or `ValueError`.
pub data Reply {ℓ} (A : Type ℓ) : Type ℓ where
  ok : A → Reply A
  conflict : Reply A
  not_found : Reply A
  invalid : Reply A

-- `receipt_put_request`, in a scope
unfoldable pub receipt_allowed : Instant → ℕ → IdempotencyReceipt Snapshot → Store → Bool
unfolding receipt_put_allowed
receipt_allowed now scope receipt s =
    receipt_put_allowed now (s.receipts scope receipt.tenant_id receipt.key_hash)

abbrev pub put_receipt : ℕ → IdempotencyReceipt Snapshot → Receipts → Receipts
put_receipt scope receipt receipts =
    set scope (set_pair receipt.tenant_id receipt.key_hash (some receipt) (receipts scope)) receipts

-- `device_lookup_to_item`
unfoldable pub device_lookup_to_item : DeviceV2 → DeviceLookup
device_lookup_to_item d = record {
  tenant_id = d.tenant_id;
  status = d.status;
  version = d.version;
  name = none;
  firmware_version = none;
  updated_at = none;
}

-- the row of a device of the tenant
abbrev pub own_device : Ident → Option DeviceV2 → Option DeviceV2
own_device tenant none = none
own_device tenant (some d) = if d.tenant_id == tenant then some d else none

-- `get_device`
unfoldable pub get_device : Store → Ident → Ident → Option DeviceV2
get_device s tenant id = own_device tenant (s.devices tenant id)

-- `device_v2_to_item`: a row of the v2 API has no `pond_id`
unfoldable pub device_v2_to_item : DeviceV2 → DeviceV2
device_v2_to_item d = record d { legacy = false }

-- `create_device`: one transaction
unfoldable pub create_device :
    Instant → DeviceV2 → IdempotencyReceipt Snapshot → Store → Reply DeviceV2 × Store
unfolding receipt_allowed device_lookup_to_item device_v2_to_item
create_device now d receipt s =
    if not (is_some (s.devices d.tenant_id d.device_id))
      && not (is_some (s.lookups d.device_id))
      && receipt_allowed now device_scope receipt s
    then (
      ok d,
      record s {
        devices = set_pair d.tenant_id d.device_id (some (device_v2_to_item d)) s.devices;
        lookups = set d.device_id (some (device_lookup_to_item d)) s.lookups;
        receipts = put_receipt device_scope receipt s.receipts;
      },
    )
    else (conflict, s)

-- The arguments of an update: an absent one leaves the field as it is.
pub record Changes : Type 0 where
  pub name : Option Ident
  pub firmware_version : Option Ident
  pub status : Option DeviceStatus

abbrev pub or_else {ℓ} : {A : Type ℓ} → Option A → A → A
or_else none old = old
or_else (some new) old = new

abbrev pub or_keep {ℓ} : {A : Type ℓ} → Option A → Option A → Option A
or_keep none old = old
or_keep (some new) old = some new

-- a device row with the changes of an update
unfoldable pub change_device : Changes → Instant → ℕ → DeviceV2 → DeviceV2
change_device changes updated_at version d = record d {
  name = or_else changes.name d.name;
  firmware_version = or_keep changes.firmware_version d.firmware_version;
  status = or_else changes.status d.status;
  updated_at = updated_at;
  version = version;
}

-- its lookup row: a legacy one gets all of the changes
unfoldable pub change_lookup : Bool → Changes → Instant → ℕ → DeviceLookup → DeviceLookup
change_lookup legacy changes updated_at version l = record l {
  status = or_else changes.status l.status;
  version = version;
  name = if legacy then or_keep changes.name l.name else l.name;
  firmware_version =
      if legacy then or_keep changes.firmware_version l.firmware_version else l.firmware_version;
  updated_at = if legacy then some updated_at else l.updated_at;
}

-- `updated_at`: never back, and in whole seconds for a legacy row
unfoldable pub update_time : Instant → DeviceV2 → Instant
update_time now d = let t = max now d.updated_at in if d.legacy then t / 1000000 * 1000000 else t

-- the condition of `_fenced_set_request`
abbrev pub device_fence : Ident → ℕ → Option DeviceV2 → Bool
device_fence tenant version none = false
device_fence tenant version (some d) = d.version == version && d.tenant_id == tenant

abbrev pub lookup_fence : Ident → ℕ → Option DeviceLookup → Bool
lookup_fence tenant version none = false
lookup_fence tenant version (some l) = l.version == version && l.tenant_id == tenant

abbrev pub map_some {ℓ} : {A : Type ℓ} → (A → A) → Option A → Option A
map_some f none = none
map_some f (some a) = some (f a)

abbrev pub transition_refused : DeviceStatus → Option DeviceStatus → Bool
transition_refused current none = false
transition_refused current (some target) = elim (ensure_device_transition current target) [
  | Check.ok ↦ false
  | Check.conflict ↦ true
]

-- the transaction of `update_device`, on the row that was read
unfoldable pub commit_device :
    Ident → Ident → ℕ → Changes → Instant → DeviceV2 → Store → Reply DeviceV2 × Store
unfolding change_device change_lookup
commit_device tenant id version changes updated_at current s =
    if device_fence tenant version (s.devices tenant id)
      && lookup_fence tenant version (s.lookups id)
    then (
      ok (change_device changes updated_at (version + 1) current),
      record s {
        devices =
            set_pair tenant id
              (map_some (change_device changes updated_at (version + 1)) (s.devices tenant id))
              s.devices;
        lookups =
            set id
              (map_some (change_lookup current.legacy changes updated_at (version + 1))
                (s.lookups id))
              s.lookups;
      },
    )
    else (conflict, s)

-- `update_device`, on the row that was read
unfoldable pub update_current :
    Instant → Ident → Ident → ℕ → Changes → Option DeviceV2 → Store → Reply DeviceV2 × Store
unfolding commit_device update_time
update_current now tenant id version changes none s = (not_found, s)
update_current now tenant id version changes (some current) s =
    if not (current.version == version)
    then (conflict, s)
    else if transition_refused current.status changes.status
    then (conflict, s)
    else if not (leb current.created_at (update_time now current))
    then (invalid, s)
    else commit_device tenant id version changes (update_time now current) current s

-- `update_device`, where the row is read from `seen`
unfoldable pub update_device :
    Instant → Ident → Ident → ℕ → Changes → (seen s : Store) → Reply DeviceV2 × Store
unfolding update_current get_device
update_device now tenant id version changes seen s =
    update_current now tenant id version changes (get_device seen tenant id) s
