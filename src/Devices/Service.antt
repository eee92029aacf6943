-- ===== src/Devices/Service.antt =====
-- services/devices_v2.py: `create_idempotently`, and `DeviceV2Service`; with the creates of
-- services/components.py and services/capabilities.py. What is read before a transaction comes from a
-- store of its own; a request and its key are known by their hashes.
pub mod Once
use limnopulse.Prelude.{
  ℕ, ◌+◌, Bool, true, false, not, ◌&&◌, Option, none, some, if◌then◌else◌, ◌==◌,
}
use limnopulse.Ingest.{Ident, Instant}
use limnopulse.Status.{DeviceStatus, ComponentStatus}
use limnopulse.Idempotency.{IdempotencyReceipt, Replay, get_idempotency_replay}
use limnopulse.Devices.{
  DeviceV2, ComponentKind, DeviceComponent, Capability, Snapshot, Store, Reply, ok, conflict,
  not_found, invalid, Changes, device_scope, component_scope, capability_scope, get_device,
  create_device, update_device, transition_refused,
}
use limnopulse.Devices.Components.{
  get_component, create_component, create_capability, update_component,
  component_transition_refused, is_decommissioned, is_terminal, validate_kind_profiles,
}

-- What a create ends with: the new entity, the response of an earlier request, or an error.
pub data CreateOutcome (A : Type 0) : Type 0 where
  created : A → CreateOutcome A
  replayed : Snapshot → CreateOutcome A
  failed : Reply (Unit {0}) → CreateOutcome A

-- The request, and the readings of the clock: at the first lookup, for the entity, for the receipt, at
-- the transaction and at the second lookup.
pub record Request : Type 0 where
  pub tenant_id : Ident
  pub key_hash : Ident
  pub request_hash : Ident
  pub looked_up : Instant
  pub built : Instant
  pub stamped : Instant
  pub committed : Instant
  pub looked_up_again : Instant

unfoldable pub replay_of : ℕ → Request → Instant → Store → Replay Snapshot
unfolding get_idempotency_replay
replay_of scope request now s =
    get_idempotency_replay (s.receipts scope request.tenant_id request.key_hash)
      request.request_hash now

-- `new_idempotency_receipt`
unfoldable pub new_idempotency_receipt : Request → Snapshot → IdempotencyReceipt Snapshot
new_idempotency_receipt request snapshot = record {
  tenant_id = request.tenant_id;
  key_hash = request.key_hash;
  request_hash = request.request_hash;
  response = snapshot;
  created_at = request.stamped;
}

module _ {A : Type 0} where
  -- after a conflict: a concurrent request with the same key may have won
  abbrev pub after_conflict : Replay Snapshot → CreateOutcome A
  after_conflict (Replay.response r) = replayed r
  after_conflict Replay.mismatch = failed conflict
  after_conflict Replay.absent = failed conflict

  unfoldable pub finish : Replay Snapshot → Reply A → CreateOutcome A
  finish again (ok a) = created a
  finish again conflict = after_conflict again
  finish again not_found = failed not_found
  finish again invalid = failed invalid

  -- the entity, its receipt, and the transaction
  unfoldable pub persist_built :
      (A → Snapshot)
      → (A → IdempotencyReceipt Snapshot → Store → Reply A × Store)
      → ℕ
      → Request
      → (Store → Store)
      → Reply A
      → Store
      → CreateOutcome A × Store
  unfolding finish replay_of new_idempotency_receipt
  persist_built snapshot persist scope request others (ok a) s =
      let (r, s') = persist a (new_idempotency_receipt request (snapshot a)) s in
      (finish (replay_of scope request request.looked_up_again (others s')) r, s')
  persist_built snapshot persist scope request others conflict s = (failed conflict, s)
  persist_built snapshot persist scope request others not_found s = (failed not_found, s)
  persist_built snapshot persist scope request others invalid s = (failed invalid, s)

  -- `create_idempotently`, on what the first lookup said
  unfoldable pub create_after :
      (A → Snapshot)
      → (A → IdempotencyReceipt Snapshot → Store → Reply A × Store)
      → ℕ
      → Request
      → (Store → Store)
      → Reply A
      → Replay Snapshot
      → Store
      → CreateOutcome A × Store
  unfolding persist_built
  create_after snapshot persist scope request others build (Replay.response r) s = (replayed r, s)
  create_after snapshot persist scope request others build Replay.mismatch s = (failed conflict, s)
  create_after snapshot persist scope request others build Replay.absent s =
      persist_built snapshot persist scope request others build s

  -- `create_idempotently`: the first lookup on `seen`, the transaction on `s`, and the second lookup
  -- after what others wrote since
  unfoldable pub create_idempotently :
      (A → Snapshot)
      → (A → IdempotencyReceipt Snapshot → Store → Reply A × Store)
      → ℕ
      → Request
      → (others : Store → Store) → (build : Reply A) → (seen s : Store) → CreateOutcome A × Store
  unfolding create_after replay_of
  create_idempotently snapshot persist scope request others build seen s =
      create_after snapshot persist scope request others build
        (replay_of scope request request.looked_up seen) s

-- `DeviceV2CreateCommand`, with the new id
pub record DeviceCommand : Type 0 where
  pub device_id : Ident
  pub name : Ident
  pub model_profile_key : Option Ident
  pub firmware_version : Option Ident
  pub compatibility_level : Ident

-- the `build` of `DeviceV2Service.create`
unfoldable pub build_device : Request → DeviceCommand → DeviceV2
build_device request command = record {
  tenant_id = request.tenant_id;
  device_id = command.device_id;
  name = command.name;
  model_profile_key = command.model_profile_key;
  firmware_version = command.firmware_version;
  compatibility_level = command.compatibility_level;
  status = DeviceStatus.active;
  created_at = request.built;
  updated_at = request.built;
  version = 1;
  legacy = false;
}

-- `DeviceV2Service.create`
unfoldable pub create_v2_device :
    Request
    → DeviceCommand
    → (others : Store → Store) → (seen s : Store) → CreateOutcome DeviceV2 × Store
unfolding create_idempotently build_device
create_v2_device request command others seen s =
    create_idempotently Snapshot.device (create_device request.committed) device_scope request
      others (ok (build_device request command)) seen s

abbrev pub update_if_found :
    Instant
    → Ident
    → Ident
    → ℕ
    → Changes
    → (seen s : Store) → Option DeviceV2
    → Reply DeviceV2 × Store
update_if_found now tenant id version changes seen s none = (not_found, s)
update_if_found now tenant id version changes seen s (some current) =
    if transition_refused current.status changes.status
    then (conflict, s)
    else update_device now tenant id version changes seen s

-- `DeviceV2Service.update`, whose own read is from `seen_first`
unfoldable pub update_v2_device :
    Instant → Ident → Ident → ℕ → Changes → (seen_first seen s : Store) → Reply DeviceV2 × Store
unfolding get_device update_device
update_v2_device now tenant id version changes seen_first seen s =
    update_if_found now tenant id version changes seen s (get_device seen_first tenant id)

-- `ComponentCreateCommand`, with the new ids
pub record ComponentCommand : Type 0 where
  pub component_id : Ident
  pub device_id : Ident
  pub kind : ComponentKind
  pub name : Ident
  pub model_profile_key : Option Ident
  pub probe_profile : Option Ident
  pub actuator_profile : Option Ident

unfoldable pub new_component : Request → ComponentCommand → DeviceComponent
new_component request command = record {
  tenant_id = request.tenant_id;
  component_id = command.component_id;
  device_id = command.device_id;
  kind = command.kind;
  name = command.name;
  model_profile_key = command.model_profile_key;
  probe_profile = command.probe_profile;
  actuator_profile = command.actuator_profile;
  status = ComponentStatus.active;
  created_at = request.built;
  updated_at = request.built;
  version = 1;
}

-- the `build` of `ComponentService.create`, on the device row that it read
unfoldable pub build_component :
    Request → ComponentCommand → Option DeviceV2 → Reply DeviceComponent
unfolding new_component validate_kind_profiles
build_component request command none = not_found
build_component request command (some device) =
    if is_decommissioned device.status
    then conflict
    else if validate_kind_profiles (new_component request command)
    then ok (new_component request command)
    else invalid

-- `ComponentService.create`
unfoldable pub create_v2_component :
    Request
    → ComponentCommand
    → (others : Store → Store) → (seen seen_device seen_parent s : Store)
    → CreateOutcome DeviceComponent × Store
unfolding create_idempotently build_component get_device create_component
create_v2_component request command others seen seen_device seen_parent s =
    create_idempotently Snapshot.component
      (λ c receipt. create_component request.committed c receipt seen_parent) component_scope
      request others
      (build_component request command (get_device seen_device request.tenant_id command.device_id))
      seen s

-- the `build` of `CapabilityService.create`, on the component row that it read
unfoldable pub build_capability :
    Request → Ident → Ident → Ident → Option DeviceComponent → Reply Capability
build_capability request component id content none = not_found
build_capability request component id content (some c) =
    if is_terminal c.status
    then conflict
    else ok (record {
      tenant_id = request.tenant_id;
      component_id = component;
      capability_id = id;
      content = content;
    })

-- `CapabilityService.create`
unfoldable pub create_v2_capability :
    Request
    → Ident
    → Ident
    → Ident
    → (others : Store → Store) → (seen seen_component seen_parent s : Store)
    → CreateOutcome Capability × Store
unfolding create_idempotently build_capability get_component create_capability
create_v2_capability request component id content others seen seen_component seen_parent s =
    create_idempotently Snapshot.capability
      (λ k receipt. create_capability request.committed k receipt seen_parent) capability_scope
      request others
      (build_capability request component id content
        (get_component seen_component request.tenant_id component))
      seen s
