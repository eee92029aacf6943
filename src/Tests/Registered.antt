-- ===== src/Tests/Registered.antt =====
-- Devices, components and creates, on concrete inputs.
use limnopulse.Prelude.{◌≡◌, refl, false, none, some, [], ◌∷◌, inl, inr, arith, if◌then◌else◌, ◌==◌}
use limnopulse.Status.{DeviceStatus, ComponentStatus, ensure_device_transition}
use limnopulse.Idempotency.{IdempotencyReceipt}
use limnopulse.Devices.{
  DeviceV2, ComponentKind, DeviceComponent, Capability, Snapshot, Store, ok, conflict, Changes,
  create_device, update_device,
}
use limnopulse.Devices.Components.{create_component, create_capability}
use limnopulse.Devices.Mirrors.{Sound}
use limnopulse.Devices.Traces.{
  Trace, begin, next, device_created, device_updated, HasHistory, Trace-HasHistory,
}
use limnopulse.Devices.Fences.{HasDevice, HasComponent, created-HasParent}
use limnopulse.Devices.Service.{created, replayed, failed, Request, DeviceCommand, create_v2_device}
use limnopulse.Devices.Service.Once.{at_once, create_v2_device-once}

abbrev empty : Store
empty = record {
  devices = λ t i. none;
  lookups = λ i. none;
  components = λ i. none;
  mirrors = λ t i. none;
  capabilities = λ c k. none;
  receipts = λ s t k. none;
}

empty-Sound : Sound empty
empty-Sound = record { rows = λ t i. tt; mirrored = λ i t. refl }

abbrev command : DeviceCommand
command = record {
  device_id = 7;
  name = 70;
  model_profile_key = none;
  firmware_version = none;
  compatibility_level = 3;
}

abbrev request : Request
request = record {
  tenant_id = 1;
  key_hash = 20;
  request_hash = 21;
  looked_up = 1000000;
  built = 1000001;
  stamped = 1000002;
  committed = 1000003;
  looked_up_again = 1000004;
}

abbrev quiet : Store → Store
quiet s = s

abbrev pump : DeviceV2
pump = record {
  tenant_id = 1;
  device_id = 7;
  name = 70;
  model_profile_key = none;
  firmware_version = none;
  compatibility_level = 3;
  status = DeviceStatus.active;
  created_at = 1000001;
  updated_at = 1000001;
  version = 1;
  legacy = false;
}

abbrev receipt : IdempotencyReceipt Snapshot
receipt = record {
  tenant_id = 1;
  key_hash = 20;
  request_hash = 21;
  response = Snapshot.device pump;
  created_at = 1000002;
}

abbrev registered : Store
registered = (create_device 1000003 pump receipt empty).1

abbrev suspension : Changes
suspension = record { name = none; firmware_version = none; status = some DeviceStatus.suspended }

abbrev suspended : Store
suspended = (update_device 2000000 1 7 1 suspension registered registered).1

registered_run : Trace (registered ∷ empty ∷ [])
registered_run =
    next empty empty registered (begin empty-Sound) (inl refl)
      (device_created 1000003 pump receipt refl)

suspended_run : Trace (suspended ∷ registered ∷ empty ∷ [])
suspended_run =
    next registered registered suspended registered_run (inl refl)
      (device_updated 2000000 1 7 1 suspension refl)

Trace-HasHistory_example : HasHistory (suspended ∷ registered ∷ empty ∷ [])
Trace-HasHistory_example = Trace-HasHistory suspended_run

created-HasParent_example :
    ((c c' : DeviceComponent)
      → (create_component 2000001 c receipt registered suspended).0 ≡ ok c'
      → HasDevice suspended c)
    × ((k k' : Capability)
        → (create_capability 2000001 k receipt registered suspended).0 ≡ ok k'
        → HasComponent suspended k)
created-HasParent_example =
    created-HasParent suspended_run registered (inr (inl refl)) 2000001 receipt

abbrev probe : DeviceComponent
probe = record {
  tenant_id = 1;
  component_id = 9;
  device_id = 7;
  kind = ComponentKind.actuator;
  name = 90;
  model_profile_key = none;
  probe_profile = none;
  actuator_profile = some 91;
  status = ComponentStatus.active;
  created_at = 2000001;
  updated_at = 2000001;
  version = 1;
}

-- A create that read the device before it was suspended is refused; one that read it since is not.
old_read :
    (create_component 2000001 probe (record receipt { key_hash = 22 }) registered suspended).0
    ≡ conflict
unfolding create_component create_device update_device ensure_device_transition
old_read = refl

new_read :
    (create_component 2000001 probe (record receipt { key_hash = 22 }) suspended suspended).0
    ≡ ok probe
unfolding create_component create_device update_device ensure_device_transition
new_read = refl

device_made : (create_v2_device request command quiet empty empty).0 ≡ created pump
unfolding create_v2_device create_device
device_made = refl

create_v2_device-once_example :
    create_v2_device
      (record request { looked_up = 3000000; request_hash = 99 })
      command
      quiet
      (create_v2_device request command quiet empty empty).1
      empty
    ≡ (if 21 == 99 then replayed (Snapshot.device pump) else failed conflict, empty)
create_v2_device-once_example =
    create_v2_device-once request (record request { looked_up = 3000000; request_hash = 99 })
      command command quiet quiet empty empty (create_v2_device request command quiet empty empty).1
      empty pump device_made at_once (refl, refl) (omega arith)
