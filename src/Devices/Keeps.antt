-- ===== src/Devices/Keeps.antt =====
-- What each transaction of devices, components and capabilities keeps.
use limnopulse.Prelude.{
  ℕ, ◌+◌, ◌≡◌, refl, inl, inr, true, false, not, ◌&&◌, Option, none, some, ◌==◌, is_some, set,
  set_pair, Bool-cases, ==_iff, arith,
}
use limnopulse.Ingest.{Ident, Instant}
use limnopulse.Status.{ComponentStatus}
use limnopulse.Idempotency.{IdempotencyReceipt}
use limnopulse.Devices.{
  DeviceV2, DeviceComponent, Capability, Snapshot, Store, Changes, device_scope, component_scope,
  capability_scope, receipt_allowed, create_device, transition_refused, device_fence, lookup_fence,
  commit_device, device_v2_to_item, map_some, change_device,
}
use limnopulse.Devices.Components.{
  device_check, component_check, commit_component, component_transition_refused, component_fence,
  change_component, commit_change, commit_capability,
}
use limnopulse.Devices.Mirrors.{
  Sound, create_rows, update_rows, create-IsMirrored, update-IsMirrored,
}
use limnopulse.Devices.Later.{
  Evolves, Evolves-refl, Develops, Develops-refl, Later, Later-refl, put-Evolves, put-Develops,
  device_unchanged, component_unchanged, change-Evolves, change-Develops,
}

-- What a step from `s` leads to: a sound store, in which every row has changed as it may.
abbrev pub Keeps : Store → Store → Type 0
Keeps s s' = Sound s' × Later s s'

pub create_device-Keeps :
    (now : Instant) (d : DeviceV2) (receipt : IdempotencyReceipt Snapshot) (s : Store)
    → Sound s
    → Keeps s (create_device now d receipt s).1
unfolding create_device
create_device-Keeps now d receipt s sound =
    elim (Bool-cases (
      not (is_some (s.devices d.tenant_id d.device_id))
      && not (is_some (s.lookups d.device_id))
      && receipt_allowed now device_scope receipt s)) [
        | inr refused ↦ rw refused (sound, Later-refl s)
        | inl allowed ↦
            let free : s.lookups d.device_id ≡ none = ground arith in
            let free' : s.devices d.tenant_id d.device_id ≡ none = ground arith in
            rw allowed (
              record { rows = λ t i. create_rows d s t i sound free; mirrored = sound.mirrored },
              record {
                devices = λ t i.
                    put-Evolves d.tenant_id d.device_id t i (device_v2_to_item d) s.devices free';
                components = λ i. Develops-refl (s.components i);
              },
            )
      ]

pub commit_component-Keeps :
    (now : Instant) (c : DeviceComponent) (receipt : IdempotencyReceipt Snapshot) (version : ℕ)
    (s : Store)
    → Sound s
    → Keeps s (commit_component now c receipt version s).1
unfolding commit_component
commit_component-Keeps now c receipt version s sound =
    elim (Bool-cases (
      not (is_some (s.mirrors c.tenant_id c.component_id))
      && not (is_some (s.components c.component_id))
      && device_check version (s.devices c.tenant_id c.device_id)
      && receipt_allowed now component_scope receipt s)) [
        | inr refused ↦ rw refused (sound, Later-refl s)
        | inl allowed ↦
            let free : s.components c.component_id ≡ none = ground arith in
            rw allowed (
              record { rows = sound.rows; mirrored = λ i. create-IsMirrored c s i sound free },
              record {
                devices = λ t i. Evolves-refl (s.devices t i);
                components = λ i. put-Develops c.component_id i c s.components free;
              },
            )
      ]

pub commit_capability-Keeps :
    (now : Instant) (k : Capability) (receipt : IdempotencyReceipt Snapshot) (version : ℕ)
    (s : Store)
    → Sound s
    → Keeps s (commit_capability now k receipt version s).1
unfolding commit_capability
commit_capability-Keeps now k receipt version s sound =
    elim (Bool-cases (
      component_check version (s.components k.component_id)
      && not (is_some (s.capabilities k.component_id k.capability_id))
      && receipt_allowed now capability_scope receipt s)) [
        | inr refused ↦ rw refused (sound, Later-refl s)
        | inl allowed ↦ rw allowed (
          record { rows = sound.rows; mirrored = sound.mirrored },
          record {
            devices = λ t i. Evolves-refl (s.devices t i);
            components = λ i. Develops-refl (s.components i);
          },
        )
      ]

-- one changed device row
change_devices :
    (tenant id t i : Ident) (changes : Changes) (at : Instant) (d : DeviceV2)
    (m : Ident → Ident → Option DeviceV2)
    → m tenant id ≡ some d
    → transition_refused d.status changes.status ≡ false
    → Evolves (m t i) (
        set_pair tenant id
          (map_some (change_device changes at (d.version + 1)) (m tenant id))
          m
          t
          i)
change_devices tenant id t i changes at d m found fine =
    elim (Bool-cases (t == tenant && i == id)) [
      | inr other ↦ rw other (Evolves-refl (m t i))
      | inl same ↦
          let e : t ≡ tenant = ground arith in
          let e' : i ≡ id = ground arith in
          rw (same, e, e', found) (change-Evolves changes at d fine)
    ]

pub commit_device-Keeps :
    (tenant id : Ident) (version : ℕ) (changes : Changes) (at : Instant) (current : DeviceV2)
    (s : Store)
    → Sound s
    → Evolves (some current) (s.devices tenant id)
    → current.version ≡ version
    → transition_refused current.status changes.status ≡ false
    → Keeps s (commit_device tenant id version changes at current s).1
unfolding commit_device
commit_device-Keeps tenant id version changes at current s sound since same fine =
    elim (Bool-cases (
      device_fence tenant version (s.devices tenant id)
      && lookup_fence tenant version (s.lookups id))) [
        | inr refused ↦ rw refused (sound, Later-refl s)
        | inl fenced ↦
            let row : device_fence tenant current.version (s.devices tenant id) ≡ true =
              ground arith in
            let lookup : lookup_fence tenant version (s.lookups id) ≡ true = ground arith in
            let found = device_unchanged tenant current (s.devices tenant id) since row in
            rw fenced (
              record {
                rows =
                    update_rows current.legacy changes at (version + 1) version tenant id s sound
                      (λ d e. ground arith) lookup;
                mirrored = sound.mirrored;
              },
              record {
                devices = λ t i.
                    rw (← same)
                      (change_devices tenant id t i changes at current s.devices found fine);
                components = λ i. Develops-refl (s.components i);
              },
            )
      ]

change_components :
    (id i : Ident) (name : Option Ident) (status : Option ComponentStatus) (at : Instant)
    (c : DeviceComponent) (m : Ident → Option DeviceComponent)
    → m id ≡ some c
    → component_transition_refused c.status status ≡ false
    → Develops
        (m i)
        (set id (map_some (change_component name status at (c.version + 1)) (m id)) m i)
change_components id i name status at c m found fine = elim (Bool-cases (i == id)) [
  | inr other ↦ rw other (Develops-refl (m i))
  | inl same ↦
      let e = (==_iff i id).0 same in rw (same, e, found) (change-Develops name status at c fine)
]

change_keeps_key :
    (name : Option Ident) (status : Option ComponentStatus) (at : Instant) (version : ℕ)
    (c : DeviceComponent)
    → ((change_component name status at version c).tenant_id ≡ c.tenant_id)
      × ((change_component name status at version c).component_id ≡ c.component_id)
unfolding change_component
change_keeps_key name status at version c = (refl, refl)

pub commit_change-Keeps :
    (tenant id : Ident) (version : ℕ) (name : Option Ident) (status : Option ComponentStatus)
    (at : Instant) (current : DeviceComponent) (s : Store)
    → Sound s
    → Develops (some current) (s.components id)
    → current.version ≡ version
    → component_transition_refused current.status status ≡ false
    → Keeps s
        (commit_change tenant id version
          (change_component name status at (version + 1))
          current
          s).1
unfolding commit_change
commit_change-Keeps tenant id version name status at current s sound since same fine =
    elim (Bool-cases (
      component_fence tenant version (s.mirrors tenant id)
      && component_fence tenant version (s.components id))) [
        | inr refused ↦ rw refused (sound, Later-refl s)
        | inl fenced ↦
            let row : component_fence tenant version (s.components id) ≡ true = ground arith in
            let row' : component_fence tenant current.version (s.components id) ≡ true =
              rw same row in
            let found = component_unchanged tenant current (s.components id) since row' in
            rw fenced (
              record {
                rows = sound.rows;
                mirrored = λ i.
                    update-IsMirrored (change_component name status at (version + 1)) tenant id
                      version s i (change_keeps_key name status at (version + 1)) row sound;
              },
              record {
                devices = λ t i. Evolves-refl (s.devices t i);
                components = λ i.
                    rw (← same)
                      (change_components id i name status at current s.components found fine);
              },
            )
      ]
