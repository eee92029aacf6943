-- ===== src/Devices/Fences.antt =====
-- What a create knows of its parent when it commits.
use limnopulse.Prelude.{
  ◌≡◌, ◌≢◌, true, Option, none, some, List, ◌∷◌, Option-cases, inl, inr, ap, sym, arith,
}
use limnopulse.Prelude.Deliver.{Among}
use limnopulse.Ingest.{Instant}
use limnopulse.Status.{DeviceStatus, ComponentStatus}
use limnopulse.Idempotency.{IdempotencyReceipt}
use limnopulse.Devices.{
  DeviceV2, DeviceComponent, Capability, Snapshot, Store, ok, own_device, get_device,
}
use limnopulse.Devices.Components.{
  own_component, get_component, device_check, component_check, commit_component, create_under,
  create_component, commit_capability, declare_on, create_capability,
}
use limnopulse.Devices.Later.{Evolves, Develops}
use limnopulse.Devices.Traces.{Trace, Trace-HasHistory, own_device-found, own_component-found}

-- the row that was read is the stored one, where its version is still there
checked_device :
    (d : DeviceV2) (o : Option DeviceV2)
    → Evolves (some d) o
    → device_check d.version o ≡ true
    → o ≡ some d
checked_device d none h e = absurd h
checked_device d (some x) h e =
    let same = h.1 (ground arith) in ap (λ (y : DeviceV2). some y) (sym same)

checked_component :
    (c : DeviceComponent) (o : Option DeviceComponent)
    → Develops (some c) o
    → component_check c.version o ≡ true
    → o ≡ some c
checked_component c none h e = absurd h
checked_component c (some x) h e =
    let same = h.1 (ground arith) in ap (λ (y : DeviceComponent). some y) (sym same)

under_checked :
    (now : Instant) (c c' : DeviceComponent) (receipt : IdempotencyReceipt Snapshot) (d : DeviceV2)
    (s : Store)
    → (create_under now c receipt (some d) s).0 ≡ ok c'
    → (d.status ≢ DeviceStatus.decommissioned)
      × (device_check d.version (s.devices c.tenant_id c.device_id) ≡ true)
unfolding create_under commit_component
under_checked now c c' receipt d s h = (λ e. ground arith, ground arith)

on_checked :
    (now : Instant) (k k' : Capability) (receipt : IdempotencyReceipt Snapshot)
    (c : DeviceComponent) (s : Store)
    → (declare_on now k receipt (some c) s).0 ≡ ok k'
    → (c.status ≡ ComponentStatus.active)
      × (component_check c.version (s.components k.component_id) ≡ true)
unfolding declare_on commit_capability
on_checked now k k' receipt c s h = (ground arith, ground arith)

-- The device of the component is there, and not decommissioned.
abbrev pub HasDevice : Store → DeviceComponent → Type 0
HasDevice s c =
    (d : DeviceV2) × (s.devices c.tenant_id c.device_id ≡ some d)
    × (d.status ≢ DeviceStatus.decommissioned)

abbrev pub HasComponent : Store → Capability → Type 0
HasComponent s k =
    (c : DeviceComponent) × (s.components k.component_id ≡ some c)
    × (c.status ≡ ComponentStatus.active)

module _ {s : Store} {h : List Store} (run : Trace (s ∷ h)) (seen : Store)
    (read : Among seen (s ∷ h)) (now : Instant) (receipt : IdempotencyReceipt Snapshot) where
  component_created-HasDevice :
      (c c' : DeviceComponent) → (create_component now c receipt seen s).0 ≡ ok c' → HasDevice s c
  unfolding create_component get_device create_under
  component_created-HasDevice c c' done =
      let since = (Trace-HasHistory run).later seen read in
      elim (Option-cases (own_device c.tenant_id (seen.devices c.tenant_id c.device_id))) [
        | inl missing ↦ absurd (ground arith)
        | inr (d, found) ↦
            let row = own_device-found c.tenant_id (seen.devices c.tenant_id c.device_id) d found in
            let kept : Evolves (some d) (s.devices c.tenant_id c.device_id) =
              rw row at (since.devices c.tenant_id c.device_id) in
            let made : (create_under now c receipt (some d) s).0 ≡ ok c' = rw found at done in
            let (alive, check) = under_checked now c c' receipt d s made in
            (d, checked_device d (s.devices c.tenant_id c.device_id) kept check, alive)
      ]

  capability_created-HasComponent :
      (k k' : Capability) → (create_capability now k receipt seen s).0 ≡ ok k' → HasComponent s k
  unfolding create_capability get_component declare_on
  capability_created-HasComponent k k' done =
      let since = (Trace-HasHistory run).later seen read in
      elim (Option-cases (own_component k.tenant_id (seen.components k.component_id))) [
        | inl missing ↦ absurd (ground arith)
        | inr (c, found) ↦
            let row = own_component-found k.tenant_id (seen.components k.component_id) c found in
            let kept : Develops (some c) (s.components k.component_id) =
              rw row at (since.components k.component_id) in
            let made : (declare_on now k receipt (some c) s).0 ≡ ok k' = rw found at done in
            let (active, check) = on_checked now k k' receipt c s made in
            (c, checked_component c (s.components k.component_id) kept check, active)
      ]

  -- In any interleaving, a component is only created under a device that is there and not
  -- decommissioned at that moment, and a capability only on an active component, although the parent was
  -- read from an earlier store.
  pub created-HasParent :
      ((c c' : DeviceComponent) → (create_component now c receipt seen s).0 ≡ ok c' → HasDevice s c)
      × ((k k' : Capability)
          → (create_capability now k receipt seen s).0 ≡ ok k'
          → HasComponent s k)
  created-HasParent = (component_created-HasDevice, capability_created-HasComponent)
