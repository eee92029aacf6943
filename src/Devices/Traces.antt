-- ===== src/Devices/Traces.antt =====
-- Any interleaving of the writes of devices, components and capabilities, by any number of workers.
use limnopulse.Prelude.{
  ℕ, ◌≡◌, inl, inr, Option, none, some, List, [], ◌∷◌, ◌==◌, leb, max, Bool-cases, Option-cases,
  arith,
}
use limnopulse.Prelude.Deliver.{Among}
use limnopulse.Ingest.{Ident, Instant}
use limnopulse.Status.{ComponentStatus}
use limnopulse.Idempotency.{IdempotencyReceipt}
use limnopulse.Devices.{
  DeviceV2, DeviceComponent, Capability, Snapshot, Store, Changes, create_device, own_device,
  get_device, update_time, transition_refused, update_current, update_device,
}
use limnopulse.Devices.Components.{
  own_component, get_component, is_decommissioned, is_terminal, create_under, create_component,
  component_transition_refused, update_component_row, update_component, declare_on,
  create_capability,
}
use limnopulse.Devices.Mirrors.{Sound}
use limnopulse.Devices.Later.{Evolves, Develops, Later, Later-refl, Later-trans}
use limnopulse.Devices.Keeps.{
  Keeps, create_device-Keeps, commit_component-Keeps, commit_capability-Keeps, commit_device-Keeps,
  commit_change-Keeps,
}

-- A write, on a store that its read saw.
pub data Write : Store → Store → Store → Type 0 where
  device_created :
      {seen s s' : Store} (now : Instant) (d : DeviceV2) (receipt : IdempotencyReceipt Snapshot)
      → s' ≡ (create_device now d receipt s).1
      → Write seen s s'
  device_updated :
      {seen s s' : Store} (now : Instant) (tenant id : Ident) (version : ℕ) (changes : Changes)
      → s' ≡ (update_device now tenant id version changes seen s).1
      → Write seen s s'
  component_created :
      {seen s s' : Store} (now : Instant) (c : DeviceComponent)
      (receipt : IdempotencyReceipt Snapshot)
      → s' ≡ (create_component now c receipt seen s).1
      → Write seen s s'
  component_updated :
      {seen s s' : Store} (now : Instant) (tenant id : Ident) (version : ℕ) (name : Option Ident)
      (status : Option ComponentStatus)
      → s' ≡ (update_component now tenant id version name status seen s).1
      → Write seen s s'
  capability_created :
      {seen s s' : Store} (now : Instant) (k : Capability) (receipt : IdempotencyReceipt Snapshot)
      → s' ≡ (create_capability now k receipt seen s).1
      → Write seen s s'

-- The stores of a run, the latest first. A write may have read any of them.
pub data Trace : List Store → Type 0 where
  begin : {s : Store} → Sound s → Trace (s ∷ [])
  next :
      {h : List Store} (seen s s' : Store)
      → Trace (s ∷ h)
      → Among seen (s ∷ h)
      → Write seen s s'
      → Trace (s' ∷ s ∷ h)

pub own_device-found :
    (tenant : Ident) (o : Option DeviceV2) (d : DeviceV2)
    → own_device tenant o ≡ some d
    → o ≡ some d
own_device-found tenant none d h = h
own_device-found tenant (some x) d h = ground arith

pub own_component-found :
    (tenant : Ident) (o : Option DeviceComponent) (c : DeviceComponent)
    → own_component tenant o ≡ some c
    → o ≡ some c
own_component-found tenant none c h = h
own_component-found tenant (some x) c h = ground arith

module _ (s : Store) (sound : Sound s) where
  update_current-Keeps :
      (now : Instant) (tenant id : Ident) (version : ℕ) (changes : Changes) (current : DeviceV2)
      → Evolves (some current) (s.devices tenant id)
      → Keeps s (update_current now tenant id version changes (some current) s).1
  unfolding update_current
  update_current-Keeps now tenant id version changes current since =
      elim (Bool-cases (current.version == version)) [
        | inr other ↦ rw other (sound, Later-refl s)
        | inl same ↦ elim (Bool-cases (transition_refused current.status changes.status)) [
          | inl refused ↦ rw (same, refused) (sound, Later-refl s)
          | inr fine ↦ elim (Bool-cases (leb current.created_at (update_time now current))) [
            | inr bad ↦ rw (same, fine, bad) (sound, Later-refl s)
            | inl good ↦
                rw (same, fine, good)
                  (commit_device-Keeps tenant id version changes (update_time now current) current s
                    sound since (ground arith) fine)
          ]
        ]
      ]

  update_component_row-Keeps :
      (now : Instant) (tenant id : Ident) (version : ℕ) (name : Option Ident)
      (status : Option ComponentStatus) (current : DeviceComponent)
      → Develops (some current) (s.components id)
      → Keeps s (update_component_row now tenant id version name status (some current) s).1
  unfolding update_component_row
  update_component_row-Keeps now tenant id version name status current since =
      elim (Bool-cases (current.version == version)) [
        | inr other ↦ rw other (sound, Later-refl s)
        | inl same ↦ elim (Bool-cases (component_transition_refused current.status status)) [
          | inl refused ↦ rw (same, refused) (sound, Later-refl s)
          | inr fine ↦
              rw (same, fine)
                (commit_change-Keeps tenant id version name status (max now current.updated_at)
                  current s sound since (ground arith) fine)
        ]
      ]

  create_under-Keeps :
      (now : Instant) (c : DeviceComponent) (receipt : IdempotencyReceipt Snapshot)
      (o : Option DeviceV2)
      → Keeps s (create_under now c receipt o s).1
  unfolding create_under
  create_under-Keeps now c receipt none = (sound, Later-refl s)
  create_under-Keeps now c receipt (some d) = elim (Bool-cases (is_decommissioned d.status)) [
    | inl gone ↦ rw gone (sound, Later-refl s)
    | inr there ↦ rw there (commit_component-Keeps now c receipt d.version s sound)
  ]

  declare_on-Keeps :
      (now : Instant) (k : Capability) (receipt : IdempotencyReceipt Snapshot)
      (o : Option DeviceComponent)
      → Keeps s (declare_on now k receipt o s).1
  unfolding declare_on
  declare_on-Keeps now k receipt none = (sound, Later-refl s)
  declare_on-Keeps now k receipt (some c) = elim (Bool-cases (is_terminal c.status)) [
    | inl gone ↦ rw gone (sound, Later-refl s)
    | inr there ↦ rw there (commit_capability-Keeps now k receipt c.version s sound)
  ]

  update_device-Keeps :
      (now : Instant) (tenant id : Ident) (version : ℕ) (changes : Changes) (seen : Store)
      → Later seen s
      → Keeps s (update_device now tenant id version changes seen s).1
  unfolding update_device get_device
  update_device-Keeps now tenant id version changes seen since =
      elim (Option-cases (own_device tenant (seen.devices tenant id))) [
        | inl missing ↦ rw (missing, update_device, update_current) (sound, Later-refl s)
        | inr (d, found) ↦
            let row = own_device-found tenant (seen.devices tenant id) d found in
            let kept : Evolves (some d) (s.devices tenant id) =
              rw row at (since.devices tenant id) in
            rw (found, update_device) (update_current-Keeps now tenant id version changes d kept)
      ]

  update_component-Keeps :
      (now : Instant) (tenant id : Ident) (version : ℕ) (name : Option Ident)
      (status : Option ComponentStatus) (seen : Store)
      → Later seen s
      → Keeps s (update_component now tenant id version name status seen s).1
  unfolding update_component get_component
  update_component-Keeps now tenant id version name status seen since =
      elim (Option-cases (own_component tenant (seen.components id))) [
        | inl missing ↦ rw (missing, update_component, update_component_row) (sound, Later-refl s)
        | inr (c, found) ↦
            let row = own_component-found tenant (seen.components id) c found in
            let kept : Develops (some c) (s.components id) = rw row at (since.components id) in
            rw (found, update_component)
              (update_component_row-Keeps now tenant id version name status c kept)
      ]

Write-Keeps : {seen s s' : Store} → Write seen s s' → Sound s → Later seen s → Keeps s s'
unfolding create_component create_capability
Write-Keeps {seen} {s} (device_created now d receipt e) sound since =
    rw e (create_device-Keeps now d receipt s sound)
Write-Keeps {seen} {s} (device_updated now tenant id version changes e) sound since =
    rw e (update_device-Keeps s sound now tenant id version changes seen since)
Write-Keeps {seen} {s} (component_created now c receipt e) sound since =
    rw e (create_under-Keeps s sound now c receipt _)
Write-Keeps {seen} {s} (component_updated now tenant id version name status e) sound since =
    rw e (update_component-Keeps s sound now tenant id version name status seen since)
Write-Keeps {seen} {s} (capability_created now k receipt e) sound since =
    rw e (declare_on-Keeps s sound now k receipt _)

-- The latest store is sound, and later than every store before it.
pub record IsHistory (s : Store) (h : List Store) : Type 0 where
  pub sound : Sound s
  pub later : (r : Store) → Among r (s ∷ h) → Later r s

begin-IsHistory : (s : Store) → Sound s → IsHistory s []
begin-IsHistory s sound = record { sound = sound; later = λ r m. only r m }
  where
    only : (r : Store) → Among r (s ∷ []) → Later r s
    only r (inl same) = rw same (Later-refl s)
    only r (inr m) = elim m [ ]

next-IsHistory : (s s' : Store) (h : List Store) → IsHistory s h → Keeps s s' → IsHistory s' (s ∷ h)
next-IsHistory s s' h old kept = record { sound = kept.0; later = λ r m. each r m }
  where
    each : (r : Store) → Among r (s' ∷ s ∷ h) → Later r s'
    each r (inl same) = rw same (Later-refl s')
    each r (inr m) = Later-trans r s s' (old.later r m) kept.1

abbrev pub HasHistory : List Store → Type 0
HasHistory [] = Unit
HasHistory (s ∷ h) = IsHistory s h

-- In every run of writes, in any interleaving and whatever earlier stores their reads saw, where the
-- first store is sound: the lookup of each device agrees with its row, so that no two tenants have a
-- device of one id; the mirror of each component is its row; no version goes back, two rows of one
-- version are the same row, and each status has moved only along its machine.
pub Trace-HasHistory : {h : List Store} → Trace h → HasHistory h
Trace-HasHistory (begin {s} sound) = begin-IsHistory s sound
Trace-HasHistory (next {h} seen s s' run read write) =
    let old = Trace-HasHistory run in
    next-IsHistory s s' h old (Write-Keeps write old.sound (old.later seen read))
