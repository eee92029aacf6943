-- ===== src/Devices/Service/Once.antt =====
-- A create is carried out once for a key.
use limnopulse.Prelude.{
  ℕ, ◌+◌, ◌<◌, ◌≡◌, refl, true, false, not, ◌&&◌, Option, none, some, if◌then◌else◌, ◌==◌, is_some,
  Bool-cases, inl, inr, ==_iff, arith,
}
use limnopulse.Ingest.{Ident, Instant}
use limnopulse.Idempotency.{
  IdempotencyReceipt, Replay, receipt_ttl, receipt_put_allowed, expires_epoch,
  get_idempotency_replay,
}
use limnopulse.Status.{ComponentStatus}
use limnopulse.Devices.{
  Changes, get_device, DeviceV2, DeviceComponent, Capability, Snapshot, Store, Receipts, Reply, ok,
  conflict, device_scope, component_scope, capability_scope, receipt_allowed, put_receipt,
  create_device, commit_device, update_current, update_device,
}
use limnopulse.Devices.Components.{
  get_component, commit_component, create_under, create_component, commit_change,
  update_component_row, update_component, commit_capability, declare_on, create_capability,
  device_check, component_check,
}
use limnopulse.Devices.Traces.{
  Write, device_created, device_updated, component_created, component_updated, capability_created,
}
use limnopulse.Devices.Service.{
  created, replayed, failed, Request, replay_of, new_idempotency_receipt, finish, persist_built,
  create_after, create_idempotently, DeviceCommand, build_device, create_v2_device,
}

-- the reading of the clock of a create
abbrev pub clock : {seen s s' : Store} → Write seen s s' → Instant
clock (device_created now d receipt e) = now
clock (device_updated now tenant id version changes e) = now
clock (component_created now c receipt e) = now
clock (component_updated now tenant id version name status e) = now
clock (capability_created now k receipt e) = now

-- Writes of any workers, from a store on, all before an instant by their clocks.
pub data Until (limit : Instant) (s : Store) : Store → Type 0 where
  at_once : Until limit s s
  next :
      {s' s'' : Store} (seen : Store)
      → Until limit s s'
      → (w : Write seen s' s'') → clock w < limit
      → Until limit s s''

module _ (scope : ℕ) (tenant key : Ident) (r : IdempotencyReceipt Snapshot) where
  abbrev pub Holds : Receipts → Type 0
  Holds receipts = receipts scope tenant key ≡ some r

  live_kept :
      (now : Instant) → now < r.created_at + receipt_ttl → receipt_put_allowed now (some r) ≡ false
  unfolding receipt_put_allowed expires_epoch
  live_kept now early = ground arith

  put_receipt_keeps :
      (now : Instant) (scope' : ℕ) (receipt : IdempotencyReceipt Snapshot) (s : Store)
      → now < r.created_at + receipt_ttl
      → receipt_allowed now scope' receipt s ≡ true
      → Holds s.receipts
      → Holds (put_receipt scope' receipt s.receipts)
  unfolding receipt_allowed
  put_receipt_keeps now scope' receipt s early allowed h = elim (Bool-cases (scope == scope')) [
    | inr other ↦ rw other h
    | inl same ↦
        let e = (==_iff scope scope').0 same in
        elim (Bool-cases (tenant == receipt.tenant_id && key == receipt.key_hash)) [
          | inr other ↦ rw (same, other, ← e) h
          | inl own ↦
              let t : tenant ≡ receipt.tenant_id = ground arith in
              let k : key ≡ receipt.key_hash = ground arith in
              let stored : s.receipts scope' receipt.tenant_id receipt.key_hash ≡ some r =
                rw (e, t, k) at h in
              let live = live_kept now early in absurd (ground arith)
        ]
  ]

  module _ (now : Instant) (s : Store) (early : now < r.created_at + receipt_ttl)
      (h : Holds s.receipts) where
    create_device-Holds :
        (d : DeviceV2) (receipt : IdempotencyReceipt Snapshot)
        → Holds (create_device now d receipt s).1.receipts
    unfolding create_device
    create_device-Holds d receipt =
        elim (Bool-cases (
          not (is_some (s.devices d.tenant_id d.device_id))
          && not (is_some (s.lookups d.device_id))
          && receipt_allowed now device_scope receipt s)) [
            | inr refused ↦ rw refused h
            | inl allowed ↦
                rw allowed (put_receipt_keeps now device_scope receipt s early (ground arith) h)
          ]

    commit_component-Holds :
        (c : DeviceComponent) (receipt : IdempotencyReceipt Snapshot) (version : ℕ)
        → Holds (commit_component now c receipt version s).1.receipts
    unfolding commit_component
    commit_component-Holds c receipt version =
        elim (Bool-cases (
          not (is_some (s.mirrors c.tenant_id c.component_id))
          && not (is_some (s.components c.component_id))
          && device_check version (s.devices c.tenant_id c.device_id)
          && receipt_allowed now component_scope receipt s)) [
            | inr refused ↦ rw refused h
            | inl allowed ↦
                rw allowed (put_receipt_keeps now component_scope receipt s early (ground arith) h)
          ]

    create_under-Holds :
        (c : DeviceComponent) (receipt : IdempotencyReceipt Snapshot) (o : Option DeviceV2)
        → Holds (create_under now c receipt o s).1.receipts
    unfolding create_under
    create_under-Holds c receipt none = h
    create_under-Holds c receipt (some d) =
        ground (arith, commit_component-Holds c receipt d.version)

    commit_capability-Holds :
        (k : Capability) (receipt : IdempotencyReceipt Snapshot) (version : ℕ)
        → Holds (commit_capability now k receipt version s).1.receipts
    unfolding commit_capability
    commit_capability-Holds k receipt version =
        elim (Bool-cases (
          component_check version (s.components k.component_id)
          && not (is_some (s.capabilities k.component_id k.capability_id))
          && receipt_allowed now capability_scope receipt s)) [
            | inr refused ↦ rw refused h
            | inl allowed ↦
                rw allowed (put_receipt_keeps now capability_scope receipt s early (ground arith) h)
          ]

    declare_on-Holds :
        (k : Capability) (receipt : IdempotencyReceipt Snapshot) (o : Option DeviceComponent)
        → Holds (declare_on now k receipt o s).1.receipts
    unfolding declare_on
    declare_on-Holds k receipt none = h
    declare_on-Holds k receipt (some c) =
        ground (arith, commit_capability-Holds k receipt c.version)

  -- updates write no receipts
  update_device_receipts :
      (now : Instant) (tenant id : Ident) (version : ℕ) (changes : Changes) (o : Option DeviceV2)
      (s : Store)
      → (update_current now tenant id version changes o s).1.receipts ≡ s.receipts
  unfolding update_current commit_device
  update_device_receipts now tenant id version changes none s = refl
  update_device_receipts now tenant id version changes (some d) s = ground arith

  update_component_receipts :
      (now : Instant) (tenant id : Ident) (version : ℕ) (name : Option Ident)
      (status : Option ComponentStatus) (o : Option DeviceComponent) (s : Store)
      → (update_component_row now tenant id version name status o s).1.receipts ≡ s.receipts
  unfolding update_component_row commit_change
  update_component_receipts now tenant id version name status none s = refl
  update_component_receipts now tenant id version name status (some c) s = ground arith

  Write-Holds :
      {seen s s' : Store} (w : Write seen s s')
      → clock w < r.created_at + receipt_ttl
      → Holds s.receipts
      → Holds s'.receipts
  unfolding create_component create_capability update_device update_component
  Write-Holds {seen} {s} (device_created now d receipt e) early h =
      rw e (create_device-Holds now s early h d receipt)
  Write-Holds {seen} {s} (device_updated now t i version changes e) early h =
      rw (e, update_device_receipts now t i version changes (get_device seen t i) s) h
  Write-Holds {seen} {s} (component_created now c receipt e) early h =
      rw e (create_under-Holds now s early h c receipt _)
  Write-Holds {seen} {s} (component_updated now t i version name status e) early h =
      rw (e, update_component_receipts now t i version name status (get_component seen t i) s) h
  Write-Holds {seen} {s} (capability_created now k receipt e) early h =
      rw e (declare_on-Holds now s early h k receipt _)

  Until-Holds :
      {s s' : Store}
      → Until (r.created_at + receipt_ttl) s s'
      → Holds s.receipts
      → Holds s'.receipts
  Until-Holds at_once h = h
  Until-Holds (next seen run w early) h = Write-Holds w early (Until-Holds run h)

-- a create that finds a live receipt of its key answers from it and writes nothing
create_replays :
    {A : Type 0} (snapshot : A → Snapshot)
    (persist : A → IdempotencyReceipt Snapshot → Store → Reply A × Store) (scope : ℕ)
    (request : Request) (others : Store → Store) (build : Reply A) (seen s : Store)
    (r : IdempotencyReceipt Snapshot)
    → seen.receipts scope request.tenant_id request.key_hash ≡ some r
    → request.looked_up < r.created_at + receipt_ttl
    → create_idempotently snapshot persist scope request others build seen s
      ≡ (if r.request_hash == request.request_hash then replayed r.response else failed conflict, s)
unfolding create_idempotently create_after replay_of get_idempotency_replay
create_replays snapshot persist scope request others build seen s r found early =
    rw found (elim (Bool-cases (r.request_hash == request.request_hash)) [
      | inl same ↦ ground arith
      | inr other ↦ ground arith
    ])

device_stored :
    (now : Instant) (d d' : DeviceV2) (receipt : IdempotencyReceipt Snapshot) (s : Store)
    → (create_device now d receipt s).0 ≡ ok d'
    → (d ≡ d')
      × ((create_device now d receipt s).1.receipts device_scope receipt.tenant_id receipt.key_hash
          ≡ some receipt)
unfolding create_device
device_stored now d d' receipt s h = (ground arith, ground arith)

finish-created :
    {A : Type 0} (again : Replay Snapshot) (r : Reply A) (a : A)
    → finish again r ≡ created a
    → r ≡ ok a
unfolding finish
finish-created (Replay.response x) r a h = ground arith
finish-created Replay.mismatch r a h = ground arith
finish-created Replay.absent r a h = ground arith

created_stored :
    (request : Request) (others : Store → Store) (build : DeviceV2) (first : Replay Snapshot)
    (s : Store) (d : DeviceV2)
    → let (o, s') =
        create_after Snapshot.device
          (create_device request.committed)
          device_scope
          request
          others
          (ok build)
          first
          s in
      o ≡ created d
      → s'.receipts device_scope request.tenant_id request.key_hash
        ≡ some (new_idempotency_receipt request (Snapshot.device d))
unfolding create_after persist_built new_idempotency_receipt
created_stored request others build (Replay.response x) s d h = ground arith
created_stored request others build Replay.mismatch s d h = ground arith
created_stored request others build Replay.absent s d h =
    let receipt = new_idempotency_receipt request (Snapshot.device build) in
    let r = create_device request.committed build receipt s in
    let done =
      finish-created (replay_of device_scope request request.looked_up_again (others r.1)) r.0 d
        h in
    let (same, stored) = device_stored request.committed build d receipt s done in
    rw (← same) stored

-- A device is created once for a key. After a create that made a device, and whatever writes of any
-- workers follow, for 24 hours by the clock a request with the same key that looks it up makes no other
-- device and writes nothing: it is answered with that device, or refused where it is another request.
pub create_v2_device-once :
    (first again : Request) (command command' : DeviceCommand) (others others' : Store → Store)
    (seen s later now : Store) (d : DeviceV2)
    → (create_v2_device first command others seen s).0 ≡ created d
    → Until (first.stamped + receipt_ttl) (create_v2_device first command others seen s).1 later
    → (again.tenant_id ≡ first.tenant_id) × (again.key_hash ≡ first.key_hash)
    → again.looked_up < first.stamped + receipt_ttl
    → create_v2_device again command' others' later now ≡ (
      if first.request_hash == again.request_hash
          then replayed (Snapshot.device d)
          else failed conflict,
      now,
    )
unfolding create_v2_device create_idempotently new_idempotency_receipt
create_v2_device-once first again command command' others others' seen s later now d made run key
      early =
    let r = new_idempotency_receipt first (Snapshot.device d) in
    let stored =
      created_stored first others (build_device first command)
        (replay_of device_scope first first.looked_up seen) s d made in
    let kept = Until-Holds device_scope first.tenant_id first.key_hash r run stored in
    let found : later.receipts device_scope again.tenant_id again.key_hash ≡ some r =
      rw (key.0, key.1) kept in
    create_replays Snapshot.device (create_device again.committed) device_scope again others'
      (ok (build_device again command')) later now r found early
