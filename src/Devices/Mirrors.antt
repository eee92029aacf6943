-- ===== src/Devices/Mirrors.antt =====
-- What the rows of devices and components have in common, and that every operation keeps it.
use limnopulse.Prelude.{
  ℕ, ◌≡◌, ◌≢◌, refl, inl, inr, Bool, true, false, Option, none, some, if◌then◌else◌, ◌==◌, set,
  set_pair, Bool-cases, ==_iff, sym, ap, ◌∙◌, arith,
}
use limnopulse.Ingest.{Ident, Instant}
use limnopulse.Devices.{
  DeviceV2, DeviceLookup, DeviceComponent, Store, Changes, device_lookup_to_item, device_v2_to_item,
  change_device, change_lookup, map_some, lookup_fence,
}
use limnopulse.Devices.Components.{component_fence}

-- The lookup row says of the device row what it should.
abbrev pub Agrees : DeviceV2 → Option DeviceLookup → Type 0
Agrees d none = ⊥
Agrees d (some l) =
    (l.tenant_id ≡ d.tenant_id)
    × (l.status ≡ d.status)
    × (l.version ≡ d.version)
    × (d.legacy ≡ true
        → (l.name ≡ some d.name)
          × (l.firmware_version ≡ d.firmware_version)
          × (l.updated_at ≡ some d.updated_at))

-- A device row stands under its tenant and its id, and its lookup agrees with it.
abbrev pub IsRow : Ident → Ident → Option DeviceV2 → Option DeviceLookup → Type 0
IsRow tenant id none l = Unit
IsRow tenant id (some d) l = (d.tenant_id ≡ tenant) × (d.device_id ≡ id) × Agrees d l

-- A component row stands under its id, with the same row under its tenant.
abbrev pub IsMirrored :
    (Ident → Ident → Option DeviceComponent) → Ident → Option DeviceComponent → Type 0
IsMirrored mirrors id none = (tenant : Ident) → mirrors tenant id ≡ none
IsMirrored mirrors id (some c) =
    (c.component_id ≡ id)
    × ((tenant : Ident) → mirrors tenant id ≡ (if tenant == c.tenant_id then some c else none))

pub record Sound (s : Store) : Type 0 where
  pub rows : (tenant id : Ident) → IsRow tenant id (s.devices tenant id) (s.lookups id)
  pub mirrored : (id : Ident) → IsMirrored s.mirrors id (s.components id)

-- a row without a lookup is none
no_lookup :
    (tenant id : Ident) (o : Option DeviceV2) (l : Option DeviceLookup)
    → IsRow tenant id o l
    → l ≡ none
    → o ≡ none
no_lookup tenant id none l h e = refl
no_lookup tenant id (some d) l h e = absurd (let agrees = h.2 in rw e at agrees)

pub create_rows :
    (d : DeviceV2) (s : Store) (tenant id : Ident)
    → Sound s
    → s.lookups d.device_id ≡ none
    → IsRow tenant id
        (set_pair d.tenant_id d.device_id (some (device_v2_to_item d)) s.devices tenant id)
        (set d.device_id (some (device_lookup_to_item d)) s.lookups id)
unfolding device_v2_to_item device_lookup_to_item
create_rows d s tenant id sound free =
    let old = sound.rows tenant id in
    elim (Bool-cases (id == d.device_id)) [
      | inr other ↦ elim (Bool-cases (tenant == d.tenant_id)) [
        | inl own ↦ rw (own, other) old
        | inr foreign ↦ rw (foreign, other) old
      ]
      | inl same ↦
          let e = (==_iff id d.device_id).0 same in
          elim (Bool-cases (tenant == d.tenant_id)) [
            | inl own ↦
                let t = (==_iff tenant d.tenant_id).0 own in
                rw (own, same) (sym t, sym e, (refl, refl, refl, λ h. absurd (ground arith)))
            | inr foreign ↦
                let gone =
                  no_lookup tenant id (s.devices tenant id) (s.lookups id) old
                    (ap s.lookups e ∙ free) in
                rw (foreign, same, gone) tt
          ]
    ]

change-Agrees :
    (legacy : Bool) (changes : Changes) (t : Instant) (v : ℕ) (d : DeviceV2)
    (l : Option DeviceLookup)
    → legacy ≡ d.legacy
    → Agrees d l
    → Agrees (change_device changes t v d) (map_some (change_lookup legacy changes t v) l)
unfolding change_device change_lookup
change-Agrees legacy changes t v d none e h = h
change-Agrees legacy changes t v d (some l) e h = (
  h.0,
  ground (arith, h.1),
  refl,
  λ old. let (name, firmware, time) = h.3 old in (ground arith, ground arith, ground arith),
)

-- only the tenant of the device has a row under its id
foreign_row :
    (tenant id : Ident) (o : Option DeviceV2) (l : DeviceLookup)
    → IsRow tenant id o (some l)
    → l.tenant_id ≢ tenant
    → o ≡ none
foreign_row tenant id none l h apart = refl
foreign_row tenant id (some d) l h apart = absurd (apart (h.2.0 ∙ h.0))

change_row :
    (legacy : Bool) (changes : Changes) (t : Instant) (v : ℕ) (tenant id : Ident)
    (o : Option DeviceV2) (l : Option DeviceLookup)
    → ((d : DeviceV2) → o ≡ some d → legacy ≡ d.legacy)
    → IsRow tenant id o l
    → IsRow tenant id
        (map_some (change_device changes t v) o)
        (map_some (change_lookup legacy changes t v) l)
unfolding change_device
change_row legacy changes t v tenant id none l e h = tt
change_row legacy changes t v tenant id (some d) l e h =
    (h.0, h.1, change-Agrees legacy changes t v d l (e d refl) h.2)

lookup_tenant :
    (tenant : Ident) (version : ℕ) (o : Option DeviceLookup)
    → lookup_fence tenant version o ≡ true
    → (l : DeviceLookup) × (o ≡ some l) × (l.tenant_id ≡ tenant)
lookup_tenant tenant version none h = absurd (ground arith)
lookup_tenant tenant version (some l) h = (l, refl, ground arith)

module _ (legacy : Bool) (changes : Changes) (t : Instant) (v version : ℕ) (tenant id : Ident)
    (s : Store) (sound : Sound s) where
  pub update_rows :
      ((d : DeviceV2) → s.devices tenant id ≡ some d → legacy ≡ d.legacy)
      → lookup_fence tenant version (s.lookups id) ≡ true
      → (t' i : Ident)
      → IsRow t' i
          (set_pair tenant id
            (map_some (change_device changes t v) (s.devices tenant id))
            s.devices
            t'
            i)
          (set id (map_some (change_lookup legacy changes t v) (s.lookups id)) s.lookups i)
  update_rows same_api fenced t' i =
      let old = sound.rows t' i in
      elim (Bool-cases (i == id)) [
        | inr other ↦ elim (Bool-cases (t' == tenant)) [
          | inl own ↦ rw (own, other) old
          | inr foreign ↦ rw (foreign, other) old
        ]
        | inl same ↦
            let e = (==_iff i id).0 same in
            elim (Bool-cases (t' == tenant)) [
              | inl own ↦
                  let e' = (==_iff t' tenant).0 own in
                  rw (own, same, e, e')
                    (change_row legacy changes t v tenant id (s.devices tenant id) (s.lookups id)
                      same_api (sound.rows tenant id))
              | inr foreign ↦
                  let (l, found, owner) = lookup_tenant tenant version (s.lookups id) fenced in
                  let row : IsRow t' i (s.devices t' i) (some l) =
                    rw (ap s.lookups e ∙ found) at old in
                  let gone = foreign_row t' i (s.devices t' i) l row (λ q. ground arith) in
                  rw (foreign, same, gone) tt
            ]
      ]

-- only the mirrors under the component's id matter
IsMirrored-same :
    (m m' : Ident → Ident → Option DeviceComponent) (id : Ident) (o : Option DeviceComponent)
    → ((t : Ident) → m' t id ≡ m t id)
    → IsMirrored m id o
    → IsMirrored m' id o
IsMirrored-same m m' id none e h = λ t. e t ∙ h t
IsMirrored-same m m' id (some x) e h = (h.0, λ t. e t ∙ h.1 t)

set_pair_other :
    (t j t' i : Ident) (v : Option DeviceComponent) (m : Ident → Ident → Option DeviceComponent)
    → (i == j) ≡ false
    → set_pair t j v m t' i ≡ m t' i
set_pair_other t j t' i v m h = elim (Bool-cases (t' == t)) [
  | inl own ↦ rw (own, h) refl
  | inr foreign ↦ rw foreign refl
]

pub create-IsMirrored :
    (c : DeviceComponent) (s : Store) (id : Ident)
    → Sound s
    → s.components c.component_id ≡ none
    → IsMirrored
        (set_pair c.tenant_id c.component_id (some c) s.mirrors)
        id
        (set c.component_id (some c) s.components id)
create-IsMirrored c s id sound free = elim (Bool-cases (id == c.component_id)) [
  | inr other ↦ rw other (
      IsMirrored-same s.mirrors (set_pair c.tenant_id c.component_id (some c) s.mirrors) id
        (s.components id)
        (λ t. set_pair_other c.tenant_id c.component_id t id (some c) s.mirrors other)
        (sound.mirrored id))
  | inl same ↦
      let e = (==_iff id c.component_id).0 same in
      let old = sound.mirrored c.component_id in
      let absent : (t : Ident) → s.mirrors t c.component_id ≡ none = rw free at old in
      rw (same, e) (refl, λ t. ground (arith, absent t))
]

-- a change that keeps the tenant and the id of a component
abbrev pub KeepsKey : (DeviceComponent → DeviceComponent) → Type 0
KeepsKey change =
    (c : DeviceComponent)
    → ((change c).tenant_id ≡ c.tenant_id) × ((change c).component_id ≡ c.component_id)

change_mirror :
    (change : DeviceComponent → DeviceComponent) (tenant id : Ident) (version : ℕ)
    (m : Ident → Ident → Option DeviceComponent) (o : Option DeviceComponent)
    → KeepsKey change
    → component_fence tenant version o ≡ true
    → IsMirrored m id o
    → IsMirrored (set_pair tenant id (map_some change (m tenant id)) m) id (map_some change o)
change_mirror change tenant id version m none keeps fenced h = absurd (ground arith)
change_mirror change tenant id version m (some x) keeps fenced h =
    let owner : x.tenant_id ≡ tenant = ground arith in
    let here = h.1 tenant in let k = keeps x in (k.1 ∙ h.0, λ t. ground (arith, h.1 t))

pub update-IsMirrored :
    (change : DeviceComponent → DeviceComponent) (tenant id : Ident) (version : ℕ) (s : Store)
    (i : Ident)
    → KeepsKey change
    → component_fence tenant version (s.components id) ≡ true
    → Sound s
    → IsMirrored
        (set_pair tenant id (map_some change (s.mirrors tenant id)) s.mirrors)
        i
        (set id (map_some change (s.components id)) s.components i)
update-IsMirrored change tenant id version s i keeps fenced sound = elim (Bool-cases (i == id)) [
  | inr other ↦ rw other (
      IsMirrored-same s.mirrors
        (set_pair tenant id (map_some change (s.mirrors tenant id)) s.mirrors) i (s.components i)
        (λ t. set_pair_other tenant id t i (map_some change (s.mirrors tenant id)) s.mirrors other)
        (sound.mirrored i))
  | inl same ↦
      let e = (==_iff i id).0 same in
      rw (same, e)
        (change_mirror change tenant id version s.mirrors (s.components id) keeps fenced
          (sound.mirrored id))
]
