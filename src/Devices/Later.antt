-- ===== src/Devices/Later.antt =====
-- How the rows of devices and components change over time: versions never go back, a row at the same
-- version is the same row, and a status moves only as its machine allows.
use limnopulse.Prelude.{
  ◌+◌, ◌≤◌, ◌≡◌, refl, inl, inr, true, false, ◌&&◌, Option, none, some, ◌==◌, set, set_pair,
  Bool-cases, ==_iff, sym, ap, ◌∙◌, arith,
}
use limnopulse.Ingest.{Ident, Instant}
use limnopulse.Status.{
  DeviceStatus, ComponentStatus, ensure_device_transition, ensure_component_transition,
}
use limnopulse.Status.Reach.{DeviceHistory, ComponentHistory}
use limnopulse.Devices.{
  DeviceV2, DeviceComponent, Store, Changes, change_device, transition_refused, device_fence,
}
use limnopulse.Devices.Components.{component_transition_refused, change_component, component_fence}

-- What became of a device row.
abbrev pub Evolves : Option DeviceV2 → Option DeviceV2 → Type 0
Evolves none new = Unit
Evolves (some d) none = ⊥
Evolves (some d) (some d') =
    (d.version ≤ d'.version)
    × (d.version ≡ d'.version → d ≡ d')
    × (d.legacy ≡ d'.legacy)
    × DeviceHistory d.status d'.status

-- What became of a component row.
abbrev pub Develops : Option DeviceComponent → Option DeviceComponent → Type 0
Develops none new = Unit
Develops (some c) none = ⊥
Develops (some c) (some c') =
    (c.version ≤ c'.version)
    × (c.version ≡ c'.version → c ≡ c')
    × (c.device_id ≡ c'.device_id)
    × ComponentHistory c.status c'.status

pub record Later (s s' : Store) : Type 0 where
  pub devices : (tenant id : Ident) → Evolves (s.devices tenant id) (s'.devices tenant id)
  pub components : (id : Ident) → Develops (s.components id) (s'.components id)

pub Evolves-refl : (o : Option DeviceV2) → Evolves o o
Evolves-refl none = tt
Evolves-refl (some d) = (omega arith, λ e. refl, refl, inl refl)

pub Develops-refl : (o : Option DeviceComponent) → Develops o o
Develops-refl none = tt
Develops-refl (some c) = (omega arith, λ e. refl, refl, inl refl)

DeviceHistory-trans :
    (r s t : DeviceStatus) → DeviceHistory r s → DeviceHistory s t → DeviceHistory r t
DeviceHistory-trans r s t h k = ground arith

ComponentHistory-trans :
    (r s t : ComponentStatus) → ComponentHistory r s → ComponentHistory s t → ComponentHistory r t
ComponentHistory-trans r s t h k = ground arith

Evolves-trans : (o p q : Option DeviceV2) → Evolves o p → Evolves p q → Evolves o q
Evolves-trans none p q h k = tt
Evolves-trans (some d) none q h k = absurd h
Evolves-trans (some d) (some d') none h k = k
Evolves-trans (some d) (some d') (some d'') h k = (
  omega (arith, h.0, k.0),
  λ e. h.1 (omega (arith, h.0, k.0)) ∙ k.1 (omega (arith, h.0, k.0)),
  h.2 ∙ k.2,
  DeviceHistory-trans d.status d'.status d''.status h.3 k.3,
)

Develops-trans : (o p q : Option DeviceComponent) → Develops o p → Develops p q → Develops o q
Develops-trans none p q h k = tt
Develops-trans (some c) none q h k = absurd h
Develops-trans (some c) (some c') none h k = k
Develops-trans (some c) (some c') (some c'') h k = (
  omega (arith, h.0, k.0),
  λ e. h.1 (omega (arith, h.0, k.0)) ∙ k.1 (omega (arith, h.0, k.0)),
  h.2 ∙ k.2,
  ComponentHistory-trans c.status c'.status c''.status h.3 k.3,
)

pub Later-refl : (s : Store) → Later s s
Later-refl s = record {
  devices = λ t i. Evolves-refl (s.devices t i);
  components = λ i. Develops-refl (s.components i);
}

pub Later-trans : (r s t : Store) → Later r s → Later s t → Later r t
Later-trans r s t h k = record {
  devices = λ u i.
      Evolves-trans (r.devices u i) (s.devices u i) (t.devices u i) (h.devices u i) (k.devices u i);
  components = λ i.
      Develops-trans (r.components i) (s.components i) (t.components i) (h.components i)
        (k.components i);
}

-- a write under a key that had no row
pub put-Evolves :
    (tenant id t i : Ident) (d : DeviceV2) (m : Ident → Ident → Option DeviceV2)
    → m tenant id ≡ none
    → Evolves (m t i) (set_pair tenant id (some d) m t i)
put-Evolves tenant id t i d m free = elim (Bool-cases (t == tenant && i == id)) [
  | inr other ↦ rw other (Evolves-refl (m t i))
  | inl same ↦
      let e : t ≡ tenant = ground arith in
      let e' : i ≡ id = ground arith in rw (same, e, e', free) tt
]

pub put-Develops :
    (id i : Ident) (c : DeviceComponent) (m : Ident → Option DeviceComponent)
    → m id ≡ none
    → Develops (m i) (set id (some c) m i)
put-Develops id i c m free = elim (Bool-cases (i == id)) [
  | inr other ↦ rw other (Develops-refl (m i))
  | inl same ↦ let e = (==_iff i id).0 same in rw (same, e, free) tt
]

-- the row that was read and the stored one, where the versions are the same
pub device_unchanged :
    (tenant : Ident) (current : DeviceV2) (o : Option DeviceV2)
    → Evolves (some current) o
    → device_fence tenant current.version o ≡ true
    → o ≡ some current
device_unchanged tenant current none h fenced = absurd h
device_unchanged tenant current (some d) h fenced =
    let same = h.1 (ground arith) in ap (λ (x : DeviceV2). some x) (sym same)

pub component_unchanged :
    (tenant : Ident) (current : DeviceComponent) (o : Option DeviceComponent)
    → Develops (some current) o
    → component_fence tenant current.version o ≡ true
    → o ≡ some current
component_unchanged tenant current none h fenced = absurd h
component_unchanged tenant current (some d) h fenced =
    let same = h.1 (ground arith) in ap (λ (x : DeviceComponent). some x) (sym same)

pub change-Evolves :
    (changes : Changes) (t : Instant) (d : DeviceV2)
    → transition_refused d.status changes.status ≡ false
    → Evolves (some d) (some (change_device changes t (d.version + 1) d))
unfolding change_device ensure_device_transition
change-Evolves changes t d h = (omega arith, λ e. absurd (omega (arith, e)), refl, ground arith)

pub change-Develops :
    (name : Option Ident) (status : Option ComponentStatus) (t : Instant) (c : DeviceComponent)
    → component_transition_refused c.status status ≡ false
    → Develops (some c) (some (change_component name status t (c.version + 1) c))
unfolding change_component ensure_component_transition
change-Develops name status t c h =
    (omega arith, λ e. absurd (omega (arith, e)), refl, ground arith)
