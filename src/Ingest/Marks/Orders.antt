-- ===== src/Ingest/Marks/Orders.antt =====
-- Deliveries in any order and any number: what makes the marks of concurrent workers agree.
use limnopulse.Prelude.{◌≡◌, refl, Option, some, List, All, arith}
use limnopulse.Prelude.Deliver.{deliver, Among, deliver-same}
use limnopulse.Ingest.{Instant}
use limnopulse.Ingest.Marks.{
  Pair, simple_condition, paired_condition, advance_simple, advance_paired, ComponentMark,
  DeviceMark, ConnectorMark, ComponentState, DeviceState, ConnectorState, apply_component_mark,
  apply_device_mark, apply_connector_mark,
}

advance_simple_comm :
    (a b o : Option Instant)
    → advance_simple a (advance_simple b o) ≡ advance_simple b (advance_simple a o)
unfolding advance_simple simple_condition
advance_simple_comm a b o = ground arith

advance_simple_idem :
    (a o : Option Instant) → advance_simple a (advance_simple a o) ≡ advance_simple a o
unfolding advance_simple simple_condition
advance_simple_idem a o = ground arith

advance_paired_comm :
    (a b o : Option Pair)
    → advance_paired a (advance_paired b o) ≡ advance_paired b (advance_paired a o)
unfolding advance_paired paired_condition
advance_paired_comm a b o = ground arith

advance_paired_idem :
    (a o : Option Pair) → advance_paired a (advance_paired a o) ≡ advance_paired a o
unfolding advance_paired paired_condition
advance_paired_idem a o = ground arith

apply_component_mark_comm :
    (a b : ComponentMark) (s : ComponentState)
    → apply_component_mark a (apply_component_mark b s)
      ≡ apply_component_mark b (apply_component_mark a s)
unfolding apply_component_mark
apply_component_mark_comm a b s =
    rw
      (
        advance_simple_comm a.received_at b.received_at s.last_received_at,
        advance_simple_comm a.ingested_at b.ingested_at s.last_ingested_at,
        advance_paired_comm a.observed b.observed s.last_observed,
      )
      refl

apply_component_mark_idem :
    (a : ComponentMark) (s : ComponentState)
    → apply_component_mark a (apply_component_mark a s) ≡ apply_component_mark a s
unfolding apply_component_mark
apply_component_mark_idem a s =
    rw
      (
        advance_simple_idem a.received_at s.last_received_at,
        advance_simple_idem a.ingested_at s.last_ingested_at,
        advance_paired_idem a.observed s.last_observed,
      )
      refl

apply_connector_mark_comm :
    (a b : ConnectorMark) (s : ConnectorState)
    → apply_connector_mark a (apply_connector_mark b s)
      ≡ apply_connector_mark b (apply_connector_mark a s)
unfolding apply_connector_mark
apply_connector_mark_comm a b s =
    rw
      (
        advance_simple_comm a.received_at b.received_at s.last_received_at,
        advance_simple_comm a.accepted_at b.accepted_at s.last_accepted_at,
        advance_paired_comm a.quarantined b.quarantined s.last_quarantined,
        advance_paired_comm a.fenced b.fenced s.last_fenced,
      )
      refl

apply_connector_mark_idem :
    (a : ConnectorMark) (s : ConnectorState)
    → apply_connector_mark a (apply_connector_mark a s) ≡ apply_connector_mark a s
unfolding apply_connector_mark
apply_connector_mark_idem a s =
    rw
      (
        advance_simple_idem a.received_at s.last_received_at,
        advance_simple_idem a.accepted_at s.last_accepted_at,
        advance_paired_idem a.quarantined s.last_quarantined,
        advance_paired_idem a.fenced s.last_fenced,
      )
      refl

apply_device_mark_comm :
    (a b : DeviceMark) (s : DeviceState)
    → apply_device_mark a (apply_device_mark b s) ≡ apply_device_mark b (apply_device_mark a s)
unfolding apply_device_mark
apply_device_mark_comm a b s =
    rw
      (
        advance_simple_comm (some a.received_at) (some b.received_at) s.last_received_at,
        advance_simple_comm (some a.ingested_at) (some b.ingested_at) s.last_ingested_at,
      )
      refl

apply_device_mark_idem :
    (a : DeviceMark) (s : DeviceState)
    → apply_device_mark a (apply_device_mark a s) ≡ apply_device_mark a s
unfolding apply_device_mark
apply_device_mark_idem a s =
    rw
      (
        advance_simple_idem (some a.received_at) s.last_received_at,
        advance_simple_idem (some a.ingested_at) s.last_ingested_at,
      )
      refl

-- What a component's row holds depends only on which marks were delivered to it: not on their order,
-- and not on how often each one was.
pub component_marks_same :
    (xs ys : List ComponentMark) (s : ComponentState)
    → All (λ x. Among x ys) xs
    → All (λ y. Among y xs) ys
    → deliver apply_component_mark xs s ≡ deliver apply_component_mark ys s
component_marks_same =
    deliver-same apply_component_mark
      (record { comm = apply_component_mark_comm; idem = apply_component_mark_idem })

-- What a device's row holds depends only on which marks were delivered to it: not on their order, and
-- not on how often each one was.
pub device_marks_same :
    (xs ys : List DeviceMark) (s : DeviceState)
    → All (λ x. Among x ys) xs
    → All (λ y. Among y xs) ys
    → deliver apply_device_mark xs s ≡ deliver apply_device_mark ys s
device_marks_same =
    deliver-same apply_device_mark
      (record { comm = apply_device_mark_comm; idem = apply_device_mark_idem })

-- What an account's health row holds depends only on which marks were delivered to it: not on their
-- order, and not on how often each one was.
pub connector_marks_same :
    (xs ys : List ConnectorMark) (s : ConnectorState)
    → All (λ x. Among x ys) xs
    → All (λ y. Among y xs) ys
    → deliver apply_connector_mark xs s ≡ deliver apply_connector_mark ys s
connector_marks_same =
    deliver-same apply_connector_mark
      (record { comm = apply_connector_mark_comm; idem = apply_connector_mark_idem })
