-- ===== src/Ingest/Receipt/Decide.antt =====
-- What the replay table decides, and the arithmetic of a receipt's lifetime.
use limnopulse.Prelude.{
  ◌+◌, ◌*◌, ◌≤◌, ◌<◌, ◌≡◌, ◌↔◌, ◌⊎◌, true, some, arith, if◌then◌else◌, leb, ◌==◌,
}
use limnopulse.Ingest.{Ident, Instant, Versions}
use limnopulse.Ingest.Receipt.{
  Delta, epoch_microseconds, receipt_ttl_us, receipt_expires_at, Receipt, validate_receipt,
  new_ingress_receipt, is_ingress_receipt_live, ReceiptAction, decide_receipt_replay,
}

-- A normalised delta: less than a day of seconds, less than a second of microseconds.
pub record IsNormal (d : Delta) : Type 0 where
  pub seconds_bound : d.seconds < 86400
  pub microseconds_bound : d.microseconds < 1000000

-- `datetime` compares deltas field by field, the days first.
abbrev pub Before : Delta → Delta → Type 0
Before d e =
    (d.days < e.days)
    ⊎ ((d.days ≡ e.days) × (d.seconds < e.seconds))
    ⊎ ((d.days ≡ e.days) × (d.seconds ≡ e.seconds) × (d.microseconds < e.microseconds))

-- The epoch microseconds of two normalised instants are ordered exactly as the instants are.
pub epoch_microseconds-lt_iff :
    (d e : Delta)
    → IsNormal d
    → IsNormal e
    → (epoch_microseconds d < epoch_microseconds e) ↔ Before d e
unfolding epoch_microseconds
epoch_microseconds-lt_iff d e hd he = (λ h. omega arith, λ h. omega arith)

-- A receipt is live exactly while less than 24 hours have passed since it was created.
pub live_iff :
    (r : Receipt) (now : Instant)
    → (is_ingress_receipt_live r now ≡ true) ↔ (now < r.created_at_us + receipt_ttl_us)
unfolding is_ingress_receipt_live
live_iff r now = ground arith

-- A new receipt is valid, and its TTL attribute stands within a second after its 24 hours.
pub new_ingress_receipt-IsValid :
    (account tenant key request ingress : Ident) (received : Instant) (v : Versions) (t : Instant)
    → let r = new_ingress_receipt account tenant key request ingress received v t in
      (validate_receipt r ≡ true)
      × (t + receipt_ttl_us ≤ r.expires_at * 1000000)
      × (r.expires_at * 1000000 < t + receipt_ttl_us + 1000000)
unfolding validate_receipt new_ingress_receipt receipt_expires_at
new_ingress_receipt-IsValid account tenant key request ingress received v t =
    (ground arith, omega arith, omega arith)

-- What the table decides on a receipt that was created at `t` and is still pending: from 24 hours
-- on it admits the request again; before, it resumes the same request and refuses another.
pub decide-new_ingress_receipt :
    (account tenant key request ingress : Ident) (received : Instant) (v : Versions) (t : Instant)
    (request' : Ident) (now : Instant)
    → decide_receipt_replay
        (some (new_ingress_receipt account tenant key request ingress received v t))
        request'
        now
      ≡ (if leb (t + receipt_ttl_us) now
          then ReceiptAction.admit
          else if request == request'
          then ReceiptAction.resume
          else ReceiptAction.conflict)
unfolding decide_receipt_replay new_ingress_receipt
decide-new_ingress_receipt account tenant key request ingress received v t request' now =
    ground arith
