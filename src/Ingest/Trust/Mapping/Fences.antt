-- ===== src/Ingest/Trust/Mapping/Fences.antt =====
-- What `fence` of services/trusted_mapping.py answers: the decision on the rows that it read.
use limnopulse.Prelude.{
  ◌≡◌, refl, Bool, true, false, Bool-cases, Option, none, some, List, inl, inr, if◌then◌else◌,
}
use limnopulse.Calls.{pure}
use limnopulse.Calls.Returns.{Returns, Returns-pure, Returns-raise, Returns-bind}
use limnopulse.Ingest.{Ident, Account, Integration, Device, Observation, Envelope}
use limnopulse.Ingest.Trust.{
  Blocked, classify_fence, matches_envelope, TrustedContext, build_trusted_context,
}
use limnopulse.Ingest.Trust.Mapping.{
  Readers, Fenced, trusted, blocked, fence_device_read, fence_result, fence,
}
use limnopulse.Ingest.Trust.Mapping.Laws.{Rows, ReadsRows}

-- The rows that stand behind an envelope.
abbrev pub integration_of : Rows → Envelope → Option Integration
integration_of rows e = rows.integration e.provider_key e.external_identity_hash

abbrev pub device_of : Rows → Option Integration → Option Device
device_of rows none = none
device_of rows (some i) = rows.device i.tenant_id i.device_id

-- The decision on these rows.
abbrev pub decision_of : Rows → Envelope → Option Blocked
decision_of rows e =
    classify_fence e (integration_of rows e) (rows.account e.tenant_id e.integration_account_id)
      (device_of rows (integration_of rows e))

-- The decision lets the envelope through, the observations are all those of the envelope, and the
-- context is that of its integration row.
abbrev pub IsResolved : Rows → Envelope → TrustedContext → List Observation → Type 0
IsResolved rows e c os =
    (decision_of rows e ≡ none)
    × (os ≡ e.observations)
    × (i : Integration) × (integration_of rows e ≡ some i)
    × (c ≡ build_trusted_context e i)

abbrev pub IsAnswer : Rows → Envelope → Fenced → Type 0
IsAnswer rows e (blocked b) = decision_of rows e ≡ some b
IsAnswer rows e (trusted c os) = IsResolved rows e c os

-- The device row is read only where the integration is the envelope's.
abbrev pub DeviceRead : Rows → Envelope → Option Integration → Option Device → Type 0
DeviceRead rows e none d = d ≡ none
DeviceRead rows e (some i) d =
    d ≡ (if matches_envelope i e then rows.device i.tenant_id i.device_id else none)

module _ {W : Type 0} (readers : Readers W) (rows : Rows) (reads : ReadsRows readers rows) where
  device_tested :
      (i : Integration) (own : Bool)
      → Returns
          (if own then readers.get_device i.tenant_id i.device_id else pure none)
          (λ d. d ≡ (if own then rows.device i.tenant_id i.device_id else none))
  device_tested i true = record { at = reads.device_read i.tenant_id i.device_id }
  device_tested i false = Returns-pure none refl

  device_read_lem :
      (e : Envelope) (o : Option Integration)
      → Returns (fence_device_read readers e o) (DeviceRead rows e o)
  unfolding fence_device_read
  device_read_lem e none = Returns-pure none refl
  device_read_lem e (some i) = device_tested i (matches_envelope i e)

  -- an integration that is not the envelope's is decided on before its device is looked at
  classify_fence-device :
      (e : Envelope) (o : Option Integration) (a : Option Account) (d : Option Device)
      → DeviceRead rows e o d
      → classify_fence e o a d ≡ classify_fence e o a (device_of rows o)
  unfolding classify_fence
  classify_fence-device e none a d h = refl
  classify_fence-device e (some i) a d h = elim (Bool-cases (matches_envelope i e)) [
    | inl own ↦ rw (rw own at h) refl
    | inr other ↦ rw other refl
  ]

  result-IsAnswer :
      (e : Envelope) (o : Option Integration) (b : Option Blocked)
      → integration_of rows e ≡ o
      → decision_of rows e ≡ b
      → Returns (fence_result readers e o b) (IsAnswer rows e)
  unfolding fence_result
  result-IsAnswer e o (some b) read said = Returns-pure (blocked b) said
  result-IsAnswer e none none read said = Returns-raise
  result-IsAnswer e (some i) none read said =
      Returns-pure (trusted (build_trusted_context e i) e.observations) (said, refl, i, read, refl)

  integration_lem :
      (p h : Ident)
      → Returns (readers.resolve_external_identity p h) (λ o. o ≡ rows.integration p h)
  integration_lem p h = record { at = reads.integration_read p h }

  account_lem :
      (t a : Ident) → Returns (readers.get_integration_account t a) (λ o. o ≡ rows.account t a)
  account_lem t a = record { at = reads.account_read t a }

  -- What `fence` answers is the decision on the rows behind the envelope: it blocks just as that says,
  -- and it resolves only what is let through, to all the envelope's observations and the context of its
  -- integration row.
  pub fence-IsAnswer : (e : Envelope) → Returns (fence readers e) (IsAnswer rows e)
  unfolding fence
  fence-IsAnswer e =
      Returns-bind _ _ (integration_lem e.provider_key e.external_identity_hash) λ o found.
        Returns-bind _ _ (account_lem e.tenant_id e.integration_account_id) λ a held.
          Returns-bind _ _ (device_read_lem e o) λ d device.
            result-IsAnswer e o (classify_fence e o a d) (cc found)
              (rw (classify_fence-device e o a d device, found, held) refl)
