-- ===== src/Ingest/Trust/Decisions.antt =====
-- What the admission and fence tables decide, and how the two agree.
use limnopulse.Prelude.{◌≡◌, ◌≢◌, ◌↔◌, true, Bool, Option, none, some, arith}
use limnopulse.Status.{DeviceStatus, AccountStatus, IntegrationStatus}
use limnopulse.Status.{
  ensure_device_transition, ensure_account_transition, ensure_integration_transition,
}
use limnopulse.Status.Reach.{Reach, DeviceHistory-iff, AccountHistory-iff, IntegrationHistory-iff}
use limnopulse.Ingest.{Account, Integration, Device, Source, Envelope}
use limnopulse.Ingest.Trust.{https_direct, FenceReason, fence, classify_admission, classify_fence}

-- The rows under which the source may write for the device: one tenant, one account, all active.
pub record IsTrusted (s : Source) (i : Integration) (a : Account) (d : Device) : Type 0 where
  pub integration_tenant : i.tenant_id ≡ s.tenant_id
  pub integration_account : i.integration_account_id ≡ s.integration_account_id
  pub integration_provider : i.provider_key ≡ s.provider_key
  pub integration_active : i.status ≡ IntegrationStatus.active
  pub account_tenant : a.tenant_id ≡ s.tenant_id
  pub account_id : a.integration_account_id ≡ s.integration_account_id
  pub account_active : a.status ≡ AccountStatus.active
  pub account_https : a.provider_key ≡ https_direct
  pub device_tenant : d.tenant_id ≡ i.tenant_id
  pub device_id : d.device_id ≡ i.device_id
  pub device_active : d.status ≡ DeviceStatus.active

module _ (s : Source) (i : Integration) (a : Account) (d : Device) where
  admission_sound : classify_admission s (some i) (some a) (some d) ≡ none → IsTrusted s i a d
  unfolding classify_admission
  admission_sound h = ground arith

  admission_complete : IsTrusted s i a d → classify_admission s (some i) (some a) (some d) ≡ none
  unfolding classify_admission
  admission_complete h = ground arith

-- The three rows, when all of them are there.
abbrev pub TrustedRows : Source → Option Integration → Option Account → Option Device → Type 0
TrustedRows s (some i) (some a) (some d) = IsTrusted s i a d
TrustedRows s _ _ _ = ⊥

-- Admission denies nothing exactly when the integration, the account and the device are all there
-- and are the source's own, active, and of the HTTPS provider.
pub classify_admission_iff :
    (s : Source) (i : Option Integration) (a : Option Account) (d : Option Device)
    → (classify_admission s i a d ≡ none) ↔ TrustedRows s i a d
unfolding classify_admission
classify_admission_iff s (some i) (some a) (some d) =
    (admission_sound s i a d, admission_complete s i a d)
classify_admission_iff s i a d = (λ h. ground arith, λ h. elim h [ ])

-- The account row that was read is there, and its tenant and account are the envelope's.
abbrev pub IsEnvelopeAccount : Envelope → Option Account → Type 0
IsEnvelopeAccount e none = ⊥
IsEnvelopeAccount e (some a) =
    (a.tenant_id ≡ e.tenant_id) × (a.integration_account_id ≡ e.integration_account_id)

module _ (e : Envelope) (a : Account) (verified : Bool) where
  fence-some :
      (i : Option Integration) (d : Option Device) (reason : FenceReason)
      → classify_fence e i (some a) d ≡ some (fence reason verified)
      → (verified ≡ true) ↔ IsEnvelopeAccount e (some a)
  unfolding classify_fence
  fence-some i d reason h = (λ v. (ground arith, ground arith), λ own. ground arith)

-- A fence says that its account is verified exactly when the account row that was read is there, with
-- the tenant and the account of the envelope, whatever the reason of the fence.
pub classify_fence-verified_iff :
    (e : Envelope) (i : Option Integration) (a : Option Account) (d : Option Device)
    (reason : FenceReason) (verified : Bool)
    → classify_fence e i a d ≡ some (fence reason verified)
    → (verified ≡ true) ↔ IsEnvelopeAccount e a
unfolding classify_fence
classify_fence-verified_iff e i none d reason verified h = (λ v. ground arith, λ own. absurd own)
classify_fence-verified_iff e i (some a) d reason verified h = fence-some e a verified i d reason h

-- The envelope names the integration row: what the ingress writes into it.
pub record IsFor (e : Envelope) (s : Source) (i : Integration) : Type 0 where
  pub tenant : e.tenant_id ≡ s.tenant_id
  pub account : e.integration_account_id ≡ s.integration_account_id
  pub provider : e.provider_key ≡ i.provider_key
  pub hash : e.external_identity_hash ≡ i.external_identity_hash
  pub integration : e.device_integration_id ≡ i.device_integration_id
  pub device : e.device_id ≡ i.device_id

module _ (e : Envelope) (s : Source) (i : Integration) (a : Account) (d : Device) where
  -- An envelope of an admitted request is neither fenced nor deferred on the rows that admitted it.
  pub admitted_not_fenced :
      IsFor e s i
      → classify_admission s (some i) (some a) (some d) ≡ none
      → classify_fence e (some i) (some a) (some d) ≡ none
  unfolding classify_admission classify_fence
  admitted_not_fenced f h = ground arith

-- The integration row at a later time: what identifies it stays, the status has moved by accepted
-- transitions.
pub record LaterIntegration (i i' : Integration) : Type 0 where
  pub tenant : i'.tenant_id ≡ i.tenant_id
  pub account : i'.integration_account_id ≡ i.integration_account_id
  pub provider : i'.provider_key ≡ i.provider_key
  pub hash : i'.external_identity_hash ≡ i.external_identity_hash
  pub integration : i'.device_integration_id ≡ i.device_integration_id
  pub device : i'.device_id ≡ i.device_id
  pub history : Reach ensure_integration_transition i.status i'.status

pub record LaterAccount (a a' : Account) : Type 0 where
  pub tenant : a'.tenant_id ≡ a.tenant_id
  pub account : a'.integration_account_id ≡ a.integration_account_id
  pub provider : a'.provider_key ≡ a.provider_key
  pub history : Reach ensure_account_transition a.status a'.status

pub record LaterDevice (d d' : Device) : Type 0 where
  pub tenant : d'.tenant_id ≡ d.tenant_id
  pub device : d'.device_id ≡ d.device_id
  pub history : Reach ensure_device_transition d.status d'.status

-- A fence is terminal: an envelope that was fenced on rows that are there is never let through
-- again, however their statuses move on.
pub fence_terminal :
    (e : Envelope) (i i' : Integration) (a a' : Account) (d d' : Device) (reason : FenceReason)
    (verified : Bool)
    → classify_fence e (some i) (some a) (some d) ≡ some (fence reason verified)
    → LaterIntegration i i'
    → LaterAccount a a'
    → LaterDevice d d'
    → classify_fence e (some i') (some a') (some d') ≢ none
unfolding classify_fence
fence_terminal e i i' a a' d d' reason verified h li la ld = ground (
  arith,
  (IntegrationHistory-iff i.status i'.status).0 li.history,
  (AccountHistory-iff a.status a'.status).0 la.history,
  (DeviceHistory-iff d.status d'.status).0 ld.history,
)
