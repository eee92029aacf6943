-- ===== src/Ingest/Trust/Mapping.antt =====
-- `TrustedMappingService` of services/trusted_mapping.py, over the reads that it is given. A read
-- that raises ends the call, so a failed read is never a denial or a fence.
pub mod Laws
pub mod Fences
use limnopulse.Prelude.{
  ℕ, Bool, true, false, not, ◌&&◌, Option, none, some, List, [], ◌∷◌, ltb, ◌==◌, if◌then◌else◌,
}
use limnopulse.Calls.{Call, ◌>>=◌, pure, raise}
use limnopulse.Status.{ComponentStatus}
use limnopulse.Ingest.{
  Ident, Account, Integration, Device, Component, Source, IngestObservation, Batch, Observation,
  Envelope,
}
use limnopulse.Ingest.Trust.{
  AdmissionDenied, Denial, Blocked, classify_admission, classify_fence, owned_by, matches_envelope,
  Selection, resolved, denied, resolve_component_selectors, TrustedContext, build_trusted_context,
}

-- `IngressAdmission`
pub record Admission : Type 0 where
  pub source : Source
  pub device_integration : Integration
  pub device : Device
  pub observations : List Observation

-- `IngressAdmission | IngressDenial`
pub data Admitted : Type 0 where
  admission : Admission → Admitted
  denial : Denial → Admitted

-- `TrustedIngress | IngressFence | IngressDefer`
pub data Fenced : Type 0 where
  trusted : TrustedContext → List Observation → Fenced
  blocked : Blocked → Fenced

-- The rows behind the service, and the derived identifiers, which are hashes.
pub record Readers (W : Type 0) : Type 0 where
  pub resolve_external_identity : Ident → Ident → Call W (Option Integration)
  pub get_integration_account : Ident → Ident → Call W (Option Account)
  pub get_device : Ident → Ident → Call W (Option Device)
  pub get_component : Ident → Ident → Call W (Option Component)
  pub account_scoped_identity_hash : Ident → Ident → Ident → Ident
  pub default_component_id : Ident → Ident → Ident

-- a sorted set
unfoldable pub insert_sorted : Ident → List Ident → List Ident
insert_sorted c [] = c ∷ []
insert_sorted c (d ∷ ds) =
    if c == d then d ∷ ds else if ltb c d then c ∷ d ∷ ds else d ∷ insert_sorted c ds

-- `sorted(wanted)`: the components that the observations select
unfoldable pub wanted : Ident → List IngestObservation → List Ident
unfolding insert_sorted
wanted default [] = []
wanted default (o ∷ os) =
    let rest = wanted default os in
    elim o.component_id [ none ↦ insert_sorted default rest | some c ↦ insert_sorted c rest ]

abbrev pub is_active_component : ComponentStatus → Bool
is_active_component s = elim s [ ComponentStatus.active ↦ true | _ ↦ false ]

unfoldable pub serves : Integration → Option Component → Bool
serves integration none = false
serves integration (some component) =
    component.tenant_id == integration.tenant_id
    && component.device_id == integration.device_id
    && is_active_component component.status

-- `{**item.model_dump(mode="json"), "component_id": component_id}`, over `zip(..., strict=True)`
unfoldable pub with_components : List IngestObservation → List Ident → List Observation
with_components (o ∷ os) (c ∷ cs) =
    record { component_id = c; reading = o.reading } ∷ with_components os cs
with_components _ _ = []

unfoldable pub selection_result :
    Source → List IngestObservation → Integration → Device → Selection → Admitted
unfolding with_components
selection_result source observations integration device (denied d) = denial d
selection_result source observations integration device (resolved cs) = admission (record {
  source = source;
  device_integration = integration;
  device = device;
  observations = with_components observations cs;
})

module _ {W : Type 0} (readers : Readers W) where
  open readers use {
    resolve_external_identity, get_integration_account, get_device, get_component,
    account_scoped_identity_hash, default_component_id,
  }

  -- the loop over the wanted components
  unfoldable pub active_components : Integration → List Ident → Call W (List Ident)
  unfolding serves
  active_components integration [] = pure []
  active_components integration (c ∷ cs) = get_component integration.tenant_id c >>= λ component.
      active_components integration cs >>= λ active.
      pure (if serves integration component then c ∷ active else active)

  unfoldable pub resolve_components : Source → Batch → Integration → Device → Call W Admitted
  unfolding active_components wanted selection_result
  resolve_components source batch integration device =
      let default = default_component_id integration.tenant_id integration.device_id in
      active_components integration (wanted default batch.observations) >>= λ active. pure (
        selection_result source batch.observations integration device
          (resolve_component_selectors batch.observations default active))

  -- `IngressDenial(reason=...)`, whose validation refuses a missing reason
  unfoldable pub deny : Option AdmissionDenied → Call W Admitted
  deny none = raise
  deny (some reason) = pure (denial (record { reason = reason; observation_index = none }))

  -- `denied is not None`, or the components of the device
  unfoldable pub admit_decided :
      Source → Batch → Integration → Device → Option AdmissionDenied → Call W Admitted
  unfolding resolve_components deny
  admit_decided source batch integration device (some reason) = deny (some reason)
  admit_decided source batch integration device none =
      resolve_components source batch integration device

  -- after the account and the device are read; `IngressAdmission` refuses a missing device
  unfoldable pub admit_rows :
      Source → Batch → Integration → Option Account → Option Device → Call W Admitted
  unfolding deny admit_decided
  admit_rows source batch integration account none =
      deny (classify_admission source (some integration) account none)
  admit_rows source batch integration account (some device) =
      admit_decided source batch integration device
        (classify_admission source (some integration) account (some device))

  unfoldable pub admit_integration : Source → Batch → Option Integration → Call W Admitted
  unfolding admit_rows deny
  admit_integration source batch none = deny (classify_admission source none none none)
  admit_integration source batch (some integration) =
      if not (owned_by integration source)
      then deny (classify_admission source (some integration) none none)
      else (get_integration_account source.tenant_id source.integration_account_id >>= λ account.
          get_device integration.tenant_id integration.device_id >>= λ device.
          admit_rows source batch integration account device)

  unfoldable pub admit : Source → Batch → Call W Admitted
  unfolding admit_integration
  admit source batch =
      resolve_external_identity source.provider_key (
        account_scoped_identity_hash source.provider_key source.integration_account_id
          batch.external_device_id)
      >>= admit_integration source batch

  -- the device is read only for a row that matches the envelope
  unfoldable pub fence_device_read : Envelope → Option Integration → Call W (Option Device)
  fence_device_read envelope none = pure none
  fence_device_read envelope (some integration) =
      if matches_envelope integration envelope
      then get_device integration.tenant_id integration.device_id
      else pure none

  -- `build_trusted_context` reads the integration row, and raises where there is none
  unfoldable pub fence_result : Envelope → Option Integration → Option Blocked → Call W Fenced
  fence_result envelope integration (some b) = pure (blocked b)
  fence_result envelope none none = raise
  fence_result envelope (some integration) none =
      pure (trusted (build_trusted_context envelope integration) envelope.observations)

  unfoldable pub fence : Envelope → Call W Fenced
  unfolding fence_device_read fence_result
  fence envelope =
      resolve_external_identity envelope.provider_key envelope.external_identity_hash
      >>= λ integration.
          get_integration_account envelope.tenant_id envelope.integration_account_id >>= λ account.
          fence_device_read envelope integration >>= λ device.
          fence_result envelope integration (classify_fence envelope integration account device)
