-- ===== src/Ingest/Trust/Mapping/Laws.antt =====
-- What an admission carries: the caller's source and mapping, and components of that mapping only.
use limnopulse.Prelude.{
  ◌≡◌, refl, true, Bool-cases, Option, none, some, List, [], ◌∷◌, map, arith, All, contains, inl,
  inr, if◌then◌else◌, ◌==◌, ==_iff,
}
use mathlib.Core.Path.{subst}
use limnopulse.Status.{ComponentStatus}
use limnopulse.Calls.{returned}
use limnopulse.Calls.Returns.{Returns, Returns-pure, Returns-raise, Returns-bind}
use limnopulse.Ingest.{
  Ident, Account, Integration, Device, Component, Source, IngestObservation, Batch, Observation,
  Reading,
}
use limnopulse.Ingest.Trust.{
  AdmissionDenied, owned_by, Selection, resolved, denied, resolve_component_selectors,
}
use limnopulse.Ingest.Trust.Decisions.{TrustedRows, classify_admission_iff}
use limnopulse.Ingest.Trust.Selectors.{selected, IsActive, selectors-resolved_iff}
use limnopulse.Ingest.Trust.Mapping.{
  Admission, Admitted, admission, denial, Readers, wanted, serves, with_components,
  selection_result, active_components, resolve_components, admit_decided, deny, admit_rows,
  admit_integration, admit,
}

-- The rows that the reads return, whenever they return.
pub record Rows : Type 0 where
  pub integration : Ident → Ident → Option Integration
  pub account : Ident → Ident → Option Account
  pub device : Ident → Ident → Option Device
  pub component : Ident → Ident → Option Component

pub record ReadsRows {W : Type 0} (readers : Readers W) (rows : Rows) : Type 0 where
  pub integration_read :
      (p h : Ident) (w : W) (o : Option Integration)
      → (readers.resolve_external_identity p h w).0 ≡ returned o
      → o ≡ rows.integration p h
  pub account_read :
      (t a : Ident) (w : W) (o : Option Account)
      → (readers.get_integration_account t a w).0 ≡ returned o
      → o ≡ rows.account t a
  pub device_read :
      (t d : Ident) (w : W) (o : Option Device)
      → (readers.get_device t d w).0 ≡ returned o
      → o ≡ rows.device t d
  pub component_read :
      (t c : Ident) (w : W) (o : Option Component)
      → (readers.get_component t c w).0 ≡ returned o
      → o ≡ rows.component t c

abbrev readings : Observation → Reading
readings o = o.reading

abbrev given_readings : IngestObservation → Reading
given_readings o = o.reading

readings-with_components :
    (pick : IngestObservation → Ident) (os : List IngestObservation)
    → map readings (with_components os (map pick os)) ≡ map given_readings os
unfolding with_components
readings-with_components pick [] = refl
readings-with_components pick (o ∷ os) = cc (readings-with_components pick os)

contains-All {κ} :
    (P : Ident → Type κ) (c : Ident) (cs : List Ident) → All P cs → contains c cs ≡ true → P c
contains-All P c [] h e = cc
contains-All P c (d ∷ cs) h e = elim (Bool-cases (d == c)) [
  | inl same ↦ subst P ((==_iff d c).0 same) h.0
  | inr other ↦ contains-All P c cs h.1 (rw other at e)
]

-- The component row is there, and it is an active one of the integration's device.
abbrev pub IsServing : Integration → Option Component → Type 0
IsServing i none = ⊥
IsServing i (some c) =
    (c.tenant_id ≡ i.tenant_id) × (c.device_id ≡ i.device_id) × (c.status ≡ ComponentStatus.active)

serves-IsServing : (i : Integration) (o : Option Component) → serves i o ≡ true → IsServing i o
unfolding serves
serves-IsServing i none h = ground arith
serves-IsServing i (some c) h = ground arith

module _ (rows : Rows) where
  abbrev pub Serving : Integration → Ident → Type 0
  Serving i c = IsServing i (rows.component i.tenant_id c)

  -- What an admission carries.
  abbrev pub Authorised : Source → Batch → Admission → Type 0
  Authorised s b a =
      (a.source ≡ s)
      × TrustedRows s (some a.device_integration)
          (rows.account s.tenant_id s.integration_account_id)
          (rows.device a.device_integration.tenant_id a.device_integration.device_id)
      × All (λ (o : Observation). Serving a.device_integration o.component_id) a.observations
      × (map readings a.observations ≡ map given_readings b.observations)

  abbrev AuthorisedIf : Source → Batch → Admitted → Type 0
  AuthorisedIf s b (denial d) = Unit
  AuthorisedIf s b (admission a) = Authorised s b a

module _ {W : Type 0} (readers : Readers W) (rows : Rows) (reads : ReadsRows readers rows) where
  component_Returns :
      (t c : Ident) → Returns (readers.get_component t c) (λ o. o ≡ rows.component t c)
  component_Returns t c = record { at = reads.component_read t c }

  account_Returns :
      (t a : Ident) → Returns (readers.get_integration_account t a) (λ o. o ≡ rows.account t a)
  account_Returns t a = record { at = reads.account_read t a }

  device_Returns : (t d : Ident) → Returns (readers.get_device t d) (λ o. o ≡ rows.device t d)
  device_Returns t d = record { at = reads.device_read t d }

  integration_Returns :
      (p h : Ident)
      → Returns (readers.resolve_external_identity p h) (λ o. o ≡ rows.integration p h)
  integration_Returns p h = record { at = reads.integration_read p h }

  active_components-Serving :
      (i : Integration) (cs : List Ident)
      → Returns (active_components readers i cs) (All (Serving rows i))
  unfolding active_components
  active_components-Serving i [] = Returns-pure [] tt
  active_components-Serving i (c ∷ cs) =
      Returns-bind _ _ (component_Returns i.tenant_id c) λ o found.
        Returns-bind _ _ (active_components-Serving i cs) λ active ok.
          Returns-pure (if serves i o then c ∷ active else active) (elim (Bool-cases (serves i o)) [
            | inl ok_row ↦ rw ok_row (subst (IsServing i) found (serves-IsServing i o ok_row), ok)
            | inr other ↦ rw other ok
          ])

  -- each observation got its selected component, and nothing else of it changed
  with_components-Serving :
      (i : Integration) (default : Ident) (active : List Ident) (os : List IngestObservation)
      → All (Serving rows i) active
      → All (IsActive active default) os
      → All
          (λ (o : Observation). Serving rows i o.component_id)
          (with_components os (map (selected default) os))
  unfolding with_components
  with_components-Serving i default active [] ok sel = tt
  with_components-Serving i default active (o ∷ os) ok sel = (
    contains-All (Serving rows i) (selected default o) active ok sel.0,
    with_components-Serving i default active os ok sel.1,
  )

  selection-Authorised :
      (s : Source) (b : Batch) (i : Integration) (d : Device) (active : List Ident)
      → (default : Ident) → All (Serving rows i) active
      → TrustedRows s
          (some i)
          (rows.account s.tenant_id s.integration_account_id)
          (rows.device i.tenant_id i.device_id)
      → (r : Selection) → resolve_component_selectors b.observations default active ≡ r
      → AuthorisedIf rows s b (selection_result s b.observations i d r)
  unfolding selection_result
  selection-Authorised s b i d active default ok rows_ok (denied x) e = tt
  selection-Authorised s b i d active default ok rows_ok (resolved cs) e =
      let (sel, same) = (selectors-resolved_iff b.observations default active cs).0 e in
      (
        refl,
        rows_ok,
        rw same (with_components-Serving i default active b.observations ok sel),
        rw same (readings-with_components (selected default) b.observations),
      )

  resolve-Authorised :
      (s : Source) (b : Batch) (i : Integration) (d : Device)
      → TrustedRows s
          (some i)
          (rows.account s.tenant_id s.integration_account_id)
          (rows.device i.tenant_id i.device_id)
      → Returns (resolve_components readers s b i d) (AuthorisedIf rows s b)
  unfolding resolve_components
  resolve-Authorised s b i d rows_ok =
      let default = readers.default_component_id i.tenant_id i.device_id in
      Returns-bind _ _ (active_components-Serving i (wanted default b.observations)) λ active ok.
        Returns-pure
          (selection_result s b.observations i d
            (resolve_component_selectors b.observations default active))
          (selection-Authorised s b i d active default ok rows_ok _ refl)

  deny-Authorised :
      (s : Source) (b : Batch) (o : Option AdmissionDenied)
      → Returns (deny readers o) (AuthorisedIf rows s b)
  unfolding deny
  deny-Authorised s b none = Returns-raise
  deny-Authorised s b (some r) =
      Returns-pure (denial (record { reason = r; observation_index = none })) tt

  decided-Authorised :
      (s : Source) (b : Batch) (i : Integration) (d : Device) (r : Option AdmissionDenied)
      → (r ≡ none
          → TrustedRows s
              (some i)
              (rows.account s.tenant_id s.integration_account_id)
              (rows.device i.tenant_id i.device_id))
      → Returns (admit_decided readers s b i d r) (AuthorisedIf rows s b)
  unfolding admit_decided
  decided-Authorised s b i d none ok = resolve-Authorised s b i d (ok refl)
  decided-Authorised s b i d (some r) ok = deny-Authorised s b (some r)

  rows-Authorised :
      (s : Source) (b : Batch) (i : Integration) (oa : Option Account) (od : Option Device)
      → oa ≡ rows.account s.tenant_id s.integration_account_id
      → od ≡ rows.device i.tenant_id i.device_id
      → Returns (admit_rows readers s b i oa od) (AuthorisedIf rows s b)
  unfolding admit_rows
  rows-Authorised s b i oa none ea ed = deny-Authorised s b _
  rows-Authorised s b i oa (some d) ea ed =
      decided-Authorised s b i d _
        λ e. rw (← ea, ← ed) ((classify_admission_iff s (some i) oa (some d)).0 e)

  integration-Authorised :
      (s : Source) (b : Batch) (o : Option Integration)
      → Returns (admit_integration readers s b o) (AuthorisedIf rows s b)
  unfolding admit_integration
  integration-Authorised s b none = deny-Authorised s b _
  integration-Authorised s b (some i) = elim (Bool-cases (owned_by i s)) [
    | inl own ↦ rw own (
        Returns-bind _ _ (account_Returns s.tenant_id s.integration_account_id) λ oa ea.
          Returns-bind _ _ (device_Returns i.tenant_id i.device_id)
            λ od ed. rows-Authorised s b i oa od ea ed)
    | inr other ↦ rw other (deny-Authorised s b _)
  ]

-- An admission that the service returns is the caller's: its source is the authenticated one, its
-- integration, account and device rows are that source's own and active, every observation is
-- assigned an active component of that device, and the readings are those of the request, in order.
pub admit-Authorised :
    {W : Type 0} (readers : Readers W) (rows : Rows)
    → ReadsRows readers rows
    → (s : Source) (b : Batch) (w : W) (a : Admission)
    → (admit readers s b w).0 ≡ returned (admission a)
    → Authorised rows s b a
unfolding admit
admit-Authorised readers rows reads s b w a h =
    let all : Returns (admit readers s b) (AuthorisedIf rows s b) =
      Returns-bind _ _ (integration_Returns readers rows reads s.provider_key _)
        (λ o e. integration-Authorised readers rows reads s b o) in
    all.at w (admission a) h
