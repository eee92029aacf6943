-- ===== src/Ingest/Service/Accepts/Refusals.antt =====
-- The refusals of a request, its admission and its entitlement: nothing is sent by then.
use limnopulse.Prelude.{
  ℕ, ◌≡◌, refl, ◌⊎◌, inl, inr, Bool, true, false, Bool-cases, Option, none, some, arith, ◌==◌,
  if◌then◌else◌,
}
use limnopulse.Ingest.{Source, Batch}
use limnopulse.Ingest.Trust.{AdmissionDenied, Denial}
use limnopulse.Ingest.Trust.Mapping.{Admission, Admitted, admission, denial}
use limnopulse.Ingest.Service.Answers.{RequestOutcome, Detail, Rejection, return, attempt}
use limnopulse.Ingest.Service.Collaborators.{
  Ports, plain, reject, unavailable, denied, deny, deny_component, is_component_denial,
}
use limnopulse.Ingest.Service.{admitted_or_deny, require_admission, check_entitlement}
use limnopulse.Ingest.Service.Accepts.Rules.{
  Ledger, PortLaws, Ends, Ends-bind, Ends-return, Ends-attempt,
}

module _ {W : Type 0} (ledger : Ledger W) (before : W) where
  -- nothing sent since the request came in
  abbrev pub Quiet : W → Type 0
  Quiet w = ledger.sent w ≡ ledger.sent before

  -- a refusal: nothing was sent, unless the service could not be reached
  abbrev pub Refused : Rejection → W → Type 0
  Refused r w = (r.status_code ≡ 503) ⊎ Quiet w

  -- the admission of the source's own request
  abbrev pub Own : Source → Admission → W → Type 0
  Own source a w = (a.source ≡ source) × Quiet w

  abbrev OwnIf : Source → Admitted → W → Type 0
  OwnIf source (admission a) w = Own source a w
  OwnIf source (denial d) w = Quiet w

module _ {W : Type 0} (ports : Ports W) (ledger : Ledger W) (laws : PortLaws ports ledger)
    (before : W) where
  module _ {A : Type 0} (Q : A → W → Type 0) where
    pub reject-Ends :
        (r : Rejection) (w : W)
        → Quiet ledger before w
        → Ends Q (Refused ledger before) (reject ports r w)
    unfolding reject
    reject-Ends r w q = record {
      at_served = λ a h. cc h;
      at_rejected = λ x h. inr (rw (laws.count_request_sent r.outcome w) q);
    }

    pub unavailable-Ends : (w : W) → Ends Q (Refused ledger before) (unavailable ports w)
    unfolding unavailable
    unavailable-Ends w = record { at_served = λ a h. cc h; at_rejected = λ x h. inl (ground arith) }

    denied-Ends :
        (reason : AdmissionDenied) (detail : Detail) (status : ℕ) (w : W)
        → Quiet ledger before w
        → Ends Q (Refused ledger before) (denied ports reason detail status w)
    unfolding denied
    denied-Ends reason detail status w q =
        reject-Ends
          (plain status detail
            (if status == 422 then RequestOutcome.invalid else RequestOutcome.forbidden))
          (ports.count_denied reason w) (rw (laws.count_denied_sent reason w) q)

    deny_component-Ends :
        (reason : AdmissionDenied) (index : Option ℕ) (w : W)
        → Quiet ledger before w
        → Ends Q (Refused ledger before) (deny_component ports reason index w)
    unfolding deny_component
    deny_component-Ends reason none w q = record {
      at_served = λ a h. cc h;
      at_rejected = λ x h. cc h;
    }
    deny_component-Ends reason (some i) w q = denied-Ends reason (Detail.component i reason) 422 w q

    deny-Ends :
        (d : Denial) (w : W)
        → Quiet ledger before w
        → Ends Q (Refused ledger before) (deny ports d w)
    unfolding deny
    deny-Ends d w q = elim (Bool-cases (is_component_denial d.reason)) [
      | inl c ↦ rw c (deny_component-Ends d.reason d.observation_index w q)
      | inr c ↦ rw c (denied-Ends d.reason Detail.forbidden 403 w q)
    ]

  module _ (source : Source) where
    Own-Ends :
        (r : Admitted) (w : W)
        → OwnIf ledger before source r w
        → Ends (Own ledger before source) (Refused ledger before) (admitted_or_deny ports r w)
    unfolding admitted_or_deny
    Own-Ends (admission a) w own = Ends-return _ _ a w own
    Own-Ends (denial d) w q = deny-Ends _ d w q

    OwnIf-of :
        (r : Admitted) (w : W)
        → Quiet ledger before w
        → ((a : Admission) → r ≡ admission a → a.source ≡ source)
        → OwnIf ledger before source r w
    OwnIf-of (admission a) w q own = (own a refl, q)
    OwnIf-of (denial d) w q own = q

    -- An admission that goes through is the source's own.
    pub admission-Ends :
        (b : Batch) (w : W)
        → Quiet ledger before w
        → Ends
            (Own ledger before source)
            (Refused ledger before)
            (require_admission ports source b w)
    unfolding require_admission
    admission-Ends b w q =
        let q' : Quiet ledger before (ports.admit source b w).1 =
          rw (laws.admit_sent source b w) q in
        Ends-bind (OwnIf ledger before source) _ _
          (attempt (ports.admit source b) (unavailable ports)) (admitted_or_deny ports) w
          (Ends-attempt _ _ (ports.admit source b) (unavailable ports) w
            (λ r e. OwnIf-of r _ q' (λ a same. laws.admit_source source b w a (cc (e, same))))
            (unavailable-Ends _ _))
          Own-Ends

    pub entitlement-Ends :
        (n : ℕ) (w : W)
        → Quiet ledger before w
        → Ends
            (λ _. Quiet ledger before)
            (Refused ledger before)
            (check_entitlement ports source n w)
    unfolding check_entitlement
    entitlement-Ends n w q =
        let ask = ports.allows source.tenant_id source.integration_account_id n in
        let q' : Quiet ledger before (ask w).1 =
          rw (laws.allows_sent source.tenant_id source.integration_account_id n w) q in
        Ends-bind (λ (_ : Bool). Quiet ledger before) _ _ (attempt ask (unavailable ports))
          (λ allowed.
            if allowed
            then return tt
            else denied ports AdmissionDenied.entitlement_denied Detail.forbidden 403)
          w (Ends-attempt _ _ ask (unavailable ports) w (λ r e. q') (unavailable-Ends _ _))
          (elim [
            | true ↦ λ w' q. Ends-return _ _ tt w' q
            | false ↦
                λ w' q. denied-Ends _ AdmissionDenied.entitlement_denied Detail.forbidden 403 w' q
          ])
