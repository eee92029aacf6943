-- ===== src/Ingest/Trust/Selectors.antt =====
-- What `resolve_component_selectors` returns: the selected components, or the first bad selector.
use limnopulse.Prelude.{
  ℕ, ◌+◌, ◌≡◌, refl, ◌↔◌, true, false, none, some, List, [], ◌∷◌, ◌++◌, map, arith, All, length,
  contains,
}
use limnopulse.Ingest.{Ident, IngestObservation}
use limnopulse.Ingest.Trust.{
  AdmissionDenied, Selection, resolved, denied, resolve_from, resolve_component_selectors,
}

-- The component that an observation selects.
abbrev pub selected : Ident → IngestObservation → Ident
selected default o = elim o.component_id [ none ↦ default | some c ↦ c ]

abbrev pub IsActive : List Ident → Ident → IngestObservation → Type 0
IsActive active default o = contains (selected default o) active ≡ true

abbrev pub selector_denial : IngestObservation → AdmissionDenied
selector_denial o = elim o.component_id [
  | none ↦ AdmissionDenied.component_required
  | some c ↦ AdmissionDenied.component_invalid
]

abbrev IsResolved : Selection → Type 0
IsResolved (resolved cs) = Unit
IsResolved (denied d) = ⊥

module _ (default : Ident) (active : List Ident) where
  resolve_from_active :
      (n : ℕ) (os : List IngestObservation)
      → All (IsActive active default) os
      → resolve_from n default active os ≡ resolved (map (selected default) os)
  unfolding resolve_from
  resolve_from_active n [] h = refl
  resolve_from_active n (o ∷ os) h = ground (arith, resolve_from_active (n + 1) os h.1)

  resolve_from_resolved :
      (n : ℕ) (os : List IngestObservation)
      → IsResolved (resolve_from n default active os)
      → All (IsActive active default) os
  unfolding resolve_from
  resolve_from_resolved n [] h = tt
  resolve_from_resolved n (o ∷ os) h = ground (arith, resolve_from_resolved (n + 1) os)

  -- what a denial says: everything before its index is fine, and the observation there is not
  resolve_from-denied :
      (n : ℕ) (before : List IngestObservation) (o : IngestObservation)
      (after : List IngestObservation)
      → All (IsActive active default) before
      → contains (selected default o) active ≡ false
      → resolve_from n default active (before ++ o ∷ after)
        ≡ denied
            (record { reason = selector_denial o; observation_index = some (n + length before) })
  unfolding resolve_from
  resolve_from-denied n [] o after h bad = ground arith
  resolve_from-denied n (b ∷ before) o after h bad =
      ground (arith, resolve_from-denied (n + 1) before o after h.1 bad)

module _ (os : List IngestObservation) (default : Ident) (active : List Ident) where
  -- The selectors resolve exactly when every selected component is active, and then to the selected
  -- components, one for each observation, in order.
  pub selectors-resolved_iff :
      (cs : List Ident)
      → (resolve_component_selectors os default active ≡ resolved cs)
        ↔ (All (IsActive active default) os × (cs ≡ map (selected default) os))
  unfolding resolve_component_selectors
  selectors-resolved_iff cs = (
    λ h.
        let ok = resolve_from_resolved default active 0 os (rw h tt) in
        (ok, cc (resolve_from_active default active 0 os ok)),
    λ h. cc (resolve_from_active default active 0 os h.0),
  )

-- The selectors are denied at the first observation whose component is not active: with its index,
-- as missing where it left the component out and as invalid where it named one.
pub selectors-denied :
    (before after : List IngestObservation) (o : IngestObservation) (default : Ident)
    (active : List Ident)
    → All (IsActive active default) before
    → contains (selected default o) active ≡ false
    → resolve_component_selectors (before ++ o ∷ after) default active
      ≡ denied (record { reason = selector_denial o; observation_index = some (length before) })
unfolding resolve_component_selectors
selectors-denied before after o default active ok bad =
    rw (resolve_from-denied default active 0 before o after ok bad) (ground arith)
