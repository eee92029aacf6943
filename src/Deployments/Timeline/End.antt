-- ===== src/Deployments/Timeline/End.antt =====
-- The end transaction keeps the timeline of every component.
use limnopulse.Prelude.{
  ℕ, ◌≡◌, refl, true, false, Option, some, List, [], ◌∷◌, ◌==◌, Bool-cases, Option-cases, inl, inr,
  ==_iff, arith,
}
use limnopulse.Ingest.{Ident, Instant}
use limnopulse.Deployments.{
  Deployment, is_active, validate_interval, Marker, Store, has_key, update_row,
}
use limnopulse.Deployments.Commits.{
  ok, ended_deployment, end_row, advance_allowed, advance_marker, end_writes, commit_end, bind_row,
}
use limnopulse.Deployments.Timeline.{IsInterval, Follows, Chain, Covers, Sound}

-- How an update of an active row changed a history: it was the latest one.
pub record HeadUpdate (t : Instant) (id : Ident) (f : Deployment → Option Deployment)
    (h h' : List Deployment) : Type 0 where
  pub before : Deployment
  pub after : Deployment
  pub rest : List Deployment
  pub was : h ≡ before ∷ rest
  pub is : h' ≡ after ∷ rest
  pub key : has_key t id before ≡ true
  pub changed : f before ≡ some after

-- no row behind the latest one is active
tail_closed :
    (current ended d : Deployment) (ds ds' : List Deployment)
    → Follows d.started_at ds
    → HeadUpdate current.started_at current.deployment_id (end_row current ended) ds ds'
    → Chain ds
    → ⊥
unfolding end_row
tail_closed current ended d [] ds' follows u chain = let e = u.was in ground arith
tail_closed current ended d (p ∷ ps) ds' follows u chain =
    let e = u.was in let c = u.changed in ground arith

update_row-HeadUpdate :
    (current ended : Deployment) (h h' : List Deployment)
    → Chain h
    → update_row current.started_at current.deployment_id (end_row current ended) h ≡ some h'
    → HeadUpdate current.started_at current.deployment_id (end_row current ended) h h'
unfolding update_row
update_row-HeadUpdate current ended [] h' chain e = ground arith
update_row-HeadUpdate current ended (d ∷ ds) h' chain e =
    elim (Bool-cases (has_key current.started_at current.deployment_id d)) [
      | inl here ↦ elim (Option-cases (end_row current ended d)) [
        | inl refused ↦ ground arith
        | inr (d', changed) ↦ record {
          before = d;
          after = d';
          rest = ds;
          was = refl;
          is = ground arith;
          key = here;
          changed = changed;
        }
      ]
      | inr there ↦
          elim (Option-cases
            (update_row current.started_at current.deployment_id (end_row current ended) ds)) [
              | inl refused ↦ ground arith
              | inr (ds', changed) ↦ absurd (
                  tail_closed current ended d ds ds' chain.1.0
                    (update_row-HeadUpdate current ended ds ds' chain.1.1 changed) chain.1.1)
            ]
    ]

commit_end-ok :
    (current ended x : Deployment) (observed : Option Marker) (ended_at : Instant) (s : Store)
    → (commit_end current ended observed ended_at s).0 ≡ ok x
    → (history : List Deployment) × (row : Deployment) × (update_row current.started_at
          current.deployment_id
          (end_row current ended)
          (s.history current.component_id)
        ≡ some history)
      × (advance_allowed current.tenant_id observed (s.marker current.component_id) ≡ true)
      × ((commit_end current ended observed ended_at s).1
          ≡ end_writes current row history observed ended_at s)
unfolding commit_end
commit_end-ok current ended x observed ended_at s h =
    elim (Option-cases (
      update_row current.started_at current.deployment_id (end_row current ended)
        (s.history current.component_id))) [
          | inl missing ↦ ground arith
          | inr (history, found) ↦
              elim (Option-cases (
                bind_row (s.mirror current.tenant_id current.deployment_id)
                  (end_row current ended))) [
                    | inl missing ↦ ground arith
                    | inr (row, mirrored) ↦ (history, row, found, ground arith, ground arith)
                  ]
        ]

-- What an end writes into the row: its status and its end, whose interval is not empty.
end_row-IsInterval :
    (seen : Deployment) (version : ℕ) (ended_at now : Instant) (d d' : Deployment)
    → validate_interval (ended_deployment seen version ended_at now) ≡ true
    → has_key seen.started_at seen.deployment_id d ≡ true
    → end_row seen (ended_deployment seen version ended_at now) d ≡ some d'
    → IsInterval d'
      × (d'.ended_at ≡ some ended_at)
      × (d'.started_at ≡ d.started_at)
      × (is_active d'.status ≡ false)
unfolding validate_interval ended_deployment end_row
end_row-IsInterval seen version ended_at now d d' valid key e = ground arith

advance_marker-Covers :
    (tenant component : Ident) (observed : Option Marker) (t : Instant) (d : Deployment)
    (ds : List Deployment)
    → d.ended_at ≡ some t
    → Covers (some (advance_marker tenant component observed t)) (d ∷ ds)
unfolding advance_marker
advance_marker-Covers tenant component observed t d ds ends = ground arith

end_writes-same :
    (seen row : Deployment) (version : ℕ) (ended_at now : Instant) (history : List Deployment)
    (observed : Option Marker) (s : Store)
    → let ended = ended_deployment seen version ended_at now in
      validate_interval ended ≡ true
      → update_row seen.started_at seen.deployment_id
          (end_row seen ended)
          (s.history seen.component_id)
        ≡ some history
      → Sound s seen.component_id
      → Sound (end_writes seen row history observed ended_at s) seen.component_id
unfolding end_writes advance_marker
end_writes-same seen row version ended_at now history observed s valid found sound =
    let ended = ended_deployment seen version ended_at now in
    let u =
      update_row-HeadUpdate seen ended (s.history seen.component_id) history sound.chain found in
    let (interval, ends, start, closed) =
      end_row-IsInterval seen version ended_at now u.before u.after valid u.key u.changed in
    let chain : Chain (u.before ∷ u.rest) = rw u.was at sound.chain in
    let same = (==_iff seen.component_id seen.component_id).1 refl in
    record {
      chain = rw (same, u.is) (interval, (rw start chain.1.0, chain.1.1));
      pointer = rw (same, u.is, closed) refl;
      covered =
          rw (same, u.is)
            (advance_marker-Covers seen.tenant_id seen.component_id observed ended_at u.after u.rest
              ends);
    }

end_writes-other :
    (seen row : Deployment) (history : List Deployment) (observed : Option Marker)
    (ended_at : Instant) (s : Store) (c : Ident)
    → (c == seen.component_id) ≡ false
    → Sound s c
    → Sound (end_writes seen row history observed ended_at s) c
unfolding end_writes
end_writes-other seen row history observed ended_at s c other sound = record {
  chain = rw other sound.chain;
  pointer = rw other sound.pointer;
  covered = rw other sound.covered;
}

-- Whatever was read before it, an end transaction that is carried out keeps every timeline.
pub commit_end-Sound :
    (seen x : Deployment) (version : ℕ) (ended_at now : Instant) (observed : Option Marker)
    (s : Store) (c : Ident)
    → let ended = ended_deployment seen version ended_at now in
      validate_interval ended ≡ true
      → (commit_end seen ended observed ended_at s).0 ≡ ok x
      → Sound s seen.component_id
      → Sound s c
      → Sound (commit_end seen ended observed ended_at s).1 c
commit_end-Sound seen x version ended_at now observed s c valid done own sound =
    let ended = ended_deployment seen version ended_at now in
    let (history, row, found, allowed, wrote) =
      commit_end-ok seen ended x observed ended_at s done in
    rw wrote (elim (Bool-cases (c == seen.component_id)) [
      | inl same ↦
          rw ((==_iff c seen.component_id).0 same)
            (end_writes-same seen row version ended_at now history observed s valid found own)
      | inr other ↦ end_writes-other seen row history observed ended_at s c other sound
    ])
