-- ===== src/Deployments/Timeline/Start.antt =====
-- The start transaction keeps the timeline of every component.
use limnopulse.Prelude.{
  ◌≡◌, refl, true, false, Option, none, some, List, [], ◌∷◌, ◌==◌, Bool-cases, inl, inr, ==_iff,
  arith,
}
use limnopulse.Ingest.{Ident, Instant}
use limnopulse.Status.{DeploymentStatus}
use limnopulse.Idempotency.{IdempotencyReceipt}
use limnopulse.Deployments.{Deployment, validate_interval, Marker, Store, put_row}
use limnopulse.Deployments.Commits.{
  StartPlan, starts_before, start_marker_allowed, start_marker, start_conflict, start_writes,
}
use limnopulse.Deployments.Timeline.{IsInterval, Follows, Chain, open_head, Covers, Sound}

-- A history without an open interval ends where its marker says, so a start that the marker allows
-- follows it.
marker-Follows :
    (d : Deployment) (observed stored : Option Marker) (h : List Deployment)
    → Chain h
    → open_head h ≡ none
    → Covers stored h
    → start_marker_allowed d observed stored ≡ true
    → Follows d.started_at h
unfolding start_marker_allowed starts_before
marker-Follows d observed stored [] chain closed covered ok = tt
marker-Follows d observed stored (p ∷ ps) chain closed covered ok = ground arith

put_row-head :
    (d : Deployment) (h : List Deployment) → Chain h → Follows d.started_at h → put_row d h ≡ d ∷ h
unfolding put_row
put_row-head d [] chain follows = refl
put_row-head d (p ∷ ps) chain follows = ground arith

start_marker-Covers :
    (d : Deployment) (plan : StartPlan) (stored : Option Marker) (h : List Deployment)
    → d.ended_at ≡ none
    → Covers stored h
    → start_marker_allowed d plan.observed stored ≡ true
    → Covers (some (start_marker d plan stored)) (d ∷ h)
unfolding start_marker start_marker_allowed
start_marker-Covers d plan stored [] running covered ok = ground arith
start_marker-Covers d plan stored (p ∷ ps) running covered ok = ground arith

-- what the conditions that hold say of the pointer and the marker
start_conflict-none :
    (now : Instant) (plan : StartPlan) (d : Deployment) (receipt : IdempotencyReceipt Deployment)
    (s : Store)
    → start_conflict now plan d receipt s ≡ none
    → (s.current d.component_id ≡ none)
      × (start_marker_allowed d plan.observed (s.marker d.component_id) ≡ true)
unfolding start_conflict
start_conflict-none now plan d receipt s h = ground arith

validate_interval-active :
    (d : Deployment)
    → validate_interval d ≡ true
    → d.status ≡ DeploymentStatus.active
    → (d.ended_at ≡ none) × IsInterval d
unfolding validate_interval
validate_interval-active d valid active = ground arith

start_writes-same :
    (now : Instant) (plan : StartPlan) (d : Deployment) (receipt : IdempotencyReceipt Deployment)
    (s : Store)
    → validate_interval d ≡ true
    → d.status ≡ DeploymentStatus.active
    → start_conflict now plan d receipt s ≡ none
    → Sound s d.component_id
    → Sound (start_writes plan d receipt s) d.component_id
unfolding start_writes
start_writes-same now plan d receipt s valid active ok sound =
    let (free, allowed) = start_conflict-none now plan d receipt s ok in
    let (running, interval) = validate_interval-active d valid active in
    let closed : open_head (s.history d.component_id) ≡ none = cc (sound.pointer, free) in
    let follows =
      marker-Follows d plan.observed (s.marker d.component_id) (s.history d.component_id)
        sound.chain closed sound.covered allowed in
    let head = put_row-head d (s.history d.component_id) sound.chain follows in
    let same = (==_iff d.component_id d.component_id).1 refl in
    record {
      chain = rw (same, head) (interval, (follows, sound.chain));
      pointer = rw (same, head, active) refl;
      covered =
          rw (same, head)
            (start_marker-Covers d plan (s.marker d.component_id) (s.history d.component_id) running
              sound.covered allowed);
    }

-- the rows of another component are left alone
start_writes-other :
    (plan : StartPlan) (d : Deployment) (receipt : IdempotencyReceipt Deployment) (s : Store)
    (c : Ident)
    → (c == d.component_id) ≡ false
    → Sound s c
    → Sound (start_writes plan d receipt s) c
unfolding start_writes
start_writes-other plan d receipt s c other sound = record {
  chain = rw other sound.chain;
  pointer = rw other sound.pointer;
  covered = rw other sound.covered;
}

-- Whatever was read before it, a start transaction that is carried out keeps every timeline.
pub start_writes-Sound :
    (now : Instant) (plan : StartPlan) (d : Deployment) (receipt : IdempotencyReceipt Deployment)
    (s : Store) (c : Ident)
    → validate_interval d ≡ true
    → d.status ≡ DeploymentStatus.active
    → start_conflict now plan d receipt s ≡ none
    → Sound s d.component_id
    → Sound s c
    → Sound (start_writes plan d receipt s) c
start_writes-Sound now plan d receipt s c valid active ok own sound =
    elim (Bool-cases (c == d.component_id)) [
      | inl same ↦
          rw ((==_iff c d.component_id).0 same)
            (start_writes-same now plan d receipt s valid active ok own)
      | inr other ↦ start_writes-other plan d receipt s c other sound
    ]
