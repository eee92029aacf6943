-- ===== src/Deployments/Timeline/Runs.antt =====
-- Any interleaving of starts and ends, by any number of workers.
use limnopulse.Prelude.{
  ℕ, ◌≡◌, refl, true, Option, none, [], Bool-cases, Option-cases, inl, inr, arith, ◌==◌, ◌≢◌,
}
use limnopulse.Ingest.{Ident, Instant}
use limnopulse.Status.{DeploymentStatus}
use limnopulse.Idempotency.{IdempotencyReceipt}
use limnopulse.Deployments.{
  Deployment, is_active, validate_interval, Marker, Parent, Store, get_deployment,
}
use limnopulse.Deployments.Commits.{
  Result, ok, conflict, not_found, invalid, StartPlan, start_conflict, commit_start, start_after,
  start_deployment, ended_deployment, commit_end, end_current, end_deployment,
}
use limnopulse.Deployments.Timeline.{Sound}
use limnopulse.Deployments.Timeline.Start.{start_writes-Sound}
use limnopulse.Deployments.Timeline.End.{commit_end-Sound}

-- A step of a worker whose reads saw any earlier stores, or of another writer that changes a component,
-- asset or site row.
infix 40 ◌⟶◌
pub data ◌⟶◌ : Store → Store → Type 0 where
  start :
      {s s' : Store} (now : Instant) (d : Deployment) (receipt : IdempotencyReceipt Deployment)
      (seen_marker seen_history : Store)
      → validate_interval d ≡ true
      → s' ≡ (start_deployment now d receipt seen_marker seen_history s).1
      → s ⟶ s'
  end :
      {s s' : Store} (now : Instant) (tenant id : Ident) (expected_version : ℕ) (ended_at : Instant)
      (seen seen_marker : Store)
      → s' ≡ (end_deployment now tenant id expected_version ended_at seen seen_marker s).1
      → s ⟶ s'
  parents :
      {s s' : Store} (component : Ident → Option Parent)
      (asset site : Ident → Ident → Option Parent)
      → s' ≡ record s { component = component; asset = asset; site = site }
      → s ⟶ s'

unfoldable pub empty : Store
empty = record {
  history = λ c. [];
  current = λ c. none;
  marker = λ c. none;
  mirror = λ t id. none;
  receipts = λ t k. none;
  component = λ c. none;
  asset = λ t a. none;
  site = λ t x. none;
}

pub data Reachable : Store → Type 0 where
  begin : {s : Store} → s ≡ empty → Reachable s
  next : {s s' : Store} → Reachable s → s ⟶ s' → Reachable s'

empty-Sound : (c : Ident) → Sound empty c
unfolding empty
empty-Sound c = record { chain = tt; pointer = refl; covered = tt }

commit_start-Sound :
    (now : Instant) (plan : StartPlan) (d : Deployment) (receipt : IdempotencyReceipt Deployment)
    (s : Store) (c : Ident)
    → validate_interval d ≡ true
    → d.status ≡ DeploymentStatus.active
    → ((k : Ident) → Sound s k)
    → Sound (commit_start now plan d receipt s).1 c
unfolding commit_start
commit_start-Sound now plan d receipt s c valid active sound =
    elim (Option-cases (start_conflict now plan d receipt s)) [
      | inl free ↦
          rw (free, commit_start)
            (start_writes-Sound now plan d receipt s c valid active free (sound d.component_id)
              (sound c))
      | inr (x, refused) ↦ rw (refused, commit_start) (sound c)
    ]

start_after-Sound :
    (now : Instant) (observed : Option Marker) (d : Deployment)
    (receipt : IdempotencyReceipt Deployment) (r : Result (Option Instant)) (s : Store) (c : Ident)
    → validate_interval d ≡ true
    → d.status ≡ DeploymentStatus.active
    → ((k : Ident) → Sound s k)
    → Sound (start_after now observed d receipt r s).1 c
unfolding start_after
start_after-Sound now observed d receipt (ok previous) s c valid active sound =
    commit_start-Sound now _ d receipt s c valid active sound
start_after-Sound now observed d receipt (conflict x) s c valid active sound = sound c
start_after-Sound now observed d receipt not_found s c valid active sound = sound c
start_after-Sound now observed d receipt invalid s c valid active sound = sound c

start_deployment-Sound :
    (now : Instant) (d : Deployment) (receipt : IdempotencyReceipt Deployment)
    (seen seen' s : Store) (c : Ident)
    → validate_interval d ≡ true
    → ((k : Ident) → Sound s k)
    → Sound (start_deployment now d receipt seen seen' s).1 c
unfolding start_deployment
start_deployment-Sound now d receipt seen seen' s c valid sound =
    elim (Bool-cases (is_active d.status)) [
      | inl active ↦ rw active (
          start_after-Sound now (seen.marker d.component_id) d receipt _ s c valid (ground arith)
            sound)
      | inr other ↦ rw other (sound c)
    ]

-- an end that is refused changes nothing
commit_end_refused :
    (current ended : Deployment) (observed : Option Marker) (ended_at : Instant) (s : Store)
    → ((x : Deployment) → (commit_end current ended observed ended_at s).0 ≢ ok x)
    → (commit_end current ended observed ended_at s).1 ≡ s
unfolding commit_end
commit_end_refused current ended observed ended_at s h = ground (arith, h ended)

commit_end-step :
    (current : Deployment) (version : ℕ) (ended_at now : Instant) (observed : Option Marker)
    (s : Store) (c : Ident) (r : Result Deployment)
    → validate_interval (ended_deployment current version ended_at now) ≡ true
    → ((k : Ident) → Sound s k)
    → (commit_end current (ended_deployment current version ended_at now) observed ended_at s).0 ≡ r
    → Sound
        (commit_end current (ended_deployment current version ended_at now) observed ended_at s).1
        c
commit_end-step current version ended_at now observed s c (ok x) valid sound e =
    commit_end-Sound current x version ended_at now observed s c valid e
      (sound current.component_id) (sound c)
commit_end-step current version ended_at now observed s c r valid sound e =
    rw
      (commit_end_refused current (ended_deployment current version ended_at now) observed ended_at
        s (λ x h. ground arith))
      (sound c)

end_found :
    (now : Instant) (version : ℕ) (ended_at : Instant) (current : Deployment)
    (observed : Option Marker) (s : Store) (c : Ident)
    → ((k : Ident) → Sound s k)
    → Sound (end_current now version ended_at current observed s).1 c
unfolding end_current
end_found now version ended_at current observed s c sound =
    elim (Bool-cases (is_active current.status)) [
      | inr other ↦ rw other (sound c)
      | inl active ↦ elim (Bool-cases (current.version == version)) [
        | inr other ↦ rw (active, other) (sound c)
        | inl same ↦
            elim (Bool-cases (validate_interval (ended_deployment current version ended_at now))) [
              | inr other ↦ rw (active, same, other) (sound c)
              | inl valid ↦
                  rw (active, same, valid)
                    (commit_end-step current version ended_at now observed s c _ valid sound refl)
            ]
      ]
    ]

end_deployment-Sound :
    (now : Instant) (tenant id : Ident) (version : ℕ) (ended_at : Instant) (seen seen' s : Store)
    (c : Ident)
    → ((k : Ident) → Sound s k)
    → Sound (end_deployment now tenant id version ended_at seen seen' s).1 c
unfolding end_deployment
end_deployment-Sound now tenant id version ended_at seen seen' s c sound =
    elim (Option-cases (get_deployment seen tenant id)) [
      | inl missing ↦ rw (missing, end_deployment) (sound c)
      | inr (current, found) ↦
          rw (found, end_deployment) (end_found now version ended_at current _ s c sound)
    ]

-- A step of any worker, whatever earlier stores its reads saw, keeps every timeline.
⟶-Sound : {s s' : Store} → s ⟶ s' → ((k : Ident) → Sound s k) → (c : Ident) → Sound s' c
⟶-Sound (start now d receipt seen seen' valid e) sound c =
    rw e (start_deployment-Sound now d receipt seen seen' _ c valid sound)
⟶-Sound (end now tenant id version ended_at seen seen' e) sound c =
    rw e (end_deployment-Sound now tenant id version ended_at seen seen' _ c sound)
⟶-Sound (parents component asset site e) sound c =
    rw e
      (record { chain = (sound c).chain; pointer = (sound c).pointer; covered = (sound c).covered })

-- In every store that starts and ends reach, in any interleaving and whatever earlier stores their
-- reads saw, the history of each component is a chain: every interval is well formed and starts no
-- earlier than the one before it ended, the current pointer holds the open interval or nothing, and the
-- marker's last end is no earlier than any end of the history.
pub Reachable-Sound : {s : Store} → Reachable s → (c : Ident) → Sound s c
Reachable-Sound (begin e) c = rw e (empty-Sound c)
Reachable-Sound (next r step) c = ⟶-Sound step (Reachable-Sound r) c
