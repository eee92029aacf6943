-- ===== src/Deployments/Commits.antt =====
-- The reads and the transactions of `start_deployment` and `end_deployment`. What an operation read
-- before its transaction is an argument of the transaction: the store may have changed in between.
use limnopulse.Prelude.{
  set, set_pair, ℕ, ◌+◌, max, Bool, false, not, ◌&&◌, ◌||◌, Option, none, some, List, [], ◌∷◌,
  if◌then◌else◌, ltb, ◌==◌, is_some,
}
use limnopulse.Ingest.{Ident, Instant}
use limnopulse.Status.{DeploymentStatus}
use limnopulse.Idempotency.{IdempotencyReceipt, receipt_put_allowed}
use limnopulse.Deployments.{
  Deployment, is_active, validate_interval, Marker, Parent, Store, has_row, put_row, update_row,
  get_deployment,
}

-- The texts of the conflicts.
pub data Conflict : Type 0 where
  idempotency active_deployment overlap not_active version : Conflict
  component_inactive asset_inactive site_inactive already_exists changed_concurrently : Conflict

-- What an operation ends with: a value, `ConflictError`, `NotFoundError` or `ValueError`.
pub data Result {ℓ} (A : Type ℓ) : Type ℓ where
  ok : A → Result A
  conflict : Conflict → Result A
  not_found : Result A
  invalid : Result A

-- What a start read: the marker row, and the end of the latest history row.
pub record StartPlan : Type 0 where
  pub observed : Option Marker
  pub previous_ended_at : Option Instant

unfoldable pub starts_before : Instant → Option Instant → Bool
starts_before t none = false
starts_before t (some e) = ltb t e

-- `_ensure_after_previous`, on the marker and on the history as they were read
unfoldable pub ensure_after_previous :
    Deployment → Option Marker → List Deployment → Result (Option Instant)
unfolding starts_before
ensure_after_previous d marker history =
    if elim marker [ none ↦ false | some m ↦ starts_before d.started_at m.last_ended_at ]
    then conflict Conflict.overlap
    else elim history [
      | [] ↦ ok none
      | previous ∷ _ ↦ elim (previous.ended_at) [
        | none ↦ conflict Conflict.active_deployment
        | some e ↦ if ltb d.started_at e then conflict Conflict.overlap else ok (some e)
      ]
    ]

-- the condition of `_start_marker_request`
unfoldable pub start_marker_allowed : Deployment → Option Marker → Option Marker → Bool
unfolding starts_before
start_marker_allowed d none stored = not (is_some stored)
start_marker_allowed d (some observed) none = false
start_marker_allowed d (some observed) (some m) =
    m.seq == observed.seq
    && m.tenant_id == d.tenant_id
    && not (starts_before d.started_at m.last_ended_at)

-- the marker that `_start_marker_request` stores
unfoldable pub start_marker : Deployment → StartPlan → Option Marker → Marker
start_marker d plan stored = record {
  tenant_id = d.tenant_id;
  component_id = d.component_id;
  seq = elim (plan.observed) [ none ↦ 1 | some observed ↦ observed.seq + 1 ];
  last_ended_at = elim (plan.observed) [
    | none ↦ plan.previous_ended_at
    | some _ ↦ elim stored [ none ↦ none | some m ↦ m.last_ended_at ]
  ];
}

-- `_ACTIVE_TENANT_CONDITION`
unfoldable pub active_check : Ident → Option Parent → Bool
active_check tenant none = false
active_check tenant (some p) = p.active && p.tenant_id == tenant

-- the conditions of the start transaction, in the order in which `_classify_start_conflict` looks at
-- the ones that failed
unfoldable pub start_conflict :
    Instant → StartPlan → Deployment → IdempotencyReceipt Deployment → Store → Option Conflict
unfolding start_marker_allowed active_check receipt_put_allowed
start_conflict now plan d receipt s =
    if not (receipt_put_allowed now (s.receipts receipt.tenant_id receipt.key_hash))
    then some Conflict.idempotency
    else if is_some (s.current d.component_id)
    then some Conflict.active_deployment
    else if not (start_marker_allowed d plan.observed (s.marker d.component_id))
    then some Conflict.overlap
    else if not (active_check d.tenant_id (s.component d.component_id))
    then some Conflict.component_inactive
    else if not (active_check d.tenant_id (s.asset d.tenant_id d.asset_id))
    then some Conflict.asset_inactive
    else if not (active_check d.tenant_id (s.site d.tenant_id d.site_id))
    then some Conflict.site_inactive
    else if is_some (s.mirror d.tenant_id d.deployment_id)
        || has_row d.started_at d.deployment_id (s.history d.component_id)
    then some Conflict.already_exists
    else none

-- what the start transaction writes
unfoldable pub start_writes : StartPlan → Deployment → IdempotencyReceipt Deployment → Store → Store
unfolding start_marker
start_writes plan d receipt s = record s {
  mirror = set_pair d.tenant_id d.deployment_id (some d) s.mirror;
  history = set d.component_id (put_row d (s.history d.component_id)) s.history;
  current = set d.component_id (some d) s.current;
  marker = set d.component_id (some (start_marker d plan (s.marker d.component_id))) s.marker;
  receipts = set_pair receipt.tenant_id receipt.key_hash (some receipt) s.receipts;
}

-- the start transaction: all of its conditions hold, and it writes, or nothing changes
unfoldable pub commit_start :
    Instant
    → StartPlan
    → Deployment
    → IdempotencyReceipt Deployment
    → Store
    → Result Deployment × Store
unfolding start_conflict start_writes
commit_start now plan d receipt s = elim (start_conflict now plan d receipt s) [
  | none ↦ (ok d, start_writes plan d receipt s)
  | some c ↦ (conflict c, s)
]

-- the transaction, where `_ensure_after_previous` raised nothing
unfoldable pub start_after :
    Instant
    → Option Marker
    → Deployment
    → IdempotencyReceipt Deployment
    → Result (Option Instant)
    → Store
    → Result Deployment × Store
unfolding commit_start
start_after now observed d receipt (ok previous) s =
    commit_start now (record { observed = observed; previous_ended_at = previous }) d receipt s
start_after now observed d receipt (conflict c) s = (conflict c, s)
start_after now observed d receipt not_found s = (not_found, s)
start_after now observed d receipt invalid s = (invalid, s)

-- `start_deployment`, where the marker and the history are read from `seen_marker` and `seen_history`
unfoldable pub start_deployment :
    Instant
    → Deployment
    → IdempotencyReceipt Deployment
    → (seen_marker seen_history s : Store) → Result Deployment × Store
unfolding ensure_after_previous start_after
start_deployment now d receipt seen_marker seen_history s =
    if not (is_active d.status)
    then (invalid, s)
    else (let observed = seen_marker.marker d.component_id in
        start_after now observed d receipt
          (ensure_after_previous d observed (seen_history.history d.component_id)) s)

-- the deployment that an end writes: only the status, the end, `updated_at` and the version change
unfoldable pub ended_deployment : Deployment → ℕ → Instant → Instant → Deployment
ended_deployment current expected_version ended_at now = record current {
  ended_at = some ended_at;
  status = DeploymentStatus.ended;
  updated_at = max now current.updated_at;
  version = expected_version + 1;
}

-- `_end_row_request` on the row that is stored
unfoldable pub end_row : Deployment → Deployment → Deployment → Option Deployment
end_row current ended row =
    if row.version == current.version
      && is_active row.status
      && row.tenant_id == current.tenant_id
      && row.deployment_id == current.deployment_id
    then some (record row {
      status = ended.status;
      ended_at = ended.ended_at;
      updated_at = ended.updated_at;
      version = ended.version;
    })
    else none

-- the condition of the delete of the current pointer
unfoldable pub end_current_allowed : Deployment → ℕ → Option Deployment → Bool
end_current_allowed current expected_version none = false
end_current_allowed current expected_version (some row) =
    row.deployment_id == current.deployment_id
    && row.version == expected_version
    && row.tenant_id == current.tenant_id

-- the condition of `deployment_marker_advance_request`
unfoldable pub advance_allowed : Ident → Option Marker → Option Marker → Bool
advance_allowed tenant none stored = not (is_some stored)
advance_allowed tenant (some observed) none = false
advance_allowed tenant (some observed) (some m) = m.seq == observed.seq && m.tenant_id == tenant

-- the marker that `deployment_marker_advance_request` stores
unfoldable pub advance_marker : Ident → Ident → Option Marker → Instant → Marker
advance_marker tenant component observed ended_at = record {
  tenant_id = tenant;
  component_id = component;
  seq = elim observed [ none ↦ 1 | some m ↦ m.seq + 1 ];
  last_ended_at = some ended_at;
}

abbrev pub bind_row : Option Deployment → (Deployment → Option Deployment) → Option Deployment
bind_row none f = none
bind_row (some row) f = f row

-- what the end transaction writes
unfoldable pub end_writes :
    (current row : Deployment) (history : List Deployment) (observed : Option Marker)
    (ended_at : Instant)
    → Store
    → Store
unfolding advance_marker
end_writes current row history observed ended_at s =
    let t = current.tenant_id in
    let c = current.component_id in
    record s {
      mirror = set_pair t current.deployment_id (some row) s.mirror;
      history = set c history s.history;
      current = set c none s.current;
      marker = set c (some (advance_marker t c observed ended_at)) s.marker;
    }

-- the end transaction, after `current` and the marker were read
unfoldable pub commit_end :
    (current ended : Deployment) (observed : Option Marker) (ended_at : Instant)
    → Store
    → Result Deployment × Store
unfolding end_row end_current_allowed advance_allowed end_writes
commit_end current ended observed ended_at s =
    let t = current.tenant_id in
    let c = current.component_id in
    let rows =
      update_row current.started_at current.deployment_id (end_row current ended) (s.history c) in
    let mirror = bind_row (s.mirror t current.deployment_id) (end_row current ended) in
    let pointed = end_current_allowed current current.version (s.current c) in
    let marked = advance_allowed t observed (s.marker c) in
    elim rows [
      | none ↦ (conflict Conflict.version, s)
      | some history ↦ elim mirror [
        | none ↦ (conflict Conflict.version, s)
        | some row ↦
            if not pointed
            then (conflict Conflict.version, s)
            else if not marked
            then (conflict Conflict.changed_concurrently, s)
            else (ok ended, end_writes current row history observed ended_at s)
      ]
    ]

-- `end_deployment`, on the deployment and the marker that were read
unfoldable pub end_current :
    Instant → ℕ → Instant → Deployment → Option Marker → Store → Result Deployment × Store
unfolding ended_deployment validate_interval commit_end
end_current now expected_version ended_at current observed s =
    if not (is_active current.status)
    then (conflict Conflict.not_active, s)
    else if not (current.version == expected_version)
    then (conflict Conflict.version, s)
    else (let ended = ended_deployment current expected_version ended_at now in
        if validate_interval ended
        then commit_end current ended observed ended_at s
        else (invalid, s))

-- `end_deployment`, where the deployment and the marker are read from `seen` and `seen_marker`
unfoldable pub end_deployment :
    Instant → Ident → Ident → ℕ → Instant → (seen seen_marker s : Store) → Result Deployment × Store
unfolding get_deployment end_current
end_deployment now tenant id expected_version ended_at seen seen_marker s =
    elim (get_deployment seen tenant id) [
      | none ↦ (not_found, s)
      | some current ↦
          end_current now expected_version ended_at current
            (seen_marker.marker current.component_id) s
    ]
