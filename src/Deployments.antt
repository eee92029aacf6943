-- ===== src/Deployments.antt =====
-- Component deployments: domain/deployments.py and the rows of adapters/dynamodb_deployments.py, each
-- kind of row under its key. A history partition is kept as a list, the latest key first.
pub mod Commits
pub mod Timeline
pub mod Lookup
use limnopulse.Prelude.{
  ℕ, ◌+◌, Bool, true, false, not, ◌&&◌, ◌||◌, Option, none, some, List, [], ◌∷◌, if◌then◌else◌, ltb,
  leb, ◌==◌, is_some,
}
use limnopulse.Ingest.{Ident, Instant}
use limnopulse.Status.{DeploymentStatus}
use limnopulse.Idempotency.{IdempotencyReceipt}

-- `Deployment`
pub record Deployment : Type 0 where
  pub tenant_id : Ident
  pub deployment_id : Ident
  pub component_id : Ident
  pub site_id : Ident
  pub asset_id : Ident
  pub started_at : Instant
  pub ended_at : Option Instant
  pub status : DeploymentStatus
  pub created_at : Instant
  pub updated_at : Instant
  pub version : ℕ

abbrev pub is_active : DeploymentStatus → Bool
is_active DeploymentStatus.active = true
is_active DeploymentStatus.ended = false

-- `validate_interval`, and the validator of `V2VersionedEntity`
unfoldable pub validate_interval : Deployment → Bool
validate_interval d =
    elim (d.ended_at) [
      | none ↦ is_active d.status
      | some e ↦ ltb d.started_at e && not (is_active d.status)
    ]
    && leb d.created_at d.updated_at
    && leb 1 d.version

-- The marker row of a component.
pub record Marker : Type 0 where
  pub tenant_id : Ident
  pub component_id : Ident
  pub seq : ℕ
  pub last_ended_at : Option Instant

-- What a transaction reads of a component, asset or site row: its tenant, and whether its status is
-- active.
pub record Parent : Type 0 where
  pub tenant_id : Ident
  pub active : Bool

pub record Store : Type 0 where
  pub history : Ident → List Deployment
  pub current : Ident → Option Deployment
  pub marker : Ident → Option Marker
  pub mirror : Ident → Ident → Option Deployment
  -- by tenant and key; the scope of a deployment's receipt is constant
  pub receipts : Ident → Ident → Option (IdempotencyReceipt Deployment)
  pub component : Ident → Option Parent
  pub asset : Ident → Ident → Option Parent
  pub site : Ident → Ident → Option Parent

-- the key of a history row: its start and its id
abbrev pub has_key : Instant → Ident → Deployment → Bool
has_key t id d = d.started_at == t && d.deployment_id == id

abbrev pub key_before : Instant → Ident → Deployment → Bool
key_before t id d = ltb t d.started_at || (t == d.started_at && ltb id d.deployment_id)

-- whether a history partition has a row under the key
unfoldable pub has_row : Instant → Ident → List Deployment → Bool
has_row t id [] = false
has_row t id (d ∷ ds) = has_key t id d || has_row t id ds

-- a `Put` into a history partition, in the order of the keys
unfoldable pub put_row : Deployment → List Deployment → List Deployment
put_row p [] = p ∷ []
put_row p (d ∷ ds) =
    let rest = put_row p ds in
    if key_before p.started_at p.deployment_id d then d ∷ rest else p ∷ d ∷ ds

-- an `Update` of the row under a key: `none` where the row is missing or its condition fails
unfoldable pub update_row :
    Instant → Ident → (Deployment → Option Deployment) → List Deployment → Option (List Deployment)
update_row t id f [] = none
update_row t id f (d ∷ ds) =
    let rest = update_row t id f ds in
    if has_key t id d
    then elim (f d) [ none ↦ none | some d' ↦ some (d' ∷ ds) ]
    else elim rest [ none ↦ none | some ds' ↦ some (d ∷ ds') ]

-- `_contains`
unfoldable pub contains : Deployment → Instant → Bool
contains d t = not (ltb t d.started_at) && elim (d.ended_at) [ none ↦ true | some e ↦ ltb t e ]

-- the latest row that started at or before the instant: the query up to
-- `deployment_history_upper_bound`, descending, with limit 1
unfoldable pub latest_until : Instant → List Deployment → Option Deployment
latest_until t [] = none
latest_until t (d ∷ ds) =
    let rest = latest_until t ds in if leb d.started_at t then some d else rest

abbrev pub of_tenant : Ident → Option Deployment → Option Deployment
of_tenant tenant none = none
of_tenant tenant (some d) = if d.tenant_id == tenant then some d else none

module _ (s : Store) (tenant : Ident) where
  unfoldable pub get_deployment : Ident → Option Deployment
  get_deployment id = of_tenant tenant (s.mirror tenant id)

  unfoldable pub get_current_deployment : Ident → Option Deployment
  get_current_deployment component = of_tenant tenant (s.current component)

  abbrev pub keep_tenant : List Deployment → List Deployment
  keep_tenant [] = []
  keep_tenant (d ∷ ds) = if d.tenant_id == tenant then d ∷ keep_tenant ds else keep_tenant ds

  -- ascending in the program: the order is the reverse of the list's
  unfoldable pub list_component_deployments : Ident → List Deployment
  list_component_deployments component = keep_tenant (s.history component)

  unfoldable pub get_deployment_at : Ident → Instant → Option Deployment
  unfolding latest_until contains
  get_deployment_at component t = elim (of_tenant tenant (latest_until t (s.history component))) [
    | none ↦ none
    | some d ↦ if contains d t then some d else none
  ]
