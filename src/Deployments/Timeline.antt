-- ===== src/Deployments/Timeline.antt =====
-- The history of a component as a timeline: its intervals follow one another, and the current pointer
-- and the marker agree with it.
pub mod Start
pub mod End
pub mod Runs
use limnopulse.Prelude.{
  ℕ, ◌≤◌, ◌<◌, ◌≡◌, Bool, true, false, Option, none, some, List, [], ◌∷◌, if◌then◌else◌, arith,
}
use limnopulse.Ingest.{Ident, Instant}
use limnopulse.Status.{DeploymentStatus}
use limnopulse.Deployments.{Deployment, is_active, Marker, Store, contains}

abbrev EndMatches : Instant → DeploymentStatus → Option Instant → Type 0
EndMatches t status none = status ≡ DeploymentStatus.active
EndMatches t status (some e) = (status ≡ DeploymentStatus.ended) × (t < e)

-- An interval with an end is ended and not empty; one without an end is active.
abbrev pub IsInterval : Deployment → Type 0
IsInterval d = EndMatches d.started_at d.status d.ended_at

-- The interval ended, no later than the instant.
abbrev pub EndedBy : Instant → Option Instant → Type 0
EndedBy t none = ⊥
EndedBy t (some e) = e ≤ t

-- The latest interval of the rest ended by the instant.
abbrev pub Follows : Instant → List Deployment → Type 0
Follows t [] = Unit
Follows t (p ∷ ps) = EndedBy t p.ended_at

-- Every interval is well formed and starts no earlier than the one before it ended.
abbrev pub Chain : List Deployment → Type 0
Chain [] = Unit
Chain (d ∷ ds) = IsInterval d × (Follows d.started_at ds × Chain ds)

-- the deployment that a current pointer should hold
abbrev pub open_head : List Deployment → Option Deployment
open_head [] = none
open_head (d ∷ ds) = if is_active d.status then some d else none

-- the latest end
abbrev pub last_end : List Deployment → Option Instant
last_end [] = none
last_end (d ∷ ds) = elim (d.ended_at) [ none ↦ last_end ds | some e ↦ some e ]

abbrev pub IsBound : Option Instant → Option Instant → Type 0
IsBound last none = Unit
IsBound none (some e) = ⊥
IsBound (some l) (some e) = e ≤ l

-- A history that is not empty has a marker, whose last end is no earlier than the history's.
abbrev pub Covers : Option Marker → List Deployment → Type 0
Covers marker [] = Unit
Covers none (d ∷ ds) = ⊥
Covers (some m) (d ∷ ds) = IsBound m.last_ended_at (last_end (d ∷ ds))

-- What the rows of one component have in common.
pub record Sound (s : Store) (c : Ident) : Type 0 where
  pub chain : Chain (s.history c)
  pub pointer : s.current c ≡ open_head (s.history c)
  pub covered : Covers (s.marker c) (s.history c)
