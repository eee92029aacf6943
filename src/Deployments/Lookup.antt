-- ===== src/Deployments/Lookup.antt =====
-- `get_deployment_at` against its meaning: the placement of a component at an instant.
use limnopulse.Prelude.{
  ◌≤◌, ◌≡◌, refl, ◌↔◌, inl, inr, true, false, Option, none, some, List, [], ◌∷◌, leb, Bool-cases,
  ==_iff, arith,
}
use limnopulse.Prelude.Deliver.{Among}
use limnopulse.Ingest.{Ident, Instant}
use limnopulse.Deployments.{Deployment, Store, contains, latest_until, get_deployment_at}
use limnopulse.Deployments.Timeline.{IsInterval, EndedBy, Follows, Chain, Sound}

-- The component was placed by `d` at the instant: a row of its history, of the tenant, whose half-open
-- interval contains the instant.
abbrev pub Placed : Store → Ident → Ident → Instant → Deployment → Type 0
Placed s tenant component t d =
    Among d (s.history component) × (d.tenant_id ≡ tenant) × (contains d t ≡ true)

ended_through :
    (u : Instant) (p d : Deployment)
    → EndedBy u p.ended_at
    → IsInterval p
    → EndedBy p.started_at d.ended_at
    → EndedBy u d.ended_at
ended_through u p d follows interval ended = ground arith

-- whatever stands in a chain behind an instant ended by it
past-EndedBy :
    (u : Instant) (d : Deployment) (h : List Deployment)
    → Follows u h
    → Chain h
    → Among d h
    → EndedBy u d.ended_at
past-EndedBy u d [] follows chain m = elim m [ ]
past-EndedBy u d (p ∷ ps) follows chain (inl same) = rw same follows
past-EndedBy u d (p ∷ ps) follows chain (inr m) =
    ended_through u p d follows chain.0 (past-EndedBy p.started_at d ps chain.1.0 chain.1.1 m)

ended-contains :
    (u t : Instant) (d : Deployment) → EndedBy u d.ended_at → u ≤ t → contains d t ≡ false
unfolding contains
ended-contains u t d ended h = ground arith

contains-started : (d : Deployment) (t : Instant) → contains d t ≡ true → d.started_at ≤ t
unfolding contains
contains-started d t h = ground arith

latest_until-Among :
    (t : Instant) (h : List Deployment) (d : Deployment) → latest_until t h ≡ some d → Among d h
unfolding latest_until
latest_until-Among t [] d e = ground arith
latest_until-Among t (p ∷ ps) d e = elim (Bool-cases (leb p.started_at t)) [
  | inl here ↦ inl (ground arith)
  | inr later ↦ inr (latest_until-Among t ps d (ground arith))
]

latest_until-contains :
    (t : Instant) (h : List Deployment) (d : Deployment)
    → Chain h
    → Among d h
    → contains d t ≡ true
    → latest_until t h ≡ some d
unfolding latest_until
latest_until-contains t [] d chain m holds = elim m [ ]
latest_until-contains t (p ∷ ps) d chain (inl same) holds =
    let started = contains-started d t holds in ground arith
latest_until-contains t (p ∷ ps) d chain (inr m) holds = ground (
  arith,
  ended-contains p.started_at t d (past-EndedBy p.started_at d ps chain.1.0 chain.1.1 m),
  latest_until-contains t ps d chain.1.1 m holds,
)

module _ (s : Store) (tenant component : Ident) (t : Instant) (d : Deployment) where
  found-Placed :
      (o : Option Deployment)
      → latest_until t (s.history component) ≡ o
      → get_deployment_at s tenant component t ≡ some d
      → Placed s tenant component t d
  unfolding get_deployment_at
  found-Placed none e h = ground arith
  found-Placed (some x) e h =
      let m = latest_until-Among t (s.history component) x e in
      let same : x ≡ d = ground arith in (rw (← same) m, ground arith, ground arith)

  -- Where the component's rows are sound, a lookup that reads one row finds the placement at any
  -- instant: it returns `d` exactly when `d` is a row of the component's history, of the tenant, whose
  -- half-open interval contains the instant.
  pub get_deployment_at_iff :
      Sound s component
      → (get_deployment_at s tenant component t ≡ some d) ↔ Placed s tenant component t d
  unfolding get_deployment_at
  get_deployment_at_iff sound = (
    found-Placed (latest_until t (s.history component)) refl,
    λ placed.
        let (m, own, holds) = placed in
        rw
          (
            get_deployment_at,
            latest_until-contains t (s.history component) d sound.chain m holds,
            (==_iff d.tenant_id tenant).1 own,
            holds,
          )
          refl,
  )
