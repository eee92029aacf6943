-- ===== src/Tests/Placements.antt =====
-- Deployments and receipts, on concrete inputs.
use limnopulse.Prelude.{◌+◌, ◌≤◌, ◌≡◌, ◌↔◌, refl, true, Option, none, some}
use limnopulse.Ingest.{Ident}
use limnopulse.Status.{DeploymentStatus}
use limnopulse.Idempotency.{
  IdempotencyReceipt, Replay, receipt_ttl, receipt_put_allowed, get_idempotency_replay,
}
use limnopulse.Idempotency.Window.{overwrite_window}
use limnopulse.Deployments.{
  Deployment, validate_interval, has_row, update_row, put_row, Parent, Store, get_deployment_at,
}
use limnopulse.Deployments.Commits.{
  Conflict, conflict, start_deployment, end_deployment, ended_deployment,
}
use limnopulse.Deployments.Timeline.{Sound}
use limnopulse.Deployments.Timeline.Runs.{
  start, end, parents, empty, Reachable, begin, next, Reachable-Sound,
}
use limnopulse.Deployments.Lookup.{Placed, get_deployment_at_iff}

abbrev placement : Deployment
placement = record {
  tenant_id = 1;
  deployment_id = 5;
  component_id = 3;
  site_id = 7;
  asset_id = 8;
  started_at = 100;
  ended_at = none;
  status = DeploymentStatus.active;
  created_at = 100;
  updated_at = 100;
  version = 1;
}

abbrev receipt : IdempotencyReceipt Deployment
receipt = record {
  tenant_id = 1;
  key_hash = 20;
  request_hash = 21;
  response = placement;
  created_at = 100;
}

abbrev parent : Option Parent
parent = some (record { tenant_id = 1; active = true })

abbrev placeable : Store
placeable = record empty { component = λ c. parent; asset = λ t a. parent; site = λ t x. parent }

-- placed, and ended by a worker whose read of the marker is the latest
abbrev placed : Store
placed = (start_deployment 100 placement receipt placeable placeable placeable).1

abbrev ended : Store
ended = (end_deployment 200 1 5 1 200 placed placed placed).1

placement_valid : validate_interval placement ≡ true
unfolding validate_interval
placement_valid = refl

ended-Reachable : Reachable ended
ended-Reachable =
    next
      (next (next (begin refl) (parents (λ c. parent) (λ t a. parent) (λ t x. parent) refl))
        (start 100 placement receipt placeable placeable placement_valid refl))
      (end 200 1 5 1 200 placed placed refl)

Reachable-Sound_example : Sound ended 3
Reachable-Sound_example = Reachable-Sound ended-Reachable 3

-- The lookup finds the placement up to its end, and nothing from its end on.
found_inside : get_deployment_at ended 1 3 199 ≡ some (ended_deployment placement 1 200 200)
unfolding get_deployment_at empty start_deployment end_deployment ended_deployment has_row
    update_row put_row
found_inside = refl

found_after : get_deployment_at ended 1 3 200 ≡ none
unfolding get_deployment_at empty start_deployment end_deployment has_row update_row put_row
found_after = refl

-- A second start before the end of the first is refused, also where its reads saw the empty store.
abbrev early : Deployment
early = record placement { deployment_id = 6; started_at = 150; created_at = 150; updated_at = 200 }

refused_stale :
    (start_deployment 200 early (record receipt { key_hash = 22 }) placeable placeable ended).0
    ≡ conflict Conflict.overlap
unfolding start_deployment end_deployment empty has_row update_row put_row
refused_stale = refl

get_deployment_at_iff_example :
    (get_deployment_at ended 1 3 199 ≡ some (ended_deployment placement 1 200 200))
    ↔ Placed ended 1 3 199 (ended_deployment placement 1 200 200)
get_deployment_at_iff_example =
    get_deployment_at_iff ended 1 3 199 (ended_deployment placement 1 200 200)
      (Reachable-Sound ended-Reachable 3)

overwrite_window_example :
    (receipt_put_allowed 86402000000 (some receipt) ≡ true
      → (request : Ident)
      → get_idempotency_replay (some receipt) request 86402000000 ≡ Replay.absent)
    × (receipt.created_at + receipt_ttl + 1000000 ≤ 86402000000
        → receipt_put_allowed 86402000000 (some receipt) ≡ true)
overwrite_window_example = overwrite_window receipt 86402000000
