-- ===== src/RouteSelection/Choice.antt =====
-- A chosen route can be taken, and a failed one is not chosen again
-- (crates/devrelay-core/src/route_selection.rs).

use devrelay.Prelude.{◌≡◌, ◌≢◌, Bool, true, false, not, ◌&&◌, ◌||◌, some, arith}
use devrelay.RouteSelection.{
  SnapshotTransferRoute, direct_peer, anchor_cache, source_required, SnapshotRouteMeasurements,
  SnapshotRoutePolicy, direct_peer_ready, anchor_cache_ready, select_snapshot_route,
  select_snapshot_route_inner, select_snapshot_route_after_failure,
}

-- What a route needs: a direct peer that the policy allows and that answers, or an anchor that the
-- policy allows, where it does not require the source, and that has the snapshot.
abbrev pub can_take : SnapshotRouteMeasurements → SnapshotRoutePolicy → SnapshotTransferRoute → Bool
can_take m p direct_peer = p.direct_peer_enabled && m.source_online
can_take m p anchor_cache =
    not p.require_source && p.anchor_cache_enabled && m.anchor_available && m.anchor_has_snapshot
can_take m p source_required = p.direct_peer_enabled && m.source_online

-- The selection, described by itself: the decision is available exactly when the source answers or,
-- unless the policy requires the source, the anchor has the snapshot; an available route can be taken,
-- and so can its fallback, which differs from it.
pub select_snapshot_route-available :
    (m : SnapshotRouteMeasurements) (p : SnapshotRoutePolicy)
    → let d = select_snapshot_route m p in
      (d.available ≡ (can_take m p direct_peer || can_take m p anchor_cache))
      × (d.available ≡ true → (can_take m p d.route ≡ true))
      × ((r : SnapshotTransferRoute)
          → d.fallback_route ≡ some r
          → (can_take m p r ≡ true) × (r ≢ d.route) × (d.available ≡ true))
unfolding select_snapshot_route select_snapshot_route_inner direct_peer_ready anchor_cache_ready
select_snapshot_route-available m p = ground arith

-- After a failure the decision never gives the route that failed as one that is available, and one that
-- is available can be taken. If the policy does not require the source, another route that can be taken
-- is found after a direct peer or the anchor failed.
pub select_snapshot_route_after_failure-other :
    (m : SnapshotRouteMeasurements) (p : SnapshotRoutePolicy) (failed : SnapshotTransferRoute)
    → let d = select_snapshot_route_after_failure m p failed in
      (d.available ≡ true → (can_take m p d.route ≡ true) × (d.route ≢ failed))
      × (failed ≡ direct_peer → can_take m p anchor_cache ≡ true → d.available ≡ true)
      × (failed ≡ anchor_cache
          → p.require_source ≡ false
          → can_take m p direct_peer ≡ true
          → d.available ≡ true)
unfolding select_snapshot_route_after_failure direct_peer_ready anchor_cache_ready
select_snapshot_route_after_failure-other m p failed = ground arith
