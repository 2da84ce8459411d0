-- ===== src/RouteSelection/Scenarios.antt =====
-- A source that is offline and an anchor that has the snapshot.
use devrelay.Prelude.{◌≡◌, ◌≢◌, true, false, some}
use devrelay.RouteSelection.{
  SnapshotTransferRoute, direct_peer, anchor_cache, SnapshotRouteMeasurements, default_policy,
  select_snapshot_route, select_snapshot_route_after_failure,
}
use devrelay.RouteSelection.Choice.{
  can_take, select_snapshot_route-available, select_snapshot_route_after_failure-other,
}

abbrev offline : SnapshotRouteMeasurements
offline = record { source_online = false; anchor_available = true; anchor_has_snapshot = true }

select_snapshot_route-available_example :
    ((select_snapshot_route offline default_policy).available ≡ true)
    × ((select_snapshot_route offline default_policy).available ≡ true
        → can_take offline default_policy (select_snapshot_route offline default_policy).route
          ≡ true)
    × ((r : SnapshotTransferRoute)
        → (select_snapshot_route offline default_policy).fallback_route ≡ some r
        → (can_take offline default_policy r ≡ true)
          × (r ≢ (select_snapshot_route offline default_policy).route)
          × ((select_snapshot_route offline default_policy).available ≡ true))
select_snapshot_route-available_example = select_snapshot_route-available offline default_policy

select_snapshot_route_after_failure-other_example :
    let d = select_snapshot_route_after_failure offline default_policy direct_peer in
    (d.available ≡ true
      → (can_take offline default_policy d.route ≡ true) × (d.route ≢ direct_peer))
    × (direct_peer ≡ direct_peer
        → can_take offline default_policy anchor_cache ≡ true
        → d.available ≡ true)
    × (direct_peer ≡ anchor_cache
        → false ≡ false
        → can_take offline default_policy direct_peer ≡ true
        → d.available ≡ true)
select_snapshot_route_after_failure-other_example =
    select_snapshot_route_after_failure-other offline default_policy direct_peer
