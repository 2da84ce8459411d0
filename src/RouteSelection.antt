-- ===== src/RouteSelection.antt =====
-- crates/devrelay-core/src/route_selection.rs: the choice of the route by which a snapshot is fetched,
-- once the measurements are there.
pub mod Choice
mod Scenarios
use devrelay.Prelude.{String, Bool, true, false, not, ◌&&◌, Option, none, some, if◌then◌else◌}

pub data SnapshotTransferRoute : Type 0 where
  direct_peer anchor_cache source_required : SnapshotTransferRoute

pub record SnapshotRouteMeasurements : Type 0 where
  pub source_online : Bool
  pub anchor_available : Bool
  pub anchor_has_snapshot : Bool

pub record SnapshotRoutePolicy : Type 0 where
  pub direct_peer_enabled : Bool
  pub anchor_cache_enabled : Bool
  pub require_source : Bool

-- `SnapshotRoutePolicy::default()`.
abbrev pub default_policy : SnapshotRoutePolicy
default_policy = record {
  direct_peer_enabled = true;
  anchor_cache_enabled = true;
  require_source = false;
}

pub record SnapshotRouteMetrics : Type 0 where
  pub source_online : Bool
  pub anchor_available : Bool
  pub anchor_has_snapshot : Bool
  pub direct_peer_enabled : Bool
  pub anchor_cache_enabled : Bool
  pub require_source : Bool
  pub fallback_candidate : Option SnapshotTransferRoute
  pub failed_route : Option SnapshotTransferRoute

pub record SnapshotRouteDecision : Type 0 where
  pub route : SnapshotTransferRoute
  pub available : Bool
  pub explanation : String
  pub fallback_route : Option SnapshotTransferRoute
  pub metrics : SnapshotRouteMetrics

abbrev pub same_route : SnapshotTransferRoute → SnapshotTransferRoute → Bool
same_route direct_peer direct_peer = true
same_route anchor_cache anchor_cache = true
same_route source_required source_required = true
same_route a b = false

unfoldable pub direct_peer_ready : SnapshotRouteMeasurements → SnapshotRoutePolicy → Bool
direct_peer_ready measurements policy = policy.direct_peer_enabled && measurements.source_online

unfoldable pub anchor_cache_ready : SnapshotRouteMeasurements → SnapshotRoutePolicy → Bool
anchor_cache_ready measurements policy =
    policy.anchor_cache_enabled && measurements.anchor_available && measurements.anchor_has_snapshot

abbrev pub decision :
    SnapshotTransferRoute
    → (available : Bool) → (explanation : String) → (fallback_route : Option SnapshotTransferRoute)
    → SnapshotRouteMeasurements
    → SnapshotRoutePolicy
    → (failed_route : Option SnapshotTransferRoute) → SnapshotRouteDecision
decision route available explanation fallback_route measurements policy failed_route = record {
  route = route;
  available = available;
  explanation = explanation;
  fallback_route = fallback_route;
  metrics = record {
    source_online = measurements.source_online;
    anchor_available = measurements.anchor_available;
    anchor_has_snapshot = measurements.anchor_has_snapshot;
    direct_peer_enabled = policy.direct_peer_enabled;
    anchor_cache_enabled = policy.anchor_cache_enabled;
    require_source = policy.require_source;
    fallback_candidate = fallback_route;
    failed_route = failed_route;
  };
}

unfoldable pub select_snapshot_route_inner :
    SnapshotRouteMeasurements
    → SnapshotRoutePolicy
    → (failed_route : Option SnapshotTransferRoute) → SnapshotRouteDecision
unfolding direct_peer_ready anchor_cache_ready
select_snapshot_route_inner measurements policy failed_route =
    if policy.require_source
    then decision source_required (direct_peer_ready measurements policy)
        "source-required policy selected; cached anchor data will not be used" none measurements
        policy failed_route
    else if direct_peer_ready measurements policy
    then decision direct_peer true "source is online; direct peer route selected"
        (if anchor_cache_ready measurements policy then some anchor_cache else none) measurements
        policy failed_route
    else if anchor_cache_ready measurements policy
    then decision anchor_cache true "source is offline; anchor cache has the snapshot" none
        measurements policy failed_route
    else decision source_required false
        "source is required because no usable cached snapshot is available" none measurements policy
        failed_route

unfoldable pub select_snapshot_route :
    SnapshotRouteMeasurements → SnapshotRoutePolicy → SnapshotRouteDecision
unfolding select_snapshot_route_inner
select_snapshot_route measurements policy = select_snapshot_route_inner measurements policy none

unfoldable pub select_snapshot_route_after_failure :
    SnapshotRouteMeasurements
    → SnapshotRoutePolicy
    → (failed_route : SnapshotTransferRoute) → SnapshotRouteDecision
unfolding direct_peer_ready anchor_cache_ready
select_snapshot_route_after_failure measurements policy failed_route =
    if not policy.require_source
      && same_route failed_route direct_peer
      && anchor_cache_ready measurements policy
    then decision anchor_cache true "direct peer route failed; falling back to anchor cache" none
        measurements policy (some failed_route)
    else if not policy.require_source
        && same_route failed_route anchor_cache
        && direct_peer_ready measurements policy
    then decision direct_peer true "anchor cache route failed; falling back to direct peer" none
        measurements policy (some failed_route)
    else decision source_required false
        "source is required because the selected route failed and no fallback is available" none
        measurements policy (some failed_route)
