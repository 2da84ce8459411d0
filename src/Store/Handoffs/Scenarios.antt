-- ===== src/Store/Handoffs/Scenarios.antt =====
-- One lease and its handoff from device `a` to device `b`: tests, and the theorems at concrete inputs.
use devrelay.Prelude.{
  ◌+◌, ◌≡◌, ◌≢◌, ◌↔◌, refl, String, false, none, some, [], ◌∷◌, ◌⊎◌, arith, eq_iff, ◌is◌, ◌||◌,
}
use devrelay.Prelude.Int.{pos, u64_max}
use devrelay.Sql.{find, exists, count}
use devrelay.Sql.Laws.{map_option, revise}
use devrelay.Lease
use devrelay.Handoff
use devrelay.Handoff.{HandoffRecord, handoff_committed, already_committed, is_terminal, parse}
use devrelay.Handoff.Codec.{is_terminal-parse}
use devrelay.Store.Db.{Db, LeaseRow, HandoffRow, handoff_record_from_row, lease_record_from_row}
use devrelay.Store.Tx.{ok, commit_rejected}
use devrelay.Store.Revocations.{get_device_revocation}
use devrelay.Store.Handoffs.Queries.{Json, get_handoff}
use devrelay.Store.Handoffs.Progress.{
  begin_handoff, mark_handoff_target_verified, mark_handoff_source_ready, new_handoff_row,
}
use devrelay.Store.Handoffs.Finish.{
  abort_reason, commit_handoff_inner, abort_handoff_at, recover_handoff,
}
use devrelay.Store.Handoffs.Change.{
  lease_at, handoff_at, Change, give_back, mark_aborted, mark_committed,
}
use devrelay.Store.Handoffs.Effects.{begun_record}
use devrelay.Store.Handoffs.Invariant.{IsConsistent}
use devrelay.Store.Handoffs.Keeping.{released}
use devrelay.Store.Handoffs.Reach.{
  Reach, here, next, begin, verify, ready, commit, Step-Change, Reach-IsConsistent,
}
use devrelay.Store.Handoffs.Commit.{
  commit_handoff_transfers, commit_handoff_fails, committed_record,
}
use devrelay.Store.Handoffs.Begin.{CanBegin, begin_handoff_iff, begin_handoff_stored}
use devrelay.Store.Handoffs.Recovery.{recover_handoff_again}
use devrelay.Store.Handoffs.Abort.{abort_handoff_once}
use devrelay.Store.Handoffs.Complete
use devrelay.Store.Handoffs.Complete.{handoff_completes}
use devrelay.SnapshotSchema.{SnapshotMetadata}
use devrelay.Store.Publish.{
  CanonicalPublishRequest, InactiveForkPublishRequest, publish_snapshot_canonical,
  publish_inactive_snapshot_as_fork,
}
use devrelay.Store.Publish.Fencing.{Refused, publish_after_commit}
use devrelay.Store.Handoffs.Writer.{LeaseMove, Step-LeaseMove, Step-epoch}

-- A printer of JSON that knows one value.
abbrev json : Json
json = record {
  normalize = λ t. some t;
  reason = λ r. "{\"reason\":\"manual abort\"}";
  reason_parses = λ r. refl;
}

abbrev lease : LeaseRow
lease = record {
  lease_id = "l";
  project_id = "p";
  holder_workspace_id = none;
  state = "active";
  expires_at_unix_seconds = none;
  session_id = some "s";
  epoch = pos 1;
  holder_device_id = some "a";
  latest_snapshot_id = none;
  handoff_id = none;
}

abbrev init : Db
init = record {
  projects = record { project_id = "p"; display_name = "demo" } ∷ [];
  leases = lease ∷ [];
  handoffs = [];
  handoff_journal = [];
  journal_sequence = 0;
  audit_events = [];
  audit_sequence = 0;
  device_revocations = [];
  workspaces = [];
  sessions = [];
  snapshots = [];
  command_trust_approvals = [];
  approval_sequence = 0;
  devices = [];
  fabric_roots = [];
  device_public_identities = [];
  pairing_sessions = [];
  fault = none;
}

abbrev begun : Db
begun = (begin_handoff 100 "h" "l" "a" "b" "g1" 60 init).1

abbrev prepared : Db
prepared = (mark_handoff_source_ready 120 "h" (mark_handoff_target_verified 110 "h" begun).1).1

abbrev moved : Db
moved = (commit_handoff_inner "h" "g1" 130 none prepared).1

init-IsConsistent : IsConsistent init
unfolding find count Lease.as_str
init-IsConsistent = record {
  lease_ids = λ l. ground arith;
  handoff_ids = λ h. ground arith;
  open_leased = λ h row. ground arith;
  open_holds = λ h l row. ground arith;
  named_open = λ l h row. ground arith;
  pending_names = λ l row. ground (arith, eq_iff "active" "handoff-pending");
}

to_prepared : Reach json init prepared
to_prepared =
    next (next (next here (begin 100 "h" "l" "a" "b" "g1" 60)) (verify 110 "h")) (ready 120 "h")

Reach-IsConsistent_example : IsConsistent prepared
Reach-IsConsistent_example = Reach-IsConsistent to_prepared init-IsConsistent

abbrev bound_lease : LeaseRow
bound_lease = record lease { state = "handoff-pending"; handoff_id = some "h" }

abbrev ready_row : HandoffRow
ready_row = record (new_handoff_row (begun_record 100 "h" "l" "a" "b" "g1" 60 lease) 100) {
  state = "source-ready";
}

Step-Change_example : Change init begun
Step-Change_example = Step-Change {json = json} (begin 100 "h" "l" "a" "b" "g1" 60)

prepared-IsConsistent : IsConsistent prepared
prepared-IsConsistent = Reach-IsConsistent to_prepared init-IsConsistent

prepared-handoff : handoff_at prepared "h" ≡ some ready_row
unfolding begin_handoff mark_handoff_target_verified mark_handoff_source_ready find
    get_device_revocation exists handoff_record_from_row lease_record_from_row Lease.as_str
    Handoff.as_str Lease.parse_lease_state parse
prepared-handoff = refl

prepared-lease : lease_at prepared "l" ≡ some bound_lease
unfolding begin_handoff mark_handoff_target_verified mark_handoff_source_ready find
    get_device_revocation exists handoff_record_from_row lease_record_from_row Lease.as_str
    Handoff.as_str Lease.parse_lease_state parse
prepared-lease = refl

commit_handoff_transfers_example :
    let (r, after) = commit_handoff_inner "h" "g1" 130 none prepared in
    (r ≡ ok (committed_record ready_row))
    × (lease_at after "l"
        ≡ some (record bound_lease {
          state = Lease.as_str Lease.active;
          epoch = pos (1 + 1);
          holder_device_id = some (handoff_record_from_row ready_row).target_device_id;
          handoff_id = none;
        }))
    × ((k : String) → k ≢ "l" → lease_at after k ≡ lease_at prepared k)
    × (handoff_at after "h" ≡ some (mark_committed 130 ready_row))
unfolding begin_handoff mark_handoff_target_verified mark_handoff_source_ready find
    get_device_revocation exists handoff_record_from_row lease_record_from_row Lease.as_str
    Handoff.as_str Lease.parse_lease_state parse
commit_handoff_transfers_example =
    commit_handoff_transfers "h" "g1" 130 none prepared ready_row "l" bound_lease 1
      prepared-IsConsistent refl refl refl refl refl (omega arith) refl refl tt refl refl

-- The observed generation is another one: the commit fails, and the lease goes back to `a`.
commit_handoff_fails_example :
    let after = (commit_handoff_inner "h" "g2" 130 none prepared).1 in
    (after ≡ prepared)
    ⊎ ((row : HandoffRow) × (handoff_at prepared "h" ≡ some row)
        × (abort_reason (handoff_record_from_row row) "g2" 130 ≢ none)
        × (handoff_at after "h" ≡ some (mark_aborted 130 row))
        × ((k : String)
            → lease_at after k
              ≡ map_option (revise (released row) give_back) (lease_at prepared k)))
unfolding commit_handoff_inner begin_handoff mark_handoff_target_verified mark_handoff_source_ready
    find Lease.parse_lease_state parse Handoff.as_str
commit_handoff_fails_example =
    commit_handoff_fails "h" "g2" 130 none prepared (commit_rejected "source generation changed")
      refl

recovers : (recover_handoff json "h" "g1" 130 prepared).0 ≡ ok handoff_committed
unfolding recover_handoff begin_handoff mark_handoff_target_verified mark_handoff_source_ready find
    Lease.parse_lease_state parse Handoff.as_str
recovers = refl

recover_handoff_again_example :
    let after = (recover_handoff json "h" "g1" 130 prepared).1 in
    recover_handoff json "h" "g9" 9999 after ≡ (ok already_committed, after)
recover_handoff_again_example =
    recover_handoff_again json "h" "g1" "g9" 130 9999 prepared handoff_committed recovers (λ e. cc)

Step-LeaseMove_example :
    (lease' : LeaseRow) × (lease_at moved "l" ≡ some lease')
    × LeaseMove prepared "l" bound_lease lease'
Step-LeaseMove_example =
    Step-LeaseMove {json = json} "l" bound_lease (commit "h" "g1" 130 none) prepared-IsConsistent
      prepared-lease

Step-epoch_example :
    (lease' : LeaseRow) × (lease_at moved "l" ≡ some lease')
    × (((lease'.holder_device_id ≡ some "a") × (lease'.epoch ≡ pos 1))
        ⊎ (lease'.epoch ≡ pos (1 + 1)))
Step-epoch_example =
    Step-epoch {json = json} "l" bound_lease 1 (commit "h" "g1" 130 none) prepared-IsConsistent
      prepared-lease refl (omega arith)

begin_handoff_iff_example :
    ((begin_handoff 100 "h" "l" "a" "b" "g1" 60 init).0
      ≡ ok (begun_record 100 "h" "l" "a" "b" "g1" 60 lease))
    ↔ CanBegin init "h" "l" "a" "b" lease
unfolding find
begin_handoff_iff_example = begin_handoff_iff 100 "h" "l" "a" "b" "g1" 60 init lease refl

-- With the largest lifetime the handoff is stored as one that expired long ago.
begin_handoff_stored_example :
    get_handoff "h" (begin_handoff 100 "h" "l" "a" "b" "g1" u64_max init).1
    ≡ some (record (begun_record 100 "h" "l" "a" "b" "g1" u64_max lease) {
      expires_at_unix_seconds = 0;
    })
unfolding find begin_handoff lease_record_from_row Lease.parse_lease_state
begin_handoff_stored_example =
    begin_handoff_stored 100 "h" "l" "a" "b" "g1" u64_max init lease refl
      (begun_record 100 "h" "l" "a" "b" "g1" u64_max lease) (omega arith) refl

abort_handoff_once_example :
    let (r, after) = abort_handoff_at json "h" 140 "manual abort" prepared in
    (r ≡ ok (record (handoff_record_from_row ready_row) { state = Handoff.aborted }))
    × ((k : String)
        → lease_at after k
          ≡ map_option (revise (released ready_row) give_back) (lease_at prepared k))
    × (abort_handoff_at json "h" 150 "again" after ≡ (r, after))
unfolding exists begin_handoff mark_handoff_target_verified mark_handoff_source_ready
    Lease.parse_lease_state parse Handoff.as_str
abort_handoff_once_example =
    abort_handoff_once json "h" 140 150 "manual abort" "again" prepared ready_row prepared-handoff
      refl refl

is_terminal-parse_example :
    is_terminal (parse "committed") ≡ ("committed" is "committed" || "committed" is "aborted")
is_terminal-parse_example = is_terminal-parse "committed"

began :
    (begin_handoff 100 "h" "l" "a" "b" "g1" 60 init).0
    ≡ ok (begun_record 100 "h" "l" "a" "b" "g1" 60 lease)
unfolding begin_handoff lease_record_from_row Lease.parse_lease_state
began = refl

init-CanBegin : CanBegin init "h" "l" "a" "b" lease
unfolding find
init-CanBegin = begin_handoff_iff_example.0 began

handoff_completes_example :
    let (answer, after) = commit_handoff_inner "h" "g1" 130 none prepared in
    ((begin_handoff 100 "h" "l" "a" "b" "g1" 60 init).0
      ≡ ok (begun_record 100 "h" "l" "a" "b" "g1" 60 lease))
    × ((mark_handoff_target_verified 110 "h" begun).0
        ≡ ok (Complete.verified_record 100 "h" "l" "a" "b" "g1" 60 lease))
    × ((mark_handoff_source_ready 120 "h" (mark_handoff_target_verified 110 "h" begun).1).0
        ≡ ok (Complete.ready_record 100 "h" "l" "a" "b" "g1" 60 lease))
    × (answer ≡ ok (committed_record (Complete.ready_row 100 "h" "l" "a" "b" "g1" 60 lease)))
    × (lease_at after "l"
        ≡ some (record lease {
          state = Lease.as_str Lease.active;
          epoch = pos (1 + 1);
          holder_device_id = some "b";
          handoff_id = none;
        }))
unfolding find
handoff_completes_example =
    handoff_completes 100 "h" "l" "a" "b" "g1" 60 init lease refl init-CanBegin 110 120 130 1
      init-IsConsistent refl refl (omega arith) (omega arith) (omega arith)

-- Any valid metadata will do: device `a` is fenced out once `b` holds the lease.
abbrev meta : SnapshotMetadata
meta = record {
  schema_version = 1;
  snapshot_id = "s1_0123456789abcdef01234567";
  project_id = "p";
  project_name = "demo";
  session_id = some "s";
  parent_snapshot_id = none;
  child_snapshots = [];
  head_oid = "h";
  index_tree_oid = "i";
  index_commit_oid = "j";
  work_tree_oid = "w";
  work_commit_oid = "x";
  sidecars = [];
  state_hash = "y";
  created_at_unix_seconds = 140;
}

abbrev canonical : CanonicalPublishRequest
canonical = record {
  lease_id = "l";
  session_id = "s";
  expected_epoch = 1;
  holder_device_id = "a";
  expected_latest_snapshot_id = none;
  metadata = meta;
  pinned = false;
  label = none;
}

abbrev inactive : InactiveForkPublishRequest
inactive = record {
  lease_id = "l";
  session_id = "s";
  holder_device_id = "a";
  metadata = meta;
  label = none;
}

publish_after_commit_example :
    Refused moved (publish_snapshot_canonical (λ m. some "{}") canonical moved)
    × Refused moved (publish_inactive_snapshot_as_fork (λ m. some "{}") 150 "f" inactive moved)
unfolding begin_handoff mark_handoff_target_verified mark_handoff_source_ready find
    get_device_revocation exists handoff_record_from_row lease_record_from_row Lease.as_str
    Handoff.as_str Lease.parse_lease_state parse
publish_after_commit_example =
    publish_after_commit "h" "g1" 130 none prepared ready_row "l" bound_lease
      (committed_record ready_row) (λ m. some "{}") canonical 150 "f" inactive prepared-IsConsistent
      refl refl refl commit_handoff_transfers_example.0 refl (λ e. ground (arith, eq_iff "a" "b"))
      refl (λ e. ground (arith, eq_iff "a" "b"))
