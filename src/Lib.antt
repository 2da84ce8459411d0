-- ===== src/Lib.antt =====
-- DevRelay moves a developer's working state between devices. Its core decides who may write (leases),
-- moves that right to another device (handoffs), protects work in the background (debounce), deletes old
-- snapshots (retention), stores what a device publishes (snapshots and sessions), decides which commands may
-- run (command trust) and which devices belong together (pairing), and chooses where snapshots come from (route selection) and where tasks may run
-- (scheduling). This library models those parts of crates/devrelay-core/src and proves what makes them correct.
--
-- How the files correspond to the code:
--
--   Lease, Lease/Transitions      lease.rs: LeaseState, LeaseRecord, can_transition_to and
--                                 validate_transition_to
--   Handoff, Handoff/Codec        handoff.rs: the states, the journal's phases, the records
--   Session, Pairing              session.rs and pairing.rs: states, records, checks of keys
--   SnapshotSchema                snapshot_schema.rs: the validation of snapshot metadata
--   Store/Tables, Store/Db, Store/Tx   storage.rs: the tables, the row decoders, transactions with their
--                                 roll back
--   Store/Audit                   audit.rs and insert_audit_event_tx
--   Store/Revocations             revoke_device_at and ensure_device_not_revoked_conn
--   Store/Handoffs/Queries        the reads, and insert_handoff_journal
--   Store/Handoffs/Progress       begin_handoff, record_handoff_target_apply, update_handoff_state
--   Store/Handoffs/Finish         abort_handoff_at, commit_handoff_inner, recover_handoff
--   Store/Handoffs/Change         the abstract description: seven kinds of change to the database
--   Store/Handoffs/Effects, Calls each operation makes one of these changes
--   Store/Handoffs/Invariant      the invariant, which Opening, Advancing, Ending, Editing and Keeping
--                                 carry through the changes, and Reach through every sequence of
--                                 operations, publishing, sessions, trust, pairing, identities
--                                 and audit events included
--   Store/Handoffs/Views, Commit, Begin, Recovery, Abort, Writer, Marking, Complete   what the
--                                 operations promise
--   Store/Sessions                the session operations, upsert_lease and the listings
--   Store/Publish                 publish_snapshot_canonical and publish_inactive_snapshot_as_fork
--   Store/Publish/Canonical, CompareAndSwap, Fork, Fencing, Numbering   what publishing promises
--   Store/Trust                   record_command_trust_decision_at, evaluate_command_trust,
--                                 authorize_command_trust_at
--   Store/Trust/Once, Approval, Decision   what an approval rests on
--   Store/Pairings                start, confirm, abort and expiry of pairing sessions
--   Store/Pairings/Confirm, Expiry   what they promise
--   Store/Identities              the identities of devices and fabrics
--   Store/Listings                record_audit_event_at and the listings of handoffs, their journal,
--                                 revocations and audit events
--   Debounce, Debounce/Flush      debounce.rs: AdaptiveDebouncer and its drains
--   Debounce/Drain, Debounce/Keep what a drain does to each workspace, and that it loses nothing
--   Debounce/Taken, Debounce/Flushed   what a drain and a flush give out for each workspace
--   Retention, Retention/Reasons, Retention/Parents, Retention/Plan   retention.rs:
--                                 plan_snapshot_pruning with the reasons that keep a snapshot
--   RouteSelection                route_selection.rs
--   Scheduler                     scheduler_constraints.rs: evaluate_scheduler_constraints
--   Sql, Map                      SQL statements over lists of rows; BTreeMap and BTreeSet as ordered
--                                 lists
--   Prelude                       names and lemmas that all of them share
--
-- A transaction is a function from the database to a result and the database after it; an error inside
-- one leaves the database as it was, and the places that commit and then return an error (a rejected commit of a
-- handoff, a stale publish, a late confirmation) are written so. Times, new ids and what the file system answers are arguments,
-- and so is the match of a glob, which the globset package does.
-- Columns are 64-bit signed integers, as in SQLite, and values go through the casts that the code has
-- between them and u64. JSON is not modelled: a record of functions says whether a text parses and how it
-- is written. The operations that Step in Store/Handoffs/Reach
-- lists are all of this model that write to the database, except upsert_lease,
-- which stores any record as a lease and which only tests call.
-- Lists stand for tables, so that the inserts check the keys and the foreign keys. Of the metadata of a
-- snapshot the model keeps the fields that its validation and publishing read. What serde_json prints for it,
-- the keys, hashes and codes of a pairing, and whether a certificate parses are arguments too.
--
-- The one loop that is not over a list, the walk from kept snapshots to their parents, runs on fuel: an
-- id with a reason or a snapshot for each round, and it is proved that this is enough. Where the code adds
-- or multiplies u64 values without saturation, they wrap, as in a release build.
--
-- Not modelled: task runs, the keys of devices, the state hash of a snapshot,
-- scheduler scores, and all that runs Git, processes, sockets or
-- user interfaces. The next parts to model are the hydration states, the watcher's coalescing of events and the
-- content-addressed store.
pub mod Prelude
pub mod Sql
pub mod Map
pub mod Lease
pub mod Handoff
pub mod Session
pub mod Pairing
pub mod SnapshotSchema
pub mod Store
pub mod Debounce
pub mod Retention
pub mod RouteSelection
pub mod Scheduler
