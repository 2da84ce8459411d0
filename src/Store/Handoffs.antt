-- ===== src/Store/Handoffs.antt =====
-- The handoff operations of `MetadataDb` (crates/devrelay-core/src/storage.rs): a lease moves from a
-- source device to a target device by prepare, verify, ready and commit, or the handoff is aborted.
-- The clock, fresh ids and what serde_json and the sidecar check answer are arguments.
pub mod Queries
pub mod Progress
pub mod Finish
pub mod Change
pub mod Effects
pub mod Invariant
pub mod Opening
pub mod Advancing
pub mod Ending
pub mod Editing
pub mod Calls
pub mod Keeping
pub mod Reach
pub mod Views
pub mod Commit
pub mod Begin
pub mod Recovery
pub mod Abort
pub mod Writer
pub mod Marking
pub mod Complete
mod Scenarios
