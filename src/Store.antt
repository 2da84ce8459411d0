-- ===== src/Store.antt =====
-- The metadata database of crates/devrelay-core/src/storage.rs: its tables and their decoders are in
-- `Db`, transactions in `Tx`, and each group of operations in a module of its own.
pub mod Tables
pub mod Db
pub mod Tx
pub mod Audit
pub mod Revocations
pub mod Handoffs
pub mod Sessions
pub mod Publish
pub mod Trust
pub mod Pairings
pub mod Identities
pub mod Listings
