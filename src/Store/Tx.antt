-- ===== src/Store/Tx.antt =====
-- Transactions: `?` inside one drops it, which rolls back; `tx.commit()` keeps what was written, also
-- where the function returns an error after it. Errors carry what their messages print.
pub mod Laws
use devrelay.Prelude.{String, Bool, true, false}
use devrelay.Lease.{LeaseState, TransitionError}
use devrelay.Handoff.{HandoffState}
use devrelay.Pairing.{PairingState}
use devrelay.SnapshotSchema.{MetadataError}
use devrelay.Store.Db.{Db, DeviceRevocationRecord}

pub data Error : Type 0 where
  unknown_lease unknown_handoff : String → Error
  handoff_already_pending : String → Error
  cannot_begin_from : LeaseState → Error
  source_does_not_hold_lease : Error
  device_was_revoked : String → DeviceRevocationRecord → Error
  cannot_record_apply : HandoffState → Error
  handoff_is_not : String → HandoffState → Error
  not_source_ready : HandoffState → Error
  commit_rejected : String → Error
  snapshot_project_mismatch : String → String → Error
  sidecars_unavailable : String → Error
  lost_lease_state_race : Error
  injected_fault : Error
  handoff_disappeared : Error
  cannot_abort_committed : Error
  must_not_be_empty : String → Error
  empty_audit_summary : Error
  invalid_json : Error
  session_mismatch lease_project_mismatch lease_session_mismatch holder_mismatch : Error
  unknown_session : String → Error
  publish_rejected fork_requires_inactive : LeaseState → Error
  lease_transition : TransitionError → Error
  stale_publish : String → Error
  snapshot_metadata : MetadataError → Error
  session_disappeared : Error
  blank_command_scope bad_command_hash unknown_decision : Error
  unknown_fabric unknown_pairing key_not_hex : String → Error
  pairing_already : PairingState → Error
  pairing_expired pairing_code_mismatch pairing_disappeared : Error
  constraint_failed : Error

pub data Result {ℓ} (A : Type ℓ) : Type ℓ where
  ok : A → Result A
  err : Error → Result A

-- The body of a transaction.
abbrev pub Tx : Type 0 → Type 0
Tx A = Db → Result (A × Db)

infixl 10 ◌>>=◌ ◌>>◌
abbrev pub ◌>>=◌ : {A B : Type 0} → Tx A → (A → Tx B) → Tx B
◌>>=◌ m f db = elim (m db) [ err e ↦ err e | ok (a, db') ↦ f a db' ]

abbrev pub ◌>>◌ : {A B : Type 0} → Tx A → Tx B → Tx B
m >> n = m >>= λ _. n

abbrev pub pure : {A : Type 0} → A → Tx A
pure a db = ok (a, db)

abbrev pub fail : {A : Type 0} → Error → Tx A
fail e db = err e

abbrev pub guard : Bool → Error → Tx (Unit {0})
guard true e db = ok (tt, db)
guard false e db = err e

-- A condition on the tables: a key, or a foreign key.
abbrev pub constrain : (Db → Bool) → Tx (Unit {0})
constrain p db = guard (p db) constraint_failed db

-- A statement.
abbrev pub execute : (Db → Db) → Tx (Unit {0})
execute f db = ok (tt, f db)

-- A chain of queries, which changes nothing.
abbrev pub query : {A : Type 0} → Tx A → Db → Result A
query m db = elim (m db) [ err e ↦ err e | ok (a, _) ↦ ok a ]

-- `tx.commit()?; Ok(a)` and `tx.commit()?; Err(e)`.
abbrev pub commit_ok : {A : Type 0} → A → Tx (Result A)
commit_ok a = pure (ok a)

abbrev pub commit_err : {A : Type 0} → Error → Tx (Result A)
commit_err e = pure (err e)

abbrev pub settle : {A : Type 0} → Db → Result (Result A × Db) → Result A × Db
settle before (ok (r, after)) = (r, after)
settle before (err e) = (err e, before)

abbrev pub transaction : {A : Type 0} → Tx (Result A) → Db → Result A × Db
transaction body db = settle db (body db)
