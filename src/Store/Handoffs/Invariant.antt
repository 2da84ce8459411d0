-- ===== src/Store/Handoffs/Invariant.antt =====
-- Leases and open handoffs agree, through every change.
use devrelay.Prelude.{◌≤◌, ◌≡◌, ◌≢◌, String, true, Option, none, some}
use devrelay.Prelude.Int.{as_i64, max_0}
use devrelay.Sql.{count}
use devrelay.Lease
use devrelay.Store.Db.{Db, LeaseRow, HandoffRow}
use devrelay.Store.Handoffs.Queries.{lease_key, handoff_key}
use devrelay.Store.Handoffs.Change.{lease_at, handoff_at, Stays, is_open}

-- What an open handoff has of its lease: the lease is pending, names the handoff, is at the epoch
-- that the handoff expects, and is held by the handoff's source device.
abbrev pub IsHeldBy : Option LeaseRow → HandoffRow → Type 0
IsHeldBy none row = ⊥
IsHeldBy (some lease) row =
    (lease.state ≡ Lease.as_str Lease.handoff_pending)
    × (lease.handoff_id ≡ some row.handoff_id)
    × (row.expected_epoch ≡ some (as_i64 (max_0 lease.epoch)))
    × (row.source_device_id ≡ lease.holder_device_id)

-- What a lease that names a handoff has of it: the handoff is open and is a handoff of this lease.
abbrev pub IsOpenFor : Option HandoffRow → String → Type 0
IsOpenFor none lease_id = ⊥
IsOpenFor (some row) lease_id = (is_open row ≡ true) × (row.lease_id ≡ some lease_id)

-- The keys of both tables are unique; an open handoff holds its lease; a lease that names a handoff
-- names an open one of its own; and a lease whose stored state is `handoff-pending` names one.
pub record IsConsistent (db : Db) : Type 0 where
  pub lease_ids : (l : String) → count (lease_key l) db.leases ≤ 1
  pub handoff_ids : (h : String) → count (handoff_key h) db.handoffs ≤ 1
  pub open_leased :
      (h : String) (row : HandoffRow)
      → handoff_at db h ≡ some row
      → is_open row ≡ true
      → row.lease_id ≢ none
  pub open_holds :
      (h l : String) (row : HandoffRow)
      → handoff_at db h ≡ some row
      → is_open row ≡ true
      → row.lease_id ≡ some l
      → IsHeldBy (lease_at db l) row
  pub named_open :
      (l h : String) (lease : LeaseRow)
      → lease_at db l ≡ some lease
      → lease.handoff_id ≡ some h
      → IsOpenFor (handoff_at db h) l
  pub pending_names :
      (l : String) (lease : LeaseRow)
      → lease_at db l ≡ some lease
      → lease.state ≡ Lease.as_str Lease.handoff_pending
      → lease.handoff_id ≢ none

pub Stays-IsConsistent : (db after : Db) → IsConsistent db → Stays db after → IsConsistent after
Stays-IsConsistent db after c s = record {
  lease_ids = λ l. rw s.leases (c.lease_ids l);
  handoff_ids = λ h. rw s.handoffs (c.handoff_ids h);
  open_leased = λ h row. rw s.handoffs (c.open_leased h row);
  open_holds = λ h l row. rw (s.leases, s.handoffs) (c.open_holds h l row);
  named_open = λ l h lease. rw (s.leases, s.handoffs) (c.named_open l h lease);
  pending_names = λ l lease. rw s.leases (c.pending_names l lease);
}
