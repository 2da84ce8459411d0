-- ===== src/Store/Handoffs/Change.antt =====
-- The changes that the handoff operations make to leases and handoffs, as a relation on databases:
-- what an operation may do, with the journal and the audit trail left out.
use devrelay.Prelude.{
  ℕ, ◌≡◌, ◌↔◌, String, Bool, true, false, ◌&&◌, ◌||◌, not, Option, none, some, [], ◌∷◌, ◌++◌, ◌is◌,
  is_some_of,
}
use devrelay.Prelude.Int.{as_i64, max_0, saturating_add}
use devrelay.Sql.{find, exists, update, count}
use devrelay.Lease
use devrelay.Handoff
use devrelay.Handoff.{HandoffState}
use devrelay.Store.Db.{Db, LeaseRow, HandoffRow, lease_record_from_row, handoff_record_from_row}
use devrelay.Store.Handoffs.Queries.{lease_key, handoff_key}
use devrelay.Store.Handoffs.Finish.{is_bound_to}

abbrev pub lease_at : Db → String → Option LeaseRow
lease_at db lease_id = find (lease_key lease_id) db.leases

abbrev pub handoff_at : Db → String → Option HandoffRow
handoff_at db handoff_id = find (handoff_key handoff_id) db.handoffs

-- `state NOT IN ('committed', 'aborted')`
abbrev pub is_open : HandoffRow → Bool
is_open row = not (row.state is "committed" || row.state is "aborted")

abbrev pub in_state : HandoffState → HandoffRow → Bool
in_state state row = Handoff.same_state (handoff_record_from_row row).state state

abbrev pub bind : String → LeaseRow → LeaseRow
bind handoff_id r = record r {
  state = Lease.as_str Lease.handoff_pending;
  handoff_id = some handoff_id;
}

abbrev pub give_back : LeaseRow → LeaseRow
give_back r = record r { state = Lease.as_str Lease.active; handoff_id = none }

abbrev pub hand_over : HandoffRow → LeaseRow → LeaseRow
hand_over row r = record r {
  state = Lease.as_str Lease.active;
  epoch = as_i64 (saturating_add (handoff_record_from_row row).expected_epoch 1);
  holder_device_id = some (handoff_record_from_row row).target_device_id;
  handoff_id = none;
}

abbrev pub restate : HandoffState → HandoffRow → HandoffRow
restate state r = record r { state = Handoff.as_str state }

abbrev pub mark_aborted : ℕ → HandoffRow → HandoffRow
mark_aborted now r = record r {
  state = Handoff.as_str Handoff.aborted;
  aborted_at_unix_seconds = some (as_i64 now);
}

abbrev pub mark_committed : ℕ → HandoffRow → HandoffRow
mark_committed now r = record r {
  state = Handoff.as_str Handoff.committed;
  committed_at_unix_seconds = some (as_i64 now);
}

-- A new handoff of an active lease takes the lease.
pub record Opens (db after : Db) (row : HandoffRow) (lease_id : String) (lease : LeaseRow)
    : Type 0 where
  pub lease_found : lease_at db lease_id ≡ some lease
  pub was_active : Lease.same_state (lease_record_from_row lease).state Lease.active ≡ true
  pub held : is_some_of lease.holder_device_id (handoff_record_from_row row).source_device_id ≡ true
  pub fresh : exists (handoff_key row.handoff_id) db.handoffs ≡ false
  pub row_lease : row.lease_id ≡ some lease_id
  pub row_epoch : row.expected_epoch ≡ some (as_i64 (max_0 lease.epoch))
  pub row_source : row.source_device_id ≡ lease.holder_device_id
  pub row_state : row.state ≡ Handoff.as_str Handoff.target_prepare
  pub handoffs : after.handoffs ≡ db.handoffs ++ row ∷ []
  pub leases : after.leases ≡ update (lease_key lease_id) (bind row.handoff_id) db.leases

-- A handoff goes one state further, and no lease changes.
pub record Advances (db after : Db) (row : HandoffRow) (expected next : HandoffState) : Type 0 where
  pub found : handoff_at db row.handoff_id ≡ some row
  pub was : in_state expected row ≡ true
  pub handoffs :
      after.handoffs
      ≡ update
          (λ r. handoff_key row.handoff_id r && r.state is Handoff.as_str expected)
          (restate next)
          db.handoffs
  pub leases : after.leases ≡ db.leases

-- An open handoff ends, and the lease that it took is active again under its source.
pub record Releases (db after : Db) (row : HandoffRow) (now : ℕ) : Type 0 where
  pub found : handoff_at db row.handoff_id ≡ some row
  pub was_open : is_open row ≡ true
  pub handoffs : after.handoffs ≡ update (handoff_key row.handoff_id) (mark_aborted now) db.handoffs
  pub leases :
      after.leases
      ≡ update
          (λ r.
            lease_key (handoff_record_from_row row).lease_id r
            && is_some_of r.handoff_id row.handoff_id)
          give_back
          db.leases

-- A ready handoff ends, and the one lease that it took goes to its target.
pub record Transfers (db after : Db) (row : HandoffRow) (now : ℕ) : Type 0 where
  pub found : handoff_at db row.handoff_id ≡ some row
  pub was_ready : in_state Handoff.source_ready row ≡ true
  pub one_lease : count (is_bound_to (handoff_record_from_row row) row.handoff_id) db.leases ≡ 1
  pub handoffs :
      after.handoffs ≡ update (handoff_key row.handoff_id) (mark_committed now) db.handoffs
  pub leases :
      after.leases
      ≡ update (is_bound_to (handoff_record_from_row row) row.handoff_id) (hand_over row) db.leases

pub record Stays (db after : Db) : Type 0 where
  pub handoffs : after.handoffs ≡ db.handoffs
  pub leases : after.leases ≡ db.leases

-- The leases change in what the handoffs do not read: keys, handoffs, epochs and holders stay, and
-- a lease is pending after the change if and only if it was before.
pub record Edits (db after : Db) (p : LeaseRow → Bool) (f : LeaseRow → LeaseRow) : Type 0 where
  pub handoffs : after.handoffs ≡ db.handoffs
  pub leases : after.leases ≡ update p f db.leases
  pub keys : (r : LeaseRow) → (f r).lease_id ≡ r.lease_id
  pub names : (r : LeaseRow) → (f r).handoff_id ≡ r.handoff_id
  pub epochs : (r : LeaseRow) → (f r).epoch ≡ r.epoch
  pub holders : (r : LeaseRow) → (f r).holder_device_id ≡ r.holder_device_id
  pub pending :
      (r : LeaseRow)
      → p r ≡ true
      → ((f r).state ≡ Lease.as_str Lease.handoff_pending)
        ↔ (r.state ≡ Lease.as_str Lease.handoff_pending)

pub data Change (db after : Db) : Type 0 where
  stays : Stays db after → Change db after
  opens :
      (row : HandoffRow) (lease_id : String) (lease : LeaseRow)
      → Opens db after row lease_id lease
      → Change db after
  verifies :
      (row : HandoffRow)
      → Advances db after row Handoff.target_prepare Handoff.target_verified
      → Change db after
  readies :
      (row : HandoffRow)
      → Advances db after row Handoff.target_verified Handoff.source_ready
      → Change db after
  releases : (row : HandoffRow) (now : ℕ) → Releases db after row now → Change db after
  transfers : (row : HandoffRow) (now : ℕ) → Transfers db after row now → Change db after
  edits : (p : LeaseRow → Bool) (f : LeaseRow → LeaseRow) → Edits db after p f → Change db after
