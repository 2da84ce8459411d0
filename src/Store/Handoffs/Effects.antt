-- ===== src/Store/Handoffs/Effects.antt =====
-- Each handoff operation makes one of the changes of `Change`, whatever its arguments.
use devrelay.Prelude.{ℕ, ◌≡◌, refl, String, Option, none, some, inl, inr, arith, Option-cases}
use devrelay.Sql.Laws.{find_holds}
use devrelay.Handoff
use devrelay.Handoff.{HandoffRecord, target_prepare}
use devrelay.Handoff.Codec.{is_terminal-parse}
use devrelay.Store.Db.{Db, LeaseRow, HandoffRow, lease_record_from_row, handoff_record_from_row}
use devrelay.Store.Tx.{Error, Result, ok, err}
use devrelay.Store.Handoffs.Queries.{Json, lease_key, handoff_key}
use devrelay.Store.Handoffs.Progress.{
  begin_handoff, new_handoff_row, record_handoff_target_apply, mark_handoff_target_verified,
  mark_handoff_source_ready,
}
use devrelay.Store.Handoffs.Finish.{
  abort_handoff_at, commit_handoff_inner, recover_handoff, SnapshotPreflight,
}
use devrelay.Store.Handoffs.Change.{
  lease_at, handoff_at, Opens, Advances, Releases, Transfers, Stays, Change, stays, opens, verifies,
  readies, releases, transfers,
}
use devrelay.Prelude.{◌⊎◌, max, is→≡, is_some_of→≡}
use devrelay.Prelude.Int.{saturating_add}

Result-cases : {A : Type 0} (r : Result A) → ((a : A) × (r ≡ ok a)) ⊎ ((e : Error) × (r ≡ err e))
Result-cases (ok a) = inl (a, refl)
Result-cases (err e) = inr (e, refl)

-- The record that a successful `begin_handoff` returns.
abbrev pub begun_record :
    (now : ℕ) (h l source target generation : String) (ttl : ℕ) → LeaseRow → HandoffRecord
begun_record now h l source target generation ttl lease = record {
  handoff_id = h;
  lease_id = l;
  project_id = lease.project_id;
  expected_epoch = (lease_record_from_row lease).epoch;
  source_device_id = source;
  target_device_id = target;
  source_generation = generation;
  expires_at_unix_seconds = saturating_add now (max ttl 1);
  state = target_prepare;
}

begin_handoff-missing :
    (now : ℕ) (h l source target generation : String) (ttl : ℕ) (db : Db)
    → lease_at db l ≡ none
    → Stays db (begin_handoff now h l source target generation ttl db).1
unfolding begin_handoff
begin_handoff-missing now h l source target generation ttl db e = ground arith

begin_handoff-found :
    (now : ℕ) (h l source target generation : String) (ttl : ℕ) (db : Db) (lease : LeaseRow)
    → lease_at db l ≡ some lease
    → let after = (begin_handoff now h l source target generation ttl db).1 in
      Stays db after
      ⊎ Opens db after
          (new_handoff_row (begun_record now h l source target generation ttl lease) now)
          l
          lease
unfolding begin_handoff lease_record_from_row handoff_record_from_row
begin_handoff-found now h l source target generation ttl db lease e =
    ground (arith, is_some_of→≡ lease.holder_device_id source)

-- `begin_handoff` leaves leases and handoffs as they were, or opens a handoff of the lease.
pub begin_handoff-Change :
    (now : ℕ) (h l source target generation : String) (ttl : ℕ) (db : Db)
    → Change db (begin_handoff now h l source target generation ttl db).1
begin_handoff-Change now h l source target generation ttl db = elim (Option-cases (lease_at db l)) [
  | inl e ↦ stays (begin_handoff-missing now h l source target generation ttl db e)
  | inr (lease, e) ↦ elim (begin_handoff-found now h l source target generation ttl db lease e) [
    | inl same ↦ stays same
    | inr opened ↦
        opens (new_handoff_row (begun_record now h l source target generation ttl lease) now) l
          lease opened
  ]
]

-- The row that a lookup finds has the id that was looked up.
pub handoff_at-id :
    (db : Db) (h : String) (row : HandoffRow) → handoff_at db h ≡ some row → row.handoff_id ≡ h
handoff_at-id db h row f = is→≡ (find_holds (handoff_key h) db.handoffs f)

pub lease_at-id :
    (db : Db) (l : String) (row : LeaseRow) → lease_at db l ≡ some row → row.lease_id ≡ l
lease_at-id db l row f = is→≡ (find_holds (lease_key l) db.leases f)

pub target_apply-Change :
    (json : Json) (now : ℕ) (h : String) (detail : Option String) (db : Db)
    → Change db (record_handoff_target_apply json now h detail db).1
unfolding record_handoff_target_apply
target_apply-Change json now h detail db = stays (ground arith)

module _ (now : ℕ) (h : String) (db : Db) where
  target_verified-missing :
      handoff_at db h ≡ none → Stays db (mark_handoff_target_verified now h db).1
  unfolding mark_handoff_target_verified
  target_verified-missing e = ground arith

  target_verified-found :
      (row : HandoffRow)
      → handoff_at db h ≡ some row
      → row.handoff_id ≡ h
      → let after = (mark_handoff_target_verified now h db).1 in
        Stays db after ⊎ Advances db after row Handoff.target_prepare Handoff.target_verified
  unfolding mark_handoff_target_verified
  target_verified-found row f e = ground arith

  pub target_verified-Change : Change db (mark_handoff_target_verified now h db).1
  target_verified-Change = elim (Option-cases (handoff_at db h)) [
    | inl e ↦ stays (target_verified-missing e)
    | inr (row, f) ↦ elim (target_verified-found row f (handoff_at-id db h row f)) [
      | inl same ↦ stays same
      | inr advanced ↦ verifies row advanced
    ]
  ]

  source_ready-missing : handoff_at db h ≡ none → Stays db (mark_handoff_source_ready now h db).1
  unfolding mark_handoff_source_ready
  source_ready-missing e = ground arith

  source_ready-found :
      (row : HandoffRow)
      → handoff_at db h ≡ some row
      → row.handoff_id ≡ h
      → let after = (mark_handoff_source_ready now h db).1 in
        Stays db after ⊎ Advances db after row Handoff.target_verified Handoff.source_ready
  unfolding mark_handoff_source_ready
  source_ready-found row f e = ground arith

  pub source_ready-Change : Change db (mark_handoff_source_ready now h db).1
  source_ready-Change = elim (Option-cases (handoff_at db h)) [
    | inl e ↦ stays (source_ready-missing e)
    | inr (row, f) ↦ elim (source_ready-found row f (handoff_at-id db h row f)) [
      | inl same ↦ stays same
      | inr advanced ↦ readies row advanced
    ]
  ]

module _ (json : Json) (h : String) (now : ℕ) (reason : String) (db : Db) where
  abort-missing : handoff_at db h ≡ none → Stays db (abort_handoff_at json h now reason db).1
  unfolding abort_handoff_at
  abort-missing e = ground arith

  abort-found :
      (row : HandoffRow)
      → handoff_at db h ≡ some row
      → row.handoff_id ≡ h
      → let after = (abort_handoff_at json h now reason db).1 in
        Stays db after ⊎ Releases db after row now
  unfolding abort_handoff_at handoff_record_from_row Handoff.is_terminal
  abort-found row f e = ground (arith, is_terminal-parse row.state)

  pub abort-Change : Change db (abort_handoff_at json h now reason db).1
  abort-Change = elim (Option-cases (handoff_at db h)) [
    | inl e ↦ stays (abort-missing e)
    | inr (row, f) ↦ elim (abort-found row f (handoff_at-id db h row f)) [
      | inl same ↦ stays same
      | inr released ↦ releases row now released
    ]
  ]

module _ (h generation : String) (now : ℕ) (preflight : Option SnapshotPreflight) (db : Db) where
  commit-missing :
      handoff_at db h ≡ none → Stays db (commit_handoff_inner h generation now preflight db).1
  unfolding commit_handoff_inner
  commit-missing e = ground arith

  commit-found :
      (row : HandoffRow)
      → handoff_at db h ≡ some row
      → row.handoff_id ≡ h
      → let after = (commit_handoff_inner h generation now preflight db).1 in
        Stays db after ⊎ Releases db after row now ⊎ Transfers db after row now
  unfolding commit_handoff_inner handoff_record_from_row Handoff.is_terminal
  commit-found row f e = ground (arith, is_terminal-parse row.state)

  pub commit-Change : Change db (commit_handoff_inner h generation now preflight db).1
  commit-Change = elim (Option-cases (handoff_at db h)) [
    | inl e ↦ stays (commit-missing e)
    | inr (row, f) ↦ elim (commit-found row f (handoff_at-id db h row f)) [
      | inl same ↦ stays same
      | inr (inl released) ↦ releases row now released
      | inr (inr transferred) ↦ transfers row now transferred
    ]
  ]

module _ (json : Json) (h generation : String) (now : ℕ) (db : Db) where
  -- `recover_handoff` does nothing, aborts, or commits.
  recover-cases :
      let after = (recover_handoff json h generation now db).1 in
      (after ≡ db)
      ⊎ (after ≡ (abort_handoff_at json h now "expired during recovery" db).1)
      ⊎ (after ≡ (commit_handoff_inner h generation now none db).1)
  unfolding recover_handoff
  recover-cases = ground arith

  pub recover-Change : Change db (recover_handoff json h generation now db).1
  recover-Change = elim recover-cases [
    | inl same ↦ rw same (stays (record { handoffs = refl; leases = refl }))
    | inr (inl aborts) ↦ rw aborts (abort-Change json h now "expired during recovery" db)
    | inr (inr commits) ↦ rw commits (commit-Change h generation now none db)
  ]
