-- ===== src/Store/Handoffs/Commit.antt =====
-- What `commit_handoff_inner` does on each of its branches.
use devrelay.Prelude.{
  ℕ, ◌+◌, ◌<◌, ◌≡◌, ◌≢◌, refl, ap, String, true, ◌&&◌, Option, none, some, inl, inr, ◌⊎◌, arith,
  is_some_of, is_self, Option-cases, eq_iff,
}
use devrelay.Prelude.Int.{pos, as_i64, eqb_ℤ, i64_bound}
use devrelay.Sql.{count}
use devrelay.Sql.Laws.{find-update, count-one, find-exists, exists-update, revise, map_option}
use devrelay.Lease
use devrelay.Handoff
use devrelay.Handoff.{HandoffRecord}
use devrelay.Handoff.Codec.{parse-as_str, is_terminal-parse}
use devrelay.Store.Db.{Db, LeaseRow, HandoffRow, handoff_record_from_row}
use devrelay.Store.Tx.{Error, ok, err}
use devrelay.Store.Revocations.{get_device_revocation}
use devrelay.Store.Handoffs.Queries.{lease_key, handoff_key, has_project}
use devrelay.Store.Handoffs.Finish.{
  is_bound_to, abort_reason, SnapshotPreflight, commit_handoff_inner,
}
use devrelay.Store.Handoffs.Change.{
  lease_at, handoff_at, Releases, Transfers, is_open, in_state, give_back, mark_aborted,
  mark_committed,
}
use devrelay.Store.Handoffs.Effects.{handoff_at-id}
use devrelay.Store.Handoffs.Invariant.{IsConsistent, IsHeldBy}
use devrelay.Store.Handoffs.Keeping.{open_if_in_state, holder-bound, released}
use devrelay.Store.Handoffs.Views.{
  lease_at-Transfers, lease_at-Transfers_ne, lookup-Transfers, hand_over-held, lookup-Releases,
  lease_at-Releases,
}

-- The preflight passes: there is none, or its snapshot is the project's and has all its sidecars.
abbrev pub PreflightPasses : Option SnapshotPreflight → HandoffRow → Type 0
PreflightPasses none row = Unit
PreflightPasses (some p) row = (p.project_id ≡ row.project_id) × (p.missing_sidecar ≡ none)

-- The record that a commit returns.
abbrev pub committed_record : HandoffRow → HandoffRecord
committed_record row = record (handoff_record_from_row row) { state = Handoff.committed }

-- The lease of an open handoff meets the commit's condition on it.
held_bound :
    (h l : String) (row : HandoffRow) (lease : LeaseRow) (n : ℕ)
    → IsHeldBy (some lease) row
    → row.handoff_id ≡ h
    → lease.epoch ≡ pos n
    → n < i64_bound
    → (eqb_ℤ lease.epoch (as_i64 (handoff_record_from_row row).expected_epoch)
        && is_some_of lease.handoff_id h)
      ≡ true
unfolding handoff_record_from_row
held_bound h l row lease n held i e small = ground (arith, is_self h)

-- The lease that an open handoff holds is the one row that a commit changes.
bound_once :
    (db : Db) (h l : String) (row : HandoffRow) (lease : LeaseRow) (n : ℕ)
    → IsConsistent db
    → handoff_at db h ≡ some row
    → is_open row ≡ true
    → row.lease_id ≡ some l
    → lease_at db l ≡ some lease
    → lease.epoch ≡ pos n
    → n < i64_bound
    → count (is_bound_to (handoff_record_from_row row) h) db.leases ≡ 1
unfolding handoff_record_from_row
bound_once db h l row lease n c f w e at epoch small =
    count-one (lease_key (handoff_record_from_row row).lease_id)
      (λ x.
        eqb_ℤ x.epoch (as_i64 (handoff_record_from_row row).expected_epoch)
        && is_some_of x.handoff_id h)
      db.leases {x = lease} (c.lease_ids (handoff_record_from_row row).lease_id) (rw e at)
      (held_bound h l row lease n (rw at at (c.open_holds h l row f w e)) (handoff_at-id db h row f)
        epoch small)

module _ (h generation : String) (now : ℕ) (preflight : Option SnapshotPreflight) (db : Db) where
  -- A commit that returns an error has changed nothing, or has given the lease back because the
  -- handoff expired or the source generation changed.
  commit_error_found :
      (row : HandoffRow) (e : Error)
      → handoff_at db h ≡ some row
      → row.handoff_id ≡ h
      → (commit_handoff_inner h generation now preflight db).0 ≡ err e
      → ((commit_handoff_inner h generation now preflight db).1 ≡ db)
        ⊎ (Releases db (commit_handoff_inner h generation now preflight db).1 row now
            × (abort_reason (handoff_record_from_row row) generation now ≢ none))
  unfolding commit_handoff_inner handoff_record_from_row Handoff.is_terminal
  commit_error_found row e f i r = ground (
    arith,
    is_terminal-parse row.state,
    find-update (handoff_key h) (handoff_key h) (mark_committed now) (λ r. refl) db.handoffs,
  )

  commit_unknown :
      handoff_at db h ≡ none → (commit_handoff_inner h generation now preflight db).1 ≡ db
  unfolding commit_handoff_inner
  commit_unknown gone = ground arith

  commit_ok_found :
      (row : HandoffRow) (l : String) (lease : LeaseRow)
      → handoff_at db h ≡ some row
      → row.handoff_id ≡ h
      → in_state Handoff.source_ready row ≡ true
      → abort_reason (handoff_record_from_row row) generation now ≡ none
      → get_device_revocation (handoff_record_from_row row).target_device_id db ≡ none
      → PreflightPasses preflight row
      → db.fault ≡ none
      → has_project row.project_id db ≡ true
      → count (is_bound_to (handoff_record_from_row row) h) db.leases ≡ 1
      → (commit_handoff_inner h generation now preflight db).0 ≡ ok (committed_record row)
  unfolding commit_handoff_inner handoff_record_from_row
  commit_ok_found row l lease f i s a t p n pr o = ground (
    arith,
    is_self row.project_id,
    eq_iff row.handoff_id h,
    parse-as_str Handoff.committed,
    find-update (handoff_key h) (handoff_key h) (mark_committed now) (λ r. refl) db.handoffs,
    find-exists (handoff_key h) db.handoffs f,
    exists-update (handoff_key h) (handoff_key h) (mark_committed now) (λ r. refl) db.handoffs,
  )

  pub commit_ok-Transfers :
      (row : HandoffRow) (r : HandoffRecord)
      → handoff_at db h ≡ some row
      → row.handoff_id ≡ h
      → (commit_handoff_inner h generation now preflight db).0 ≡ ok r
      → Transfers db (commit_handoff_inner h generation now preflight db).1 row now
  unfolding commit_handoff_inner
  commit_ok-Transfers row r f i e = ground arith

  -- If the handoff holds its lease, was marked ready, has not expired at `now`, and the source
  -- generation is the recorded one; if the target is not revoked, the preflight passes, the project
  -- exists, no fault is injected, and the epoch stays below 2^63: then the commit succeeds with the
  -- handoff in state `committed`. The lease is active, held by the target, free of the handoff and
  -- one epoch later, every other lease is as it was, and the stored handoff is committed at `now`.
  pub commit_handoff_transfers :
      (row : HandoffRow) (l : String) (lease : LeaseRow) (n : ℕ)
      → IsConsistent db
      → handoff_at db h ≡ some row
      → in_state Handoff.source_ready row ≡ true
      → row.lease_id ≡ some l
      → lease_at db l ≡ some lease
      → lease.epoch ≡ pos n
      → n + 1 < i64_bound
      → abort_reason (handoff_record_from_row row) generation now ≡ none
      → get_device_revocation (handoff_record_from_row row).target_device_id db ≡ none
      → PreflightPasses preflight row
      → db.fault ≡ none
      → has_project row.project_id db ≡ true
      → let (r, after) = commit_handoff_inner h generation now preflight db in
        (r ≡ ok (committed_record row))
        × (lease_at after l
            ≡ some (record lease {
              state = Lease.as_str Lease.active;
              epoch = pos (n + 1);
              holder_device_id = some (handoff_record_from_row row).target_device_id;
              handoff_id = none;
            }))
        × ((k : String) → k ≢ l → lease_at after k ≡ lease_at db k)
        × (handoff_at after h ≡ some (mark_committed now row))
  commit_handoff_transfers row l lease n c f s w at epoch small a t p nf pr =
      let i : row.handoff_id ≡ h = handoff_at-id db h row f in
      let pending : is_open row ≡ true =
        open_if_in_state Handoff.source_ready row (unfold Handoff.is_terminal in refl) s in
      let held : IsHeldBy (some lease) row = rw at at (c.open_holds h l row f pending w) in
      let done : (commit_handoff_inner h generation now preflight db).0
          ≡ ok (committed_record row) =
        commit_ok_found row l lease f i s a t p nf pr
          (bound_once db h l row lease n c f pending w at epoch (omega arith)) in
      let moved : Transfers db (commit_handoff_inner h generation now preflight db).1 row now =
        commit_ok-Transfers row (committed_record row) f i done in
      (
        done,
        rw (lease_at-Transfers db _ row now moved l) (
            rw at (
              rw (holder-bound db _ row now moved c l lease at w)
                (ap some (hand_over-held row lease n held epoch small)))),
        λ k. lease_at-Transfers_ne db _ row now moved l k w,
        lookup-Transfers db _ row now h moved i,
      )

  -- A commit that returns an error has changed nothing, or has given the lease back: the handoff
  -- is aborted at `now`, and its lease, if bound to it, is active with its old holder and epoch.
  -- The second happens only if the handoff expired or the observed generation is another one.
  pub commit_handoff_fails :
      (e : Error)
      → (commit_handoff_inner h generation now preflight db).0 ≡ err e
      → let after = (commit_handoff_inner h generation now preflight db).1 in
        (after ≡ db)
        ⊎ ((row : HandoffRow) × (handoff_at db h ≡ some row)
            × (abort_reason (handoff_record_from_row row) generation now ≢ none)
            × (handoff_at after h ≡ some (mark_aborted now row))
            × ((k : String)
                → lease_at after k ≡ map_option (revise (released row) give_back) (lease_at db k)))
  commit_handoff_fails e r = elim (Option-cases (handoff_at db h)) [
    | inl gone ↦ inl (commit_unknown gone)
    | inr (row, f) ↦ elim (commit_error_found row e f (handoff_at-id db h row f) r) [
      | inl same ↦ inl same
      | inr (gave_back, reason) ↦ inr (
        row,
        f,
        reason,
        lookup-Releases db _ row now h gave_back (handoff_at-id db h row f),
        lease_at-Releases db _ row now gave_back,
      )
    ]
  ]
