-- ===== src/Store/Handoffs/Marking.antt =====
-- What a mark of a handoff, `target-verified` or `source-ready`, finds and leaves where it succeeds.
use devrelay.Prelude.{
  ℕ, ◌≡◌, refl, String, Bool, true, false, ◌&&◌, some, arith, is_self, ◌is◌, ◌==◌,
}
use devrelay.Sql.{count, exists, update}
use devrelay.Sql.Laws.{find-update, find_holds, find-exists, exists-update}
use devrelay.Sql.Laws.Rows.{find-Memᴰ, none_counted}
use devrelay.Handoff
use devrelay.Handoff.{HandoffState, HandoffJournalPhase}
use devrelay.Handoff.Codec.{parse-as_str}
use devrelay.Store.Db.{Db, HandoffRow, handoff_record_from_row}
use devrelay.Store.Tx.{ok}
use devrelay.Store.Revocations.{get_device_revocation}
use devrelay.Store.Handoffs.Queries.{handoff_key, has_project}
use devrelay.Store.Handoffs.Progress.{update_handoff_state}
use devrelay.Store.Handoffs.Change.{handoff_at, restate}
use devrelay.Store.Handoffs.Effects.{handoff_at-id}

same_state_self : (s : HandoffState) → Handoff.same_state s s ≡ true
same_state_self Handoff.target_prepare = refl
same_state_self Handoff.target_verified = refl
same_state_self Handoff.source_ready = refl
same_state_self Handoff.committed = refl
same_state_self Handoff.aborted = refl

-- What the rest of a handoff reads of the database, besides handoffs and leases.
pub record Keeps (db after : Db) : Type 0 where
  pub leases : after.leases ≡ db.leases
  pub device_revocations : after.device_revocations ≡ db.device_revocations
  pub projects : after.projects ≡ db.projects
  pub fault : after.fault ≡ db.fault

module _ (now : ℕ) (h : String) (expected next : HandoffState) (phase : HandoffJournalPhase)
    (db : Db) (row : HandoffRow) (at : handoff_at db h ≡ some row)
    (state : row.state ≡ Handoff.as_str expected) where
  abbrev in_expected : HandoffRow → Bool
  in_expected r = handoff_key h r && r.state is Handoff.as_str expected

  expected_found : in_expected row ≡ true
  expected_found =
      ground (arith, find_holds (handoff_key h) db.handoffs at, state, is_self row.state)

  expected_counted : (count in_expected db.handoffs == 0) ≡ false
  expected_counted = ground (
    arith,
    none_counted in_expected db.handoffs (find-Memᴰ (handoff_key h) db.handoffs at) expected_found,
  )

  was_expected : Handoff.same_state (handoff_record_from_row row).state expected ≡ true
  unfolding handoff_record_from_row
  was_expected = rw (state, parse-as_str expected) (same_state_self expected)

  still_there :
      exists (handoff_key row.handoff_id) (update in_expected (restate next) db.handoffs) ≡ true
  still_there =
      rw
        (
          handoff_at-id db h row at,
          exists-update (handoff_key h) in_expected (restate next) (λ r. refl) db.handoffs,
        )
        (find-exists (handoff_key h) db.handoffs at)

  pub update_finds :
      has_project row.project_id db ≡ true
      → handoff_at (update_handoff_state now h expected next phase db).1 h ≡ some (restate next row)
  unfolding update_handoff_state
  update_finds p = ground (
    arith,
    was_expected,
    expected_counted,
    still_there,
    expected_found,
    find-update (handoff_key h) in_expected (restate next) (λ r. refl) db.handoffs,
  )

  pub update_answers :
      has_project row.project_id db ≡ true
      → (update_handoff_state now h expected next phase db).0
        ≡ ok (record (handoff_record_from_row row) { state = next })
  unfolding update_handoff_state
  update_answers p = ground (arith, was_expected, expected_counted, still_there)

  pub update-Keeps : Keeps db (update_handoff_state now h expected next phase db).1
  unfolding update_handoff_state
  update-Keeps = ground arith

pub same_revocation :
    (device : String) (db after : Db)
    → after.device_revocations ≡ db.device_revocations
    → get_device_revocation device after ≡ get_device_revocation device db
unfolding get_device_revocation
same_revocation device db after e = rw e refl
