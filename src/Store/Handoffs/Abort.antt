-- ===== src/Store/Handoffs/Abort.antt =====
-- `abort_handoff_at` on each of its branches.
use devrelay.Prelude.{ℕ, ◌≡◌, refl, String, true, false, some, arith, ◌∙◌}
use devrelay.Sql.Laws.{find-exists, exists-update, map_option, revise}
use devrelay.Handoff
use devrelay.Handoff.{HandoffRecord}
use devrelay.Handoff.Codec.{parse-as_str, is_terminal-parse}
use devrelay.Store.Db.{Db, HandoffRow, handoff_record_from_row}
use devrelay.Store.Tx.{ok, err, cannot_abort_committed}
use devrelay.Store.Handoffs.Queries.{Json, handoff_key, has_project}
use devrelay.Store.Handoffs.Finish.{abort_handoff_at}
use devrelay.Store.Handoffs.Change.{
  lease_at, handoff_at, in_state, is_open, give_back, mark_aborted,
}
use devrelay.Store.Handoffs.Effects.{handoff_at-id}
use devrelay.Store.Handoffs.Keeping.{released}
use devrelay.Store.Handoffs.Views.{lease_at-Releases, lookup-Releases}
use devrelay.Store.Handoffs.Recovery.{abort_ok-Releases, aborted_state}

module _ (json : Json) (h : String) (now : ℕ) (reason : String) (db : Db) (row : HandoffRow)
    (found : handoff_at db h ≡ some row) where
  abort_succeeds :
      is_open row ≡ true
      → has_project row.project_id db ≡ true
      → (abort_handoff_at json h now reason db).0
        ≡ ok (record (handoff_record_from_row row) { state = Handoff.aborted })
  unfolding abort_handoff_at handoff_record_from_row Handoff.is_terminal
  abort_succeeds o p = ground (
    arith,
    is_terminal-parse row.state,
    handoff_at-id db h row found,
    json.reason_parses reason,
    find-exists (handoff_key h) db.handoffs found,
    exists-update (handoff_key h) (handoff_key h) (mark_aborted now) (λ r. refl) db.handoffs,
  )

  abort_finished :
      in_state Handoff.aborted row ≡ true
      → abort_handoff_at json h now reason db ≡ (ok (handoff_record_from_row row), db)
  unfolding abort_handoff_at
  abort_finished s = ground arith

  -- A committed handoff cannot be aborted: the call fails and changes nothing.
  abort_committed :
      in_state Handoff.committed row ≡ true
      → abort_handoff_at json h now reason db ≡ (err cannot_abort_committed, db)
  unfolding abort_handoff_at
  abort_committed s = ground arith

  open_not_aborted : is_open row ≡ true → in_state Handoff.aborted row ≡ false
  unfolding handoff_record_from_row Handoff.is_terminal
  open_not_aborted o = ground (arith, is_terminal-parse row.state)

aborted_record :
    (row : HandoffRow) (now : ℕ)
    → handoff_record_from_row (mark_aborted now row)
      ≡ record (handoff_record_from_row row) { state = Handoff.aborted }
unfolding handoff_record_from_row
aborted_record row now = rw (parse-as_str Handoff.aborted)

-- An open handoff of an existing project can always be aborted. Then the lease bound to it is active
-- again with its old holder and epoch, every other lease is as it was, and a second abort, at any
-- time and for any reason, returns the same record and changes nothing.
pub abort_handoff_once :
    (json : Json) (h : String) (now later : ℕ) (reason again : String) (db : Db) (row : HandoffRow)
    → handoff_at db h ≡ some row
    → is_open row ≡ true
    → has_project row.project_id db ≡ true
    → let (r, after) = abort_handoff_at json h now reason db in
      (r ≡ ok (record (handoff_record_from_row row) { state = Handoff.aborted }))
      × ((k : String)
          → lease_at after k ≡ map_option (revise (released row) give_back) (lease_at db k))
      × (abort_handoff_at json h later again after ≡ (r, after))
abort_handoff_once json h now later reason again db row f o p =
    let done = abort_succeeds json h now reason db row f o p in
    let gave_back =
      abort_ok-Releases json h "" now db row f reason _
        (open_not_aborted json h now reason db row f o) done in
    (
      done,
      lease_at-Releases db _ row now gave_back,
      abort_finished json h later again _ (mark_aborted now row)
            (lookup-Releases db _ row now h gave_back (handoff_at-id db h row f))
            (aborted_state row now)
          ∙ ground (arith, done, aborted_record row now),
    )
