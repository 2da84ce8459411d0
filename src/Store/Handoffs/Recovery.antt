-- ===== src/Store/Handoffs/Recovery.antt =====
-- `recover_handoff` and `abort_handoff_at`: what is left after them, and what a second call does.
use devrelay.Prelude.{
  ℕ, ◌≡◌, ◌≢◌, refl, String, true, false, none, some, inl, inr, arith, Option-cases,
}
use devrelay.Handoff
use devrelay.Handoff.{
  HandoffRecord, HandoffRecoveryOutcome, waiting_for_target, handoff_committed, aborted_expired,
  already_committed, already_aborted,
}
use devrelay.Handoff.Codec.{parse-as_str, is_terminal-parse}
use devrelay.Store.Db.{Db, HandoffRow, handoff_record_from_row}
use devrelay.Store.Tx.{ok, err, unknown_handoff}
use devrelay.Store.Handoffs.Queries.{Json}
use devrelay.Store.Handoffs.Finish.{abort_handoff_at, commit_handoff_inner, recover_handoff}
use devrelay.Store.Handoffs.Change.{handoff_at, Releases, in_state, mark_aborted, mark_committed}
use devrelay.Store.Handoffs.Effects.{handoff_at-id}
use devrelay.Store.Handoffs.Views.{lookup-Releases, lookup-Transfers}
use devrelay.Store.Handoffs.Commit.{commit_ok-Transfers}

-- What a later recovery reports of a handoff that one has reported on.
abbrev pub reported : HandoffRecoveryOutcome → HandoffRecoveryOutcome
reported waiting_for_target = waiting_for_target
reported handoff_committed = already_committed
reported aborted_expired = already_aborted
reported already_committed = already_committed
reported already_aborted = already_aborted

module _ (json : Json) (h generation : String) (now : ℕ) (db : Db) (row : HandoffRow)
    (found : handoff_at db h ≡ some row) where
  recover_committed :
      in_state Handoff.committed row ≡ true
      → recover_handoff json h generation now db ≡ (ok already_committed, db)
  unfolding recover_handoff
  recover_committed s = ground arith

  recover_aborted :
      in_state Handoff.aborted row ≡ true
      → recover_handoff json h generation now db ≡ (ok already_aborted, db)
  unfolding recover_handoff
  recover_aborted s = ground arith

  recover_commits :
      (recover_handoff json h generation now db).0 ≡ ok handoff_committed
      → ((recover_handoff json h generation now db).1
          ≡ (commit_handoff_inner h generation now none db).1)
        × (r : HandoffRecord) × ((commit_handoff_inner h generation now none db).0 ≡ ok r)
  unfolding recover_handoff
  recover_commits e = ground arith

  recover_aborts :
      (recover_handoff json h generation now db).0 ≡ ok aborted_expired
      → ((recover_handoff json h generation now db).1
          ≡ (abort_handoff_at json h now "expired during recovery" db).1)
        × (r : HandoffRecord) × ((abort_handoff_at json h now "expired during recovery" db).0
            ≡ ok r)
        × (in_state Handoff.aborted row ≡ false)
  unfolding recover_handoff
  recover_aborts e = ground arith

  recover_rests :
      (recover_handoff json h generation now db).0 ≡ ok already_committed
      → ((recover_handoff json h generation now db).1 ≡ db)
        × (in_state Handoff.committed row ≡ true)
  unfolding recover_handoff
  recover_rests e = ground arith

  recover_rests_aborted :
      (recover_handoff json h generation now db).0 ≡ ok already_aborted
      → ((recover_handoff json h generation now db).1 ≡ db) × (in_state Handoff.aborted row ≡ true)
  unfolding recover_handoff
  recover_rests_aborted e = ground arith

  pub abort_ok-Releases :
      (reason : String) (r : HandoffRecord)
      → in_state Handoff.aborted row ≡ false
      → (abort_handoff_at json h now reason db).0 ≡ ok r
      → Releases db (abort_handoff_at json h now reason db).1 row now
  unfolding abort_handoff_at handoff_record_from_row Handoff.is_terminal
  abort_ok-Releases reason r s e =
      ground (arith, is_terminal-parse row.state, handoff_at-id db h row found)

recover_unknown :
    (json : Json) (h generation : String) (now : ℕ) (db : Db)
    → handoff_at db h ≡ none
    → recover_handoff json h generation now db ≡ (err (unknown_handoff h), db)
unfolding recover_handoff
recover_unknown json h generation now db gone = ground arith

committed_state :
    (row : HandoffRow) (now : ℕ) → in_state Handoff.committed (mark_committed now row) ≡ true
unfolding handoff_record_from_row
committed_state row now = rw (parse-as_str Handoff.committed)

pub aborted_state :
    (row : HandoffRow) (now : ℕ) → in_state Handoff.aborted (mark_aborted now row) ≡ true
unfolding handoff_record_from_row
aborted_state row now = rw (parse-as_str Handoff.aborted)

module _ (json : Json) (h generation later_generation : String) (now later : ℕ) (db : Db) where
  again :
      (o : HandoffRecoveryOutcome) (row : HandoffRow)
      → handoff_at db h ≡ some row
      → (recover_handoff json h generation now db).0 ≡ ok o
      → o ≢ waiting_for_target
      → let after = (recover_handoff json h generation now db).1 in
        recover_handoff json h later_generation later after ≡ (ok (reported o), after)
  again waiting_for_target row f e w = absurd (w refl)
  again handoff_committed row f e w =
      let (same, r, done) = recover_commits json h generation now db row f e in
      rw same (
        recover_committed json h later_generation later
          (commit_handoff_inner h generation now none db).1 (mark_committed now row)
          (lookup-Transfers db _ row now h
            (commit_ok-Transfers h generation now none db row r f (handoff_at-id db h row f) done)
            (handoff_at-id db h row f))
          (committed_state row now))
  again aborted_expired row f e w =
      let (same, r, done, not_yet) = recover_aborts json h generation now db row f e in
      rw same (
        recover_aborted json h later_generation later
          (abort_handoff_at json h now "expired during recovery" db).1 (mark_aborted now row)
          (lookup-Releases db _ row now h
            (abort_ok-Releases json h generation now db row f "expired during recovery" r not_yet
              done)
            (handoff_at-id db h row f))
          (aborted_state row now))
  again already_committed row f e w =
      let (same, s) = recover_rests json h generation now db row f e in
      rw same (recover_committed json h later_generation later db row f s)
  again already_aborted row f e w =
      let (same, s) = recover_rests_aborted json h generation now db row f e in
      rw same (recover_aborted json h later_generation later db row f s)

  -- Recovery is idempotent: once it has reported anything but that the target is awaited, any later
  -- recovery, with any observed generation at any time, changes nothing, and reports a committed
  -- handoff as already committed and an aborted one as already aborted.
  pub recover_handoff_again :
      (o : HandoffRecoveryOutcome)
      → (recover_handoff json h generation now db).0 ≡ ok o
      → o ≢ waiting_for_target
      → let after = (recover_handoff json h generation now db).1 in
        recover_handoff json h later_generation later after ≡ (ok (reported o), after)
  recover_handoff_again o e w = elim (Option-cases (handoff_at db h)) [
    | inl gone ↦ absurd (unknown gone)
    | inr (row, f) ↦ again o row f e w
  ]
    where
      unknown : handoff_at db h ≡ none → ⊥
      unknown gone = ground (arith, recover_unknown json h generation now db gone)
