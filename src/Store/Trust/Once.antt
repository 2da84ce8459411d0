-- ===== src/Store/Trust/Once.antt =====
-- An allow-once decision authorizes one run.
use devrelay.Prelude.{
  ℕ, ◌≡◌, ◌≢◌, ◌∙◌, refl, ap, String, false, Option, none, some, inl, inr, arith, Option-cases,
}
use devrelay.Sql.{update, filter}
use devrelay.Sql.Laws.{filter-update, earliest-update, revise, map_option}
use devrelay.Store.Tables.{ApprovalRow}
use devrelay.Store.Db.{Db}
use devrelay.Store.Tx.{ok}
use devrelay.Store.Trust.{
  CommandTrustEvaluation, approved_once, approved, authorize_command_trust_at, latest_row,
  for_command, later, is_unconsumed, consume, parse_decision, allow_once,
}

for_command-revise :
    (project device scope : String) (hash : Option String) (id now : ℕ) (r : ApprovalRow)
    → for_command project device scope hash (consume now r)
      ≡ for_command project device scope hash r
for_command-revise project device scope none id now r = refl
for_command-revise project device scope (some hash) id now r = refl

later-revise :
    (id now : ℕ) (x y : ApprovalRow)
    → later (revise (is_unconsumed id) (consume now) x) (revise (is_unconsumed id) (consume now) y)
      ≡ later x y
later-revise id now x y = ground arith

-- The rows that a command's lookup sees once an approval is consumed.
latest_row-consume :
    (project device scope : String) (hash : Option String) (id now : ℕ) (db : Db)
    → latest_row project device scope hash (record db {
      command_trust_approvals = update (is_unconsumed id) (consume now) db.command_trust_approvals;
    })
      ≡ map_option
          (revise (is_unconsumed id) (consume now))
          (latest_row project device scope hash db)
unfolding latest_row
latest_row-consume project device scope hash id now db =
    rw
      (filter-update (for_command project device scope hash) (is_unconsumed id) (consume now)
        (for_command-revise project device scope hash id now) db.command_trust_approvals)
      (earliest-update later (is_unconsumed id) (consume now) (later-revise id now)
        (filter (for_command project device scope hash) db.command_trust_approvals))

module _ (project device scope hash : String) (now : ℕ) (db : Db) (row : ApprovalRow)
    (at : latest_row project device scope (some hash) db ≡ some row) where
  approves_once :
      (e : CommandTrustEvaluation)
      → (authorize_command_trust_at project device scope hash now db).0 ≡ ok e
      → e.status ≡ approved_once
      → (authorize_command_trust_at project device scope hash now db).1 ≡ record db {
        command_trust_approvals =
            update (is_unconsumed row.approval_id) (consume now) db.command_trust_approvals;
      }
  unfolding authorize_command_trust_at
  approves_once e h a = ground arith

  approved_row :
      (e : CommandTrustEvaluation)
      → (authorize_command_trust_at project device scope hash now db).0 ≡ ok e
      → e.status ≡ approved_once
      → (parse_decision row.decision ≡ some allow_once) × (row.consumed_at_unix_seconds ≡ none)
  unfolding authorize_command_trust_at
  approved_row e h a = ground arith

  consumed_refused :
      (e : CommandTrustEvaluation)
      → parse_decision row.decision ≡ some allow_once
      → row.consumed_at_unix_seconds ≢ none
      → (authorize_command_trust_at project device scope hash now db).0 ≡ ok e
      → approved e.status ≡ false
  unfolding authorize_command_trust_at approved
  consumed_refused e d c h = ground arith

consumes :
    (now : ℕ) (row : ApprovalRow)
    → row.consumed_at_unix_seconds ≡ none
    → revise (is_unconsumed row.approval_id) (consume now) row ≡ consume now row
consumes now row fresh = ground arith

approved_found :
    (project device scope hash : String) (now : ℕ) (db : Db) (e : CommandTrustEvaluation)
    → (authorize_command_trust_at project device scope hash now db).0 ≡ ok e
    → e.status ≡ approved_once
    → latest_row project device scope (some hash) db ≢ none
unfolding authorize_command_trust_at
approved_found project device scope hash now db e h a gone = ground arith

-- An allow-once decision authorizes one run: after an authorization that says `approved_once`, the
-- next one for the same command, at any time, does not approve it.
pub authorize_command_once :
    (project device scope hash : String) (now later_on : ℕ) (db : Db)
    (first second : CommandTrustEvaluation)
    → (authorize_command_trust_at project device scope hash now db).0 ≡ ok first
    → first.status ≡ approved_once
    → (authorize_command_trust_at project device scope hash later_on
        (authorize_command_trust_at project device scope hash now db).1).0
      ≡ ok second
    → approved second.status ≡ false
authorize_command_once project device scope hash now later_on db first second h a h' =
    elim (Option-cases (latest_row project device scope (some hash) db)) [
      | inl gone ↦ absurd (approved_found project device scope hash now db first h a gone)
      | inr (row, at) ↦
          let (allows, fresh) = approved_row project device scope hash now db row at first h a in
          let after : Db = record db {
            command_trust_approvals =
                update (is_unconsumed row.approval_id) (consume now) db.command_trust_approvals;
          } in
          let seen : latest_row project device scope (some hash) after ≡ some (consume now row) =
            latest_row-consume project device scope (some hash) row.approval_id now db
            ∙ rw at (ap some (consumes now row fresh)) in
          consumed_refused project device scope hash later_on after (consume now row) seen second
            allows (λ e. ground (arith, e))
            (rw (approves_once project device scope hash now db row at first h a) at h')
    ]
