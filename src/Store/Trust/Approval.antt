-- ===== src/Store/Trust/Approval.antt =====
-- What an approval rests on: the latest decision for exactly that command.
use mathlib.Core.List.{Memᴰ}
use devrelay.Prelude.{
  ◌≡◌, ◌≤◌, ◌↔◌, eq_iff, false, ◌≢◌, String, true, false, none, some, inl, inr, ◌⊎◌, arith,
  Option-cases,
}
use devrelay.Sql.{filter}
use devrelay.Sql.Laws.Rows.{Memᴰ-filter}
use devrelay.Prelude.Int.{ltb_ℤ}
use devrelay.Sql.Laws.Order.{IsOrder, filter-Memᴰ, earliest-first, earliest-Memᴰ}
use devrelay.Store.Tables.{ApprovalRow}
use devrelay.Store.Db.{Db}
use devrelay.Store.Tx.{ok}
use devrelay.Store.Trust.{
  CommandTrustEvaluation, approved, evaluate_command_trust, latest_row, for_command, later,
  parse_decision, allow_once, trust_this_version,
}

pub later-IsOrder : IsOrder later
later-IsOrder = record {
  irrefl = λ x. ground arith;
  asym = λ x y h. ground arith;
  skip = λ x y z h k. ground arith;
}

-- The row is a decision for this command.
abbrev pub IsFor : (project device scope hash : String) → ApprovalRow → Type 0
IsFor project device scope hash row =
    (row.project_id ≡ project)
    × (row.device_id ≡ device)
    × (row.command_scope ≡ scope)
    × (row.command_hash ≡ hash)

-- The first row is not of a later time, and at the same time has no greater id.
abbrev pub NotAfter : ApprovalRow → ApprovalRow → Type 0
NotAfter r row =
    (ltb_ℤ row.created_at_unix_seconds r.created_at_unix_seconds ≡ false)
    × ((r.created_at_unix_seconds ≡ row.created_at_unix_seconds) → r.approval_id ≤ row.approval_id)

-- The row is a decision for this command, and no other one for it in the table is after it.
abbrev pub IsLatest : (project device scope hash : String) → Db → ApprovalRow → Type 0
IsLatest project device scope hash db row =
    Memᴰ row db.command_trust_approvals
    × IsFor project device scope hash row
    × ((r : ApprovalRow)
        → Memᴰ r db.command_trust_approvals
        → IsFor project device scope hash r
        → NotAfter r row)

for_command-IsFor :
    (project device scope hash : String) (row : ApprovalRow)
    → (for_command project device scope (some hash) row ≡ true)
      ↔ IsFor project device scope hash row
for_command-IsFor project device scope hash row = (
  λ h. (
    ground (arith, eq_iff row.project_id project),
    ground (arith, eq_iff row.device_id device),
    ground (arith, eq_iff row.command_scope scope),
    ground (arith, eq_iff row.command_hash hash),
  ),
  λ (p, d, s, h). ground (
    arith,
    eq_iff row.project_id project,
    eq_iff row.device_id device,
    eq_iff row.command_scope scope,
    eq_iff row.command_hash hash,
  ),
)

later-NotAfter : (r row : ApprovalRow) → later r row ≡ false → NotAfter r row
later-NotAfter r row h = (ground arith, λ e. ground arith)

latest_row-IsLatest :
    (project device scope hash : String) (db : Db) (row : ApprovalRow)
    → latest_row project device scope (some hash) db ≡ some row
    → IsLatest project device scope hash db row
unfolding latest_row
latest_row-IsLatest project device scope hash db row at =
    let chosen = for_command project device scope (some hash) in
    let rows = filter chosen db.command_trust_approvals in
    let (found, holds) =
      filter-Memᴰ chosen db.command_trust_approvals (earliest-Memᴰ later rows row at) in
    (
      found,
      (for_command-IsFor project device scope hash row).0 holds,
      λ r m i. later-NotAfter r row (
          earliest-first later later-IsOrder rows row at r (
            Memᴰ-filter chosen db.command_trust_approvals m
              ((for_command-IsFor project device scope hash r).1 i))),
    )

module _ (project device scope hash : String) (db : Db) (e : CommandTrustEvaluation)
    (h : evaluate_command_trust project device scope hash db ≡ ok e)
    (a : approved e.status ≡ true) where
  approval_found : latest_row project device scope (some hash) db ≢ none
  unfolding evaluate_command_trust approved
  approval_found gone = ground arith

  approval_allows :
      (row : ApprovalRow)
      → latest_row project device scope (some hash) db ≡ some row
      → (parse_decision row.decision ≡ some trust_this_version)
        ⊎ ((parse_decision row.decision ≡ some allow_once) × (row.consumed_at_unix_seconds ≡ none))
  unfolding evaluate_command_trust approved
  approval_allows row at = ground arith

  -- A command is approved only by a decision for exactly its project, device, scope and hash, the
  -- latest one of them in time (and the last stored at that time): to trust this version, or to
  -- allow it once, not yet consumed.
  pub evaluate_approves :
      (row : ApprovalRow) × IsLatest project device scope hash db row
      × ((parse_decision row.decision ≡ some trust_this_version)
          ⊎ ((parse_decision row.decision ≡ some allow_once)
              × (row.consumed_at_unix_seconds ≡ none)))
  evaluate_approves = elim (Option-cases (latest_row project device scope (some hash) db)) [
    | inl gone ↦ absurd (approval_found gone)
    | inr (row, at) ↦
        (row, latest_row-IsLatest project device scope hash db row at, approval_allows row at)
  ]
