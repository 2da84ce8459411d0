-- ===== src/Store/Trust/Decision.antt =====
-- A new decision is the one that counts.
use mathlib.Core.List.{Memᴰ}
use devrelay.Prelude.{
  ℕ, suc, ◌≤◌, ◌≡◌, refl, String, true, false, none, some, [], ◌∷◌, ◌++◌, arith, is_self,
}
use devrelay.Prelude.Int.{as_i64, ltb_ℤ}
use devrelay.Sql.{filter}
use devrelay.Sql.Laws.Order.{filter-Memᴰ, earliest_last, filter_last}
use devrelay.Store.Tables.{ApprovalRow}
use devrelay.Store.Db.{Db}
use devrelay.Store.Tx.{ok}
use devrelay.Store.Trust.{
  CommandTrustEvaluation, CommandTrustRecord, CommandTrustDecision, CommandTrustStatus, allow_once,
  trust_this_version, reject, approved_once, trusted, rejected, evaluate_command_trust, latest_row,
  for_command, later, parse_decision, decision_as_str, new_approval_row,
  record_command_trust_decision_at, decoded, latest_command_trust_record,
  command_trust_record_from_row, validate_command_trust_input,
}

-- The status that a fresh decision gives.
abbrev pub decided : CommandTrustDecision → CommandTrustStatus
decided allow_once = approved_once
decided trust_this_version = trusted
decided reject = rejected

pub parse_decision-decision_as_str :
    (d : CommandTrustDecision) → parse_decision (decision_as_str d) ≡ some d
unfolding parse_decision decision_as_str
parse_decision-decision_as_str allow_once = refl
parse_decision-decision_as_str trust_this_version = refl
parse_decision-decision_as_str reject = refl

-- The stored decisions are not after `now`, and their ids are those that the table has given.
pub record IsPast (now : ℕ) (db : Db) : Type 0 where
  pub ids :
      (r : ApprovalRow) → Memᴰ r db.command_trust_approvals → r.approval_id ≤ db.approval_sequence
  pub times :
      (r : ApprovalRow)
      → Memᴰ r db.command_trust_approvals
      → ltb_ℤ (as_i64 now) r.created_at_unix_seconds ≡ false

module _ (project device scope hash : String) (decision : CommandTrustDecision) (now : ℕ) (db : Db)
    (r : CommandTrustRecord)
    (h : (record_command_trust_decision_at project device scope hash decision now db).0
      ≡ ok r) where
  abbrev new_row : ApprovalRow
  new_row = new_approval_row (suc db.approval_sequence) project device scope hash decision now

  new_row-later :
      IsPast now db → (x : ApprovalRow) → Memᴰ x db.command_trust_approvals → later new_row x ≡ true
  new_row-later c x m = ground (arith, c.ids x m, c.times x m)

  decision_stored :
      (record_command_trust_decision_at project device scope hash decision now
        db).1.command_trust_approvals
      ≡ db.command_trust_approvals ++ new_row ∷ []
  unfolding record_command_trust_decision_at
  decision_stored = ground arith

  new_row-for_command : for_command project device scope (some hash) new_row ≡ true
  new_row-for_command = ground (arith, is_self project, is_self device, is_self scope, is_self hash)

  decision_latest :
      IsPast now db
      → latest_row project device scope
          (some hash)
          (record_command_trust_decision_at project device scope hash decision now db).1
        ≡ some new_row
  unfolding latest_row
  decision_latest c =
      rw
        (
          decision_stored,
          filter_last (for_command project device scope (some hash)) db.command_trust_approvals
              new_row new_row-for_command,
        )
        (earliest_last later
          (filter (for_command project device scope (some hash)) db.command_trust_approvals) new_row
          (λ x m.
            new_row-later c x
              (filter-Memᴰ (for_command project device scope (some hash)) db.command_trust_approvals
                m).0))

  abbrev evaluation : CommandTrustEvaluation
  evaluation = record {
    status = decided decision;
    approval = some (decoded new_row decision);
    previous_hash = none;
  }

  decision_decodes :
      (after : Db)
      → latest_row project device scope (some hash) after ≡ some new_row
      → latest_command_trust_record project device scope (some hash) after
        ≡ ok (some (decoded new_row decision), after)
  unfolding latest_command_trust_record command_trust_record_from_row
  decision_decodes after at = ground (arith, parse_decision-decision_as_str decision)

  decision_valid :
      (after : Db) → validate_command_trust_input project device scope hash after ≡ ok (tt, after)
  unfolding record_command_trust_decision_at
  decision_valid after = ground arith

  decision_evaluates :
      (after : Db)
      → latest_command_trust_record project device scope (some hash) after
        ≡ ok (some (decoded new_row decision), after)
      → evaluate_command_trust project device scope hash after ≡ ok evaluation
  unfolding evaluate_command_trust
  decision_evaluates after at = ground (arith, decision_valid after)

  -- A recorded decision is the one that counts for its command from then on, if the stored ones
  -- are not later and have the ids that the table gave: to allow once approves once, to trust
  -- this version trusts, and to reject rejects, whatever was decided before.
  pub decision_counts :
      IsPast now db
      → evaluate_command_trust project device scope hash
          (record_command_trust_decision_at project device scope hash decision now db).1
        ≡ ok evaluation
  decision_counts c = decision_evaluates _ (decision_decodes _ (decision_latest c))
