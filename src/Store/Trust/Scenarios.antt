-- ===== src/Store/Trust/Scenarios.antt =====
-- One command of project `p` on device `a`, allowed once: the theorems at concrete inputs.
use mathlib.Core.List.Memᴰ.{cases_cons}
use devrelay.Prelude.{◌≡◌, refl, String, false, none, some, [], ◌∷◌, ◌⊎◌, inl, inr, arith}
use devrelay.Prelude.Int.{pos}
use devrelay.Store.Tables.{ApprovalRow}
use devrelay.Store.Audit.{is_blank}
use devrelay.Store.Db.{Db}
use devrelay.Store.Tx.{ok}
use devrelay.Store.Trust.{
  CommandTrustEvaluation, CommandTrustRecord, allow_once, trust_this_version, reject, approved_once,
  rejected, unapproved, approved, evaluate_command_trust, authorize_command_trust_at,
  record_command_trust_decision_at, parse_decision, latest_row, decoded, new_approval_row,
  command_trust_record_from_row,
}
use devrelay.Store.Trust.Once.{authorize_command_once}
use devrelay.Store.Trust.Approval.{IsLatest, evaluate_approves}
use devrelay.Store.Trust.Decision.{IsPast, decision_counts}

abbrev hash : String
hash = "00000000000000000000000000000000000000000000000000000000000000ff"

abbrev allowed : ApprovalRow
allowed = record {
  approval_id = 1;
  project_id = "p";
  device_id = "a";
  command_scope = "test";
  command_hash = hash;
  decision = "allow-once";
  consumed_at_unix_seconds = none;
  created_at_unix_seconds = pos 100;
}

abbrev db : Db
db = record {
  projects = record { project_id = "p"; display_name = "demo" } ∷ [];
  leases = [];
  handoffs = [];
  handoff_journal = [];
  journal_sequence = 0;
  audit_events = [];
  audit_sequence = 0;
  device_revocations = [];
  workspaces = [];
  sessions = [];
  snapshots = [];
  command_trust_approvals = allowed ∷ [];
  approval_sequence = 1;
  devices = [];
  fabric_roots = [];
  device_public_identities = [];
  pairing_sessions = [];
  fault = none;
}

-- What the first authorization answers, and what the second one does.
abbrev first : CommandTrustEvaluation
first = record {
  status = approved_once;
  approval = some (record (decoded allowed allow_once) { consumed_at_unix_seconds = some 110 });
  previous_hash = none;
}

abbrev second : CommandTrustEvaluation
second = record { status = unapproved; approval = none; previous_hash = none }

authorize_command_once_example : approved second.status ≡ false
unfolding authorize_command_trust_at is_blank latest_row command_trust_record_from_row
    parse_decision
authorize_command_once_example =
    authorize_command_once "p" "a" "test" hash 110 120 db first second refl refl refl

abbrev evaluated : CommandTrustEvaluation
evaluated = record {
  status = approved_once;
  approval = some (decoded allowed allow_once);
  previous_hash = none;
}

evaluate_approves_example :
    (row : ApprovalRow) × IsLatest "p" "a" "test" hash db row
    × ((parse_decision row.decision ≡ some trust_this_version)
        ⊎ ((parse_decision row.decision ≡ some allow_once) × (row.consumed_at_unix_seconds ≡ none)))
unfolding evaluate_command_trust is_blank latest_row command_trust_record_from_row parse_decision
    approved
evaluate_approves_example = evaluate_approves "p" "a" "test" hash db evaluated refl refl

-- The stored decision is of an earlier time.
db-IsPast : IsPast 130 db
db-IsPast = record {
  ids = λ r m. elim (cases_cons m) [ inl e ↦ rw e (omega arith) | inr t ↦ elim t [ ] ];
  times = λ r m. elim (cases_cons m) [ inl e ↦ rw e refl | inr t ↦ elim t [ ] ];
}

abbrev rejection : CommandTrustRecord
rejection = decoded (new_approval_row 2 "p" "a" "test" hash reject 130) reject

decision_counts_example :
    evaluate_command_trust "p" "a" "test" hash
      (record_command_trust_decision_at "p" "a" "test" hash reject 130 db).1
    ≡ ok (record { status = rejected; approval = some rejection; previous_hash = none })
unfolding record_command_trust_decision_at is_blank
decision_counts_example = decision_counts "p" "a" "test" hash reject 130 db rejection refl db-IsPast
