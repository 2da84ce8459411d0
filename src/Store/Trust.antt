-- ===== src/Store/Trust.antt =====
-- Command trust: `record_command_trust_decision_at`, `evaluate_command_trust`,
-- `authorize_command_trust_at` and their helpers of crates/devrelay-core/src/storage.rs.
pub mod Once
pub mod Approval
pub mod Decision
mod Scenarios
use Prim.Native.Char.{code}
use Prim.Native.String.{◌++◌ as append}
use devrelay.Prelude.{
  ℕ, suc, String, Bool, true, false, ◌&&◌, ◌||◌, not, Option, none, some, [], ◌∷◌, ◌++◌, leb, ltb,
  ◌==◌, ◌is◌, if◌then◌else◌,
}
use devrelay.Prelude.Int.{as_i64, max_0, ltb_ℤ, eqb_ℤ}
use devrelay.Sql.{exists, filter, update, count, earliest}
use devrelay.Sql.Laws.{map_option}
use devrelay.Pairing.{char_count}
use devrelay.Store.Tables.{ApprovalRow}
use devrelay.Store.Db.{
  Db, AuditEventInput, command_approved, security_blocked, succeeded, blocked, command_decision,
}
use devrelay.Store.Tx.{
  Result, ok, err, Tx, pure, fail, guard, constrain, execute, query, commit_ok, transaction, ◌>>=◌,
  ◌>>◌, blank_command_scope, bad_command_hash, unknown_decision,
}
use devrelay.Store.Audit.{is_blank, new_event, insert_audit_event_tx}
use devrelay.Store.Revocations.{validate_non_empty}
use devrelay.Store.Handoffs.Queries.{has_project}

pub data CommandTrustDecision : Type 0 where
  allow_once trust_this_version reject : CommandTrustDecision

unfoldable pub decision_as_str : CommandTrustDecision → String
decision_as_str allow_once = "allow-once"
decision_as_str trust_this_version = "trust-this-version"
decision_as_str reject = "reject"

unfoldable pub parse_decision : String → Option CommandTrustDecision
parse_decision value =
    if value is "allow-once"
    then some allow_once
    else if value is "trust-this-version"
    then some trust_this_version
    else if value is "reject"
    then some reject
    else none

abbrev pub is_approval : CommandTrustDecision → Bool
is_approval allow_once = true
is_approval trust_this_version = true
is_approval reject = false

pub data CommandTrustStatus : Type 0 where
  approved_once trusted rejected changed unapproved : CommandTrustStatus

unfoldable pub approved : CommandTrustStatus → Bool
approved approved_once = true
approved trusted = true
approved rejected = false
approved changed = false
approved unapproved = false

pub record CommandTrustRecord : Type 0 where
  pub approval_id : ℕ
  pub project_id : String
  pub device_id : String
  pub command_scope : String
  pub command_hash : String
  pub decision : CommandTrustDecision
  pub consumed_at_unix_seconds : Option ℕ
  pub created_at_unix_seconds : ℕ

pub record CommandTrustEvaluation : Type 0 where
  pub status : CommandTrustStatus
  pub approval : Option CommandTrustRecord
  pub previous_hash : Option String

abbrev pub decoded : ApprovalRow → CommandTrustDecision → CommandTrustRecord
decoded row decision = record {
  approval_id = row.approval_id;
  project_id = row.project_id;
  device_id = row.device_id;
  command_scope = row.command_scope;
  command_hash = row.command_hash;
  decision = decision;
  consumed_at_unix_seconds = map_option max_0 row.consumed_at_unix_seconds;
  created_at_unix_seconds = max_0 row.created_at_unix_seconds;
}

unfoldable pub command_trust_record_from_row : ApprovalRow → Result CommandTrustRecord
unfolding parse_decision
command_trust_record_from_row row = elim (parse_decision row.decision) [
  | none ↦ err unknown_decision
  | some decision ↦ ok (decoded row decision)
]

abbrev pub is_lower_hexdigit : ℕ → Bool
is_lower_hexdigit c = leb 0x30 c && leb c 0x39 || leb 0x61 c && leb c 0x66

unfoldable pub all_lower_hex : String → Bool
all_lower_hex String.[] = true
all_lower_hex (String.◌∷◌ c s) = is_lower_hexdigit (code c) && all_lower_hex s

-- Of a text of these digits, the characters are the bytes.
unfoldable pub is_command_hash : String → Bool
unfolding all_lower_hex char_count
is_command_hash value = (char_count value == 64) && all_lower_hex value

unfoldable pub validate_command_trust_input :
    (project_id device_id command_scope command_hash : String) → Tx (Unit {0})
unfolding is_blank is_command_hash
validate_command_trust_input project_id device_id command_scope command_hash = do
  validate_non_empty "project_id" project_id
  validate_non_empty "device_id" device_id
  validate_non_empty "command_scope" command_scope
  guard (not (is_blank command_scope)) blank_command_scope
  guard (is_command_hash command_hash) bad_command_hash

-- The row that a decision inserts.
abbrev pub new_approval_row :
    (approval_id : ℕ) (project_id device_id command_scope command_hash : String)
    → CommandTrustDecision
    → ℕ
    → ApprovalRow
new_approval_row approval_id project_id device_id command_scope command_hash decision now = record {
  approval_id = approval_id;
  project_id = project_id;
  device_id = device_id;
  command_scope = command_scope;
  command_hash = command_hash;
  decision = decision_as_str decision;
  consumed_at_unix_seconds = none;
  created_at_unix_seconds = as_i64 now;
}

abbrev decision_event :
    (project_id device_id command_scope command_hash : String)
    → CommandTrustDecision
    → AuditEventInput
decision_event project_id device_id command_scope command_hash decision =
    record (new_event (if is_approval decision then command_approved else security_blocked)
      (if is_approval decision then succeeded else blocked)
      (append
        (if is_approval decision
          then "approved command hash for "
          else "rejected command hash for ")
        command_scope)
      (command_decision command_scope command_hash (decision_as_str decision))) {
        project_id = some project_id;
        actor_device_id = some device_id;
      }

unfoldable pub record_command_trust_decision_at :
    (project_id device_id command_scope command_hash : String)
    → CommandTrustDecision
    → (created_at_unix_seconds : ℕ) → Db
    → Result CommandTrustRecord × Db
unfolding validate_command_trust_input decision_as_str exists insert_audit_event_tx
record_command_trust_decision_at project_id device_id command_scope command_hash decision
      created_at_unix_seconds =
    transaction do
      validate_command_trust_input project_id device_id command_scope command_hash
      constrain (has_project project_id)
      approval_id ← λ db. pure (suc db.approval_sequence) db
      execute λ db. record db {
        command_trust_approvals =
            db.command_trust_approvals
            ++ new_approval_row approval_id project_id device_id command_scope command_hash decision
                created_at_unix_seconds
              ∷ [];
        approval_sequence = approval_id;
      }
      insert_audit_event_tx
          (decision_event project_id device_id command_scope command_hash decision)
          created_at_unix_seconds
      commit_ok (record {
        approval_id = approval_id;
        project_id = project_id;
        device_id = device_id;
        command_scope = command_scope;
        command_hash = command_hash;
        decision = decision;
        consumed_at_unix_seconds = none;
        created_at_unix_seconds = created_at_unix_seconds;
      })

-- `WHERE project_id = ?1 AND device_id = ?2 AND command_scope = ?3`, and `AND command_hash = ?4`.
abbrev pub in_scope : (project_id device_id command_scope : String) → ApprovalRow → Bool
in_scope project_id device_id command_scope row =
    (row.project_id is project_id)
    && (row.device_id is device_id)
    && row.command_scope is command_scope

abbrev pub for_command :
    (project_id device_id command_scope : String) → Option String → ApprovalRow → Bool
for_command project_id device_id command_scope none row =
    in_scope project_id device_id command_scope row
for_command project_id device_id command_scope (some command_hash) row =
    in_scope project_id device_id command_scope row && row.command_hash is command_hash

-- `ORDER BY created_at_unix_seconds DESC, approval_id DESC`
abbrev pub later : ApprovalRow → ApprovalRow → Bool
later a b =
    ltb_ℤ b.created_at_unix_seconds a.created_at_unix_seconds
    || eqb_ℤ a.created_at_unix_seconds b.created_at_unix_seconds && ltb b.approval_id a.approval_id

unfoldable pub latest_row :
    (project_id device_id command_scope : String) (command_hash : Option String)
    → Db
    → Option ApprovalRow
unfolding filter earliest
latest_row project_id device_id command_scope command_hash db = earliest later (
    filter (for_command project_id device_id command_scope command_hash) db.command_trust_approvals)

-- `.optional()`: no row is `none`, and a row that does not decode is an error.
unfoldable pub latest_command_trust_record :
    (project_id device_id command_scope : String) (command_hash : Option String)
    → Tx (Option CommandTrustRecord)
unfolding command_trust_record_from_row
latest_command_trust_record project_id device_id command_scope command_hash db =
    elim (latest_row project_id device_id command_scope command_hash db) [
      | none ↦ pure none db
      | some row ↦ elim (command_trust_record_from_row row) [
        | err e ↦ fail e db
        | ok found ↦ pure (some found) db
      ]
    ]

-- The `match record.decision`.
abbrev pub status_of : CommandTrustRecord → Option CommandTrustStatus
status_of found = elim found.decision [
  | allow_once ↦ elim found.consumed_at_unix_seconds [ none ↦ some approved_once | some _ ↦ none ]
  | trust_this_version ↦ some trusted
  | reject ↦ some rejected
]

abbrev pub status_of_latest : Option CommandTrustRecord → Option CommandTrustStatus
status_of_latest none = none
status_of_latest (some found) = status_of found

-- The end of `evaluate_command_trust`, with the latest row of the scope.
abbrev pub evaluate_previous :
    (command_hash : String) → Option CommandTrustRecord → CommandTrustEvaluation
evaluate_previous command_hash none = record {
  status = unapproved;
  approval = none;
  previous_hash = none;
}
evaluate_previous command_hash (some previous) =
    if not (previous.command_hash is command_hash)
    then record {
      status = changed;
      approval = some previous;
      previous_hash = some previous.command_hash;
    }
    else record { status = unapproved; approval = none; previous_hash = none }

unfoldable pub evaluate_command_trust :
    (project_id device_id command_scope command_hash : String) → Db → Result CommandTrustEvaluation
unfolding validate_command_trust_input latest_command_trust_record
evaluate_command_trust project_id device_id command_scope command_hash = query do
  validate_command_trust_input project_id device_id command_scope command_hash
  exact ← latest_command_trust_record project_id device_id command_scope (some command_hash)
  elim (status_of_latest exact) [
    | some status ↦ pure (record { status = status; approval = exact; previous_hash = none })
    | none ↦ latest_command_trust_record project_id device_id command_scope none >>= λ previous.
        pure (evaluate_previous command_hash previous)
  ]

-- `WHERE approval_id = ?2 AND consumed_at_unix_seconds IS NULL`
abbrev pub is_unconsumed : ℕ → ApprovalRow → Bool
is_unconsumed approval_id row =
    (row.approval_id == approval_id)
    && elim row.consumed_at_unix_seconds [ none ↦ true | some _ ↦ false ]

abbrev pub consume : ℕ → ApprovalRow → ApprovalRow
consume now row = record row { consumed_at_unix_seconds = some (as_i64 now) }

-- The part for an evaluation that says `approved_once`.
abbrev pub consume_approval :
    (project_id device_id command_scope command_hash : String) (now : ℕ)
    → CommandTrustEvaluation
    → Db
    → Result CommandTrustEvaluation × Db
consume_approval project_id device_id command_scope command_hash now evaluation db =
    elim evaluation.approval [
      | none ↦ (ok evaluation, db)
      | some found ↦
          let consumed : Db = record db {
            command_trust_approvals =
                update (is_unconsumed found.approval_id) (consume now) db.command_trust_approvals;
          } in
          if count (is_unconsumed found.approval_id) db.command_trust_approvals == 0
          then (
            evaluate_command_trust project_id device_id command_scope command_hash consumed,
            consumed,
          )
          else (
            ok (record evaluation {
              approval = some (record found { consumed_at_unix_seconds = some now });
            }),
            consumed,
          )
    ]

abbrev pub authorize_evaluated :
    (project_id device_id command_scope command_hash : String) (now : ℕ)
    → CommandTrustEvaluation
    → Db
    → Result CommandTrustEvaluation × Db
authorize_evaluated project_id device_id command_scope command_hash now evaluation db =
    elim evaluation.status [
      | approved_once ↦
          consume_approval project_id device_id command_scope command_hash now evaluation db
      | _ ↦ (ok evaluation, db)
    ]

unfoldable pub authorize_command_trust_at :
    (project_id device_id command_scope command_hash : String) (consumed_at_unix_seconds : ℕ)
    → Db
    → Result CommandTrustEvaluation × Db
unfolding evaluate_command_trust update count
authorize_command_trust_at project_id device_id command_scope command_hash consumed_at_unix_seconds
      db =
    elim (evaluate_command_trust project_id device_id command_scope command_hash db) [
      | err e ↦ (err e, db)
      | ok evaluation ↦
          authorize_evaluated project_id device_id command_scope command_hash
            consumed_at_unix_seconds evaluation db
    ]
