-- ===== src/Store/Listings.antt =====
-- The listings of handoffs, their journal, revocations and audit events, and
-- `record_audit_event_at` (crates/devrelay-core/src/storage.rs).
use Prim.Native.String.{compare}
use Prim.Native.Nat.{Ordering}
use devrelay.Prelude.{
  ℕ, suc, zero, String, Bool, true, false, ◌&&◌, ◌||◌, Option, none, some, List, [], ◌∷◌, ltb, ◌==◌,
  ◌is◌, map, max, min, is_some_of,
}
use devrelay.Prelude.Int.{max_0, ltb_ℤ, eqb_ℤ}
use devrelay.Sql.{filter, order_by}
use devrelay.Handoff
use devrelay.Handoff.{HandoffRecord, HandoffJournalRecord}
use devrelay.Store.Db.{
  Db, HandoffRow, JournalRow, RevocationRow, AuditRow, AuditEventInput, DeviceRevocationRecord,
  handoff_record_from_row, device_revocation_from_row,
}
use devrelay.Store.Tx.{Result, pure, commit_ok, transaction, ◌>>=◌, ◌>>◌}
use devrelay.Store.Audit.{insert_audit_event_tx}
use devrelay.Store.Sessions.{in_project}

abbrev text_before : String → String → Bool
text_before a b = elim (compare a b) [ Ordering.lt ↦ true | _ ↦ false ]

-- `ORDER BY project_id ASC, handoff_id ASC`
abbrev pub handoff_before : HandoffRow → HandoffRow → Bool
handoff_before a b =
    text_before a.project_id b.project_id
    || a.project_id is b.project_id && text_before a.handoff_id b.handoff_id

unfoldable pub list_handoffs : Option String → Db → List HandoffRecord
unfolding filter order_by handoff_record_from_row
list_handoffs project_id db =
    map handoff_record_from_row
      (order_by handoff_before (filter (λ r. in_project project_id r.project_id) db.handoffs))

unfoldable pub handoff_journal_record_from_row : JournalRow → HandoffJournalRecord
unfolding Handoff.parse_phase
handoff_journal_record_from_row row = record {
  journal_id = row.journal_id;
  handoff_id = row.handoff_id;
  lease_id = row.lease_id;
  project_id = row.project_id;
  phase = Handoff.parse_phase row.phase;
  detail_json = row.detail_json;
  created_at_unix_seconds = max_0 row.created_at_unix_seconds;
}

unfoldable pub list_handoff_journal : String → Db → List HandoffJournalRecord
unfolding filter order_by handoff_journal_record_from_row
list_handoff_journal handoff_id db = map handoff_journal_record_from_row (
    order_by (λ a b. ltb a.journal_id b.journal_id)
      (filter (λ (r : JournalRow). r.handoff_id is handoff_id) db.handoff_journal))

-- `ORDER BY revoked_at_unix_seconds DESC, device_id ASC`
abbrev pub revoked_before : RevocationRow → RevocationRow → Bool
revoked_before a b =
    ltb_ℤ b.revoked_at_unix_seconds a.revoked_at_unix_seconds
    || eqb_ℤ a.revoked_at_unix_seconds b.revoked_at_unix_seconds
      && text_before a.device_id b.device_id

unfoldable pub list_device_revocations : Db → List DeviceRevocationRecord
unfolding order_by device_revocation_from_row
list_device_revocations db =
    map device_revocation_from_row (order_by revoked_before db.device_revocations)

-- `AuditEventRecord`, with the fields of its input as one.
pub record AuditEventRecord : Type 0 where
  pub schema_version : ℕ
  pub audit_id : ℕ
  pub event : AuditEventInput
  pub created_at_unix_seconds : ℕ

abbrev pub audit_schema_version : ℕ
audit_schema_version = 1

unfoldable pub record_audit_event_at :
    AuditEventInput → (created_at_unix_seconds : ℕ) → Db → Result AuditEventRecord × Db
unfolding insert_audit_event_tx
record_audit_event_at input created_at_unix_seconds = transaction do
  insert_audit_event_tx input created_at_unix_seconds
  audit_id ← λ db. pure db.audit_sequence db
  commit_ok (record {
    schema_version = audit_schema_version;
    audit_id = audit_id;
    event = input;
    created_at_unix_seconds = created_at_unix_seconds;
  })

unfoldable pub audit_event_record_from_row : AuditRow → AuditEventRecord
audit_event_record_from_row row = record {
  schema_version = audit_schema_version;
  audit_id = row.audit_id;
  event = row.event;
  created_at_unix_seconds = max_0 row.created_at_unix_seconds;
}

-- `WHERE project_id = ?1`, where one is given.
abbrev pub event_of_project : Option String → AuditRow → Bool
event_of_project none row = true
event_of_project (some project_id) row = is_some_of row.event.project_id project_id

-- `ORDER BY created_at_unix_seconds DESC, audit_id DESC`
abbrev pub newer_event : AuditRow → AuditRow → Bool
newer_event a b =
    ltb_ℤ b.created_at_unix_seconds a.created_at_unix_seconds
    || eqb_ℤ a.created_at_unix_seconds b.created_at_unix_seconds && ltb b.audit_id a.audit_id

-- The closure of `events.sort_by`.
abbrev pub newer_record : AuditEventRecord → AuditEventRecord → Bool
newer_record a b =
    ltb b.created_at_unix_seconds a.created_at_unix_seconds
    || a.created_at_unix_seconds == b.created_at_unix_seconds && ltb b.audit_id a.audit_id

-- `LIMIT`.
unfoldable pub take : ℕ → List AuditRow → List AuditRow
take zero rows = []
take (suc n) [] = []
take (suc n) (row ∷ rows) = row ∷ take n rows

unfoldable pub list_audit_events : Option String → (limit : ℕ) → Db → List AuditEventRecord
unfolding filter order_by take audit_event_record_from_row
list_audit_events project_id limit db = order_by newer_record (
    map audit_event_record_from_row (
      take (min 1000 (max 1 limit))
        (order_by newer_event (filter (event_of_project project_id) db.audit_events))))
