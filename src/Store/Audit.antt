-- ===== src/Store/Audit.antt =====
-- Audit events (crates/devrelay-core/src/audit.rs, and `insert_audit_event_tx` of storage.rs).
use Prim.Native.Char.{code}
use devrelay.Prelude.{ℕ, suc, String, Bool, true, ◌&&◌, ◌||◌, not, none, [], ◌∷◌, ◌++◌, leb, ◌==◌}
use devrelay.Prelude.Int.{as_i64}
use devrelay.Store.Db.{Db, AuditEventType, AuditOutcome, AuditDetail, AuditEventInput}
use devrelay.Store.Tx.{Tx, guard, execute, empty_audit_summary, ◌>>◌}

-- Unicode's White_Space, which `str::trim` removes.
unfoldable pub is_whitespace : ℕ → Bool
is_whitespace c =
    leb 0x9 c && leb c 0xd
    || c == 0x20
    || c == 0x85
    || c == 0xa0
    || c == 0x1680
    || leb 0x2000 c && leb c 0x200a
    || leb 0x2028 c && leb c 0x2029
    || c == 0x202f
    || c == 0x205f
    || c == 0x3000

-- `text.trim().is_empty()`.
unfoldable pub is_blank : String → Bool
unfolding is_whitespace
is_blank String.[] = true
is_blank (String.◌∷◌ c s) = is_whitespace (code c) && is_blank s

-- `AuditEventInput::new(...).with_detail(...)`.
abbrev pub new_event : AuditEventType → AuditOutcome → String → AuditDetail → AuditEventInput
new_event event_type outcome summary detail = record {
  event_type = event_type;
  outcome = outcome;
  summary = summary;
  project_id = none;
  actor_device_id = none;
  target_device_id = none;
  session_id = none;
  snapshot_id = none;
  lease_id = none;
  handoff_id = none;
  detail = detail;
}

abbrev pub append_event : AuditEventInput → ℕ → Db → Db
append_event input now db = record db {
  audit_events =
      db.audit_events
      ++ record {
        audit_id = suc db.audit_sequence;
        event = input;
        created_at_unix_seconds = as_i64 now;
      }
        ∷ [];
  audit_sequence = suc db.audit_sequence;
}

unfoldable pub insert_audit_event_tx : AuditEventInput → ℕ → Tx (Unit {0})
unfolding is_blank
insert_audit_event_tx input now = do
  guard (not (is_blank input.summary)) empty_audit_summary
  execute (append_event input now)
