-- ===== src/Store/Revocations.antt =====
-- Device revocation: `revoke_device_at`, `get_device_revocation` and `ensure_device_not_revoked_conn`
-- of crates/devrelay-core/src/storage.rs.
use Prim.Native.String.{◌++◌ as append}
use devrelay.Prelude.{
  ℕ, String, Bool, not, Option, none, some, List, [], ◌∷◌, ◌++◌, ◌is◌, if◌then◌else◌,
}
use devrelay.Prelude.Int.{as_i64}
use devrelay.Sql.{find, exists, update}
use devrelay.Store.Db.{
  Db, RevocationRow, DeviceRevocationRecord, device_revocation_from_row, device_revoked, succeeded,
  revocation,
}
use devrelay.Store.Tx.{
  Result, Tx, pure, fail, guard, execute, commit_ok, transaction, device_was_revoked,
  must_not_be_empty, ◌>>◌,
}
use devrelay.Store.Audit.{new_event, insert_audit_event_tx}

unfoldable pub get_device_revocation : String → Db → Option DeviceRevocationRecord
unfolding find device_revocation_from_row
get_device_revocation device_id db =
    elim (find (λ (r : RevocationRow). r.device_id is device_id) db.device_revocations) [
      | none ↦ none
      | some row ↦ some (device_revocation_from_row row)
    ]

unfoldable pub ensure_device_not_revoked : String → String → Tx (Unit {0})
unfolding get_device_revocation
ensure_device_not_revoked device_id operation db = elim (get_device_revocation device_id db) [
  | none ↦ pure tt db
  | some revoked ↦ fail (device_was_revoked operation revoked) db
]

abbrev pub validate_non_empty : String → String → Tx (Unit {0})
validate_non_empty field value = guard (not (value is "")) (must_not_be_empty field)

-- `INSERT INTO device_revocations ... ON CONFLICT(device_id) DO UPDATE SET ...`.
abbrev upsert_revocation : RevocationRow → List RevocationRow → List RevocationRow
upsert_revocation row rows =
    if exists (λ (r : RevocationRow). r.device_id is row.device_id) rows
    then update (λ r. r.device_id is row.device_id)
        (λ r. record r {
          revoked_by_device_id = row.revoked_by_device_id;
          reason = row.reason;
          key_rotation_required = row.key_rotation_required;
          revoked_at_unix_seconds = row.revoked_at_unix_seconds;
        })
        rows
    else rows ++ row ∷ []

unfoldable pub revoke_device_at :
    (device_id revoked_by_device_id reason : String) (key_rotation_required : Bool)
    (revoked_at_unix_seconds : ℕ)
    → Db
    → Result DeviceRevocationRecord × Db
unfolding exists update insert_audit_event_tx
revoke_device_at device_id revoked_by_device_id reason key_rotation_required
      revoked_at_unix_seconds =
    transaction do
      validate_non_empty "device_id" device_id
      validate_non_empty "revoked_by_device_id" revoked_by_device_id
      validate_non_empty "reason" reason
      execute λ db. record db {
        device_revocations =
            upsert_revocation
              (record {
                device_id = device_id;
                revoked_by_device_id = revoked_by_device_id;
                reason = reason;
                key_rotation_required = key_rotation_required;
                revoked_at_unix_seconds = as_i64 revoked_at_unix_seconds;
              })
              db.device_revocations;
      }
      insert_audit_event_tx
          (record (new_event device_revoked succeeded (append "revoked device " device_id)
            (revocation reason key_rotation_required)) {
              actor_device_id = some revoked_by_device_id;
              target_device_id = some device_id;
            })
          revoked_at_unix_seconds
      commit_ok (record {
        device_id = device_id;
        revoked_by_device_id = revoked_by_device_id;
        reason = reason;
        key_rotation_required = key_rotation_required;
        revoked_at_unix_seconds = revoked_at_unix_seconds;
      })
