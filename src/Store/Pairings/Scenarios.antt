-- ===== src/Store/Pairings/Scenarios.antt =====
-- Two pairing sessions, one pending and one aborted: the theorems at concrete inputs.
use devrelay.Prelude.{◌≡◌, refl, true, none, some, [], ◌∷◌, ◌⊎◌, arith, ltb}
use devrelay.Prelude.Int.{pos}
use devrelay.Sql.{find, count, update}
use devrelay.Pairing
use devrelay.Pairing.{PairingSession}
use devrelay.Store.Tables.{PairingRow}
use devrelay.Store.Db.{Db}
use devrelay.Store.Tx.{Error, ok, err, pairing_already}
use devrelay.Store.Pairings.{
  pairing_key, pairing_session_from_row, confirm_pairing_session, abort_pairing_session,
  expire_pairing_sessions, expire_row, set_rows,
}
use devrelay.Store.Pairings.Confirm.{pairing_at, CanConfirm, Pairs, confirm_pairing_checked}
use devrelay.Store.Pairings.Expiry.{ended_pairing_stays}

abbrev waiting : PairingRow
waiting = record {
  pairing_id = "x";
  fabric_id = "f";
  local_device_id = "a";
  peer_device_id = "b";
  peer_display_name = "laptop";
  peer_signing_public_key_hex = "k1";
  peer_network_public_key_hex = "k2";
  anchor_address = none;
  local_ephemeral_public_key_hex = "e1";
  peer_ephemeral_public_key_hex = "e2";
  transcript_hash_hex = "t";
  short_authentication_string = "123-456";
  state = "pending";
  certificate_json = none;
  expires_at_unix_seconds = pos 200;
  confirmed_at_unix_seconds = none;
  aborted_at_unix_seconds = none;
  created_at_unix_seconds = pos 100;
}

abbrev ended : PairingRow
ended = record waiting {
  pairing_id = "y";
  state = "aborted";
  aborted_at_unix_seconds = some (pos 150);
}

abbrev db : Db
db = record {
  projects = [];
  leases = [];
  handoffs = [];
  handoff_journal = [];
  journal_sequence = 0;
  audit_events = [];
  audit_sequence = 0;
  device_revocations = [];
  workspaces = [];
  sessions = [];
  snapshots = [];
  command_trust_approvals = [];
  approval_sequence = 0;
  devices = [];
  fabric_roots =
      record {
        fabric_id = "f";
        fabric_name = "home";
        root_public_key_hex = "r";
        created_at_unix_seconds = pos 1;
        rotation_epoch = pos 0;
      }
      ∷ [];
  device_public_identities = [];
  pairing_sessions = waiting ∷ ended ∷ [];
  fault = none;
}

confirm_pairing_checked_example :
    let (answer, after) = confirm_pairing_session true "x" "123-456" "{}" 150 db in
    ((e : Error) × (answer ≡ err e)
      × ((row : PairingRow) → pairing_at db "x" ≡ some row → ¬ CanConfirm true "123-456" 150 db row)
      × ((after ≡ db)
          ⊎ ((row : PairingRow) × (pairing_at db "x" ≡ some row)
              × (ltb (pairing_session_from_row row).expires_at_unix_seconds 150 ≡ true)
              × (after ≡ set_rows (update (pairing_key "x") expire_row) db))))
    ⊎ ((s : PairingSession) × (answer ≡ ok s) × Pairs true "x" "123-456" "{}" 150 db s after)
confirm_pairing_checked_example = confirm_pairing_checked true "x" "123-456" "{}" 150 db

ended_pairing_stays_example :
    ((confirm_pairing_session true "y" "123-456" "{}" 201 db).1 ≡ db)
    × (abort_pairing_session "y" 201 db
        ≡ (err (pairing_already (pairing_session_from_row ended).state), db))
    × (pairing_at (expire_pairing_sessions 201 db).1 "y" ≡ some ended)
unfolding find count pairing_session_from_row Pairing.parse Pairing.is_terminal
ended_pairing_stays_example =
    ended_pairing_stays 201 db "y" ended refl (omega arith) true "123-456" "{}" refl
