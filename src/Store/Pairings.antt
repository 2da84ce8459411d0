-- ===== src/Store/Pairings.antt =====
-- Pairing sessions: `start_pairing_session`, `get_pairing_session`, `confirm_pairing_session`,
-- `abort_pairing_session` and `expire_pairing_sessions` of crates/devrelay-core/src/storage.rs. The keys,
-- the transcript's hash, the short code, fresh ids, the clock, and whether serde_json parses the
-- certificate are arguments.
pub mod Confirm
pub mod Expiry
mod Scenarios
use Prim.Native.String.{◌++◌ as append, compare}
use Prim.Native.Nat.{Ordering}
use devrelay.Prelude.{
  ℕ, String, Bool, true, false, ◌&&◌, ◌||◌, not, Option, none, some, List, [], ◌∷◌, ◌++◌, ltb, max,
  ◌is◌, if◌then◌else◌, map,
}
use devrelay.Prelude.Int.{as_i64, max_0, ltb_ℤ, eqb_ℤ, saturating_add}
use devrelay.Sql.{find, exists, filter, update, order_by}
use devrelay.Sql.Laws.{map_option}
use devrelay.Pairing
use devrelay.Pairing.{
  PairingState, PairingSession, pending, confirmed, aborted, expired, is_terminal, is_key_hex,
}
use devrelay.Store.Tables.{FabricRow, IdentityRow, PairingRow}
use devrelay.Store.Db.{Db, device_paired, succeeded, pairing}
use devrelay.Store.Tx.{
  Result, ok, err, Tx, pure, fail, guard, constrain, execute, commit_ok, commit_err, transaction,
  ◌>>=◌, ◌>>◌, unknown_fabric, unknown_pairing, key_not_hex, pairing_already, pairing_expired,
  pairing_code_mismatch, pairing_disappeared, invalid_json,
}
use devrelay.Store.Audit.{new_event, insert_audit_event_tx}
use devrelay.Store.Revocations.{validate_non_empty}

abbrev pub pairing_key : String → PairingRow → Bool
pairing_key pairing_id row = row.pairing_id is pairing_id

unfoldable pub pairing_session_from_row : PairingRow → PairingSession
unfolding Pairing.parse
pairing_session_from_row row = record {
  pairing_id = row.pairing_id;
  fabric_id = row.fabric_id;
  local_device_id = row.local_device_id;
  peer_device_id = row.peer_device_id;
  peer_display_name = row.peer_display_name;
  peer_signing_public_key_hex = row.peer_signing_public_key_hex;
  peer_network_public_key_hex = row.peer_network_public_key_hex;
  anchor_address = row.anchor_address;
  local_ephemeral_public_key_hex = row.local_ephemeral_public_key_hex;
  peer_ephemeral_public_key_hex = row.peer_ephemeral_public_key_hex;
  transcript_hash_hex = row.transcript_hash_hex;
  short_authentication_string = row.short_authentication_string;
  state = Pairing.parse row.state;
  certificate_json = row.certificate_json;
  expires_at_unix_seconds = max_0 row.expires_at_unix_seconds;
  confirmed_at_unix_seconds = map_option max_0 row.confirmed_at_unix_seconds;
  aborted_at_unix_seconds = map_option max_0 row.aborted_at_unix_seconds;
  created_at_unix_seconds = max_0 row.created_at_unix_seconds;
}

unfoldable pub get_pairing_session : String → Db → Option PairingSession
unfolding find pairing_session_from_row
get_pairing_session pairing_id db =
    map_option pairing_session_from_row (find (pairing_key pairing_id) db.pairing_sessions)

pub record PairingStartRequest : Type 0 where
  pub fabric_id : String
  pub local_device_id : String
  pub peer_device_id : String
  pub peer_display_name : String
  pub peer_signing_public_key_hex : String
  pub peer_network_public_key_hex : String
  pub peer_ephemeral_public_key_hex : String
  pub anchor_address : Option String
  pub ttl_seconds : ℕ

-- What the cryptography of pairing.rs and its random ids give to one call: the ephemeral public key,
-- the transcript's hash for it, the code for the hash, and the id.
pub record PairingSecrets : Type 0 where
  pub public_key_hex : String
  pub transcript_hash_hex : String
  pub short_authentication_string : String
  pub pairing_id : String

abbrev validate_key_hex : (field value : String) → Tx (Unit {0})
validate_key_hex field value = guard (is_key_hex value) (key_not_hex field)

-- The session that `start_pairing_session` stores.
abbrev pub new_session : ℕ → PairingSecrets → PairingStartRequest → PairingSession
new_session now secrets request = record {
  pairing_id = secrets.pairing_id;
  fabric_id = request.fabric_id;
  local_device_id = request.local_device_id;
  peer_device_id = request.peer_device_id;
  peer_display_name = request.peer_display_name;
  peer_signing_public_key_hex = request.peer_signing_public_key_hex;
  peer_network_public_key_hex = request.peer_network_public_key_hex;
  anchor_address = request.anchor_address;
  local_ephemeral_public_key_hex = secrets.public_key_hex;
  peer_ephemeral_public_key_hex = request.peer_ephemeral_public_key_hex;
  transcript_hash_hex = secrets.transcript_hash_hex;
  short_authentication_string = secrets.short_authentication_string;
  state = pending;
  certificate_json = none;
  expires_at_unix_seconds = saturating_add now (max request.ttl_seconds 1);
  confirmed_at_unix_seconds = none;
  aborted_at_unix_seconds = none;
  created_at_unix_seconds = now;
}

abbrev pub new_pairing_row : PairingSession → PairingRow
new_pairing_row session = record {
  pairing_id = session.pairing_id;
  fabric_id = session.fabric_id;
  local_device_id = session.local_device_id;
  peer_device_id = session.peer_device_id;
  peer_display_name = session.peer_display_name;
  peer_signing_public_key_hex = session.peer_signing_public_key_hex;
  peer_network_public_key_hex = session.peer_network_public_key_hex;
  anchor_address = session.anchor_address;
  local_ephemeral_public_key_hex = session.local_ephemeral_public_key_hex;
  peer_ephemeral_public_key_hex = session.peer_ephemeral_public_key_hex;
  transcript_hash_hex = session.transcript_hash_hex;
  short_authentication_string = session.short_authentication_string;
  state = Pairing.as_str session.state;
  certificate_json = session.certificate_json;
  expires_at_unix_seconds = as_i64 session.expires_at_unix_seconds;
  confirmed_at_unix_seconds = map_option as_i64 session.confirmed_at_unix_seconds;
  aborted_at_unix_seconds = map_option as_i64 session.aborted_at_unix_seconds;
  created_at_unix_seconds = as_i64 session.created_at_unix_seconds;
}

abbrev pub has_fabric : String → Db → Bool
has_fabric fabric_id db = exists (λ (f : FabricRow). f.fabric_id is fabric_id) db.fabric_roots

unfoldable pub start_pairing_session :
    (now : ℕ) → PairingSecrets → PairingStartRequest → Db → Result PairingSession × Db
unfolding exists is_key_hex Pairing.as_str
start_pairing_session now secrets request = transaction do
  validate_non_empty "fabric_id" request.fabric_id
  validate_non_empty "local_device_id" request.local_device_id
  validate_non_empty "peer_device_id" request.peer_device_id
  validate_non_empty "peer_display_name" request.peer_display_name
  validate_key_hex "peer_signing_public_key_hex" request.peer_signing_public_key_hex
  validate_key_hex "peer_network_public_key_hex" request.peer_network_public_key_hex
  validate_key_hex "peer_ephemeral_public_key_hex" request.peer_ephemeral_public_key_hex
  λ db. guard (has_fabric request.fabric_id db) (unknown_fabric request.fabric_id) db
  let session : PairingSession = new_session now secrets request
  constrain λ db.
      not (exists (pairing_key session.pairing_id) db.pairing_sessions)
      && has_fabric session.fabric_id db
  execute λ db. record db { pairing_sessions = db.pairing_sessions ++ new_pairing_row session ∷ [] }
  commit_ok session

unfoldable pub pairing_by_id : String → Tx PairingSession
unfolding get_pairing_session
pairing_by_id pairing_id db = elim (get_pairing_session pairing_id db) [
  | none ↦ fail (unknown_pairing pairing_id) db
  | some session ↦ pure session db
]

-- `self.get_pairing_session(id)?.ok_or_else(...)` after the commit.
abbrev commit_pairing : String → Tx (Result PairingSession)
commit_pairing pairing_id db = elim (get_pairing_session pairing_id db) [
  | none ↦ commit_err pairing_disappeared db
  | some session ↦ commit_ok session db
]

abbrev pub expire_row : PairingRow → PairingRow
expire_row r = record r { state = Pairing.as_str expired }

abbrev pub confirm_row : (certificate_json : String) (now : ℕ) → PairingRow → PairingRow
confirm_row certificate_json now r = record r {
  state = Pairing.as_str confirmed;
  certificate_json = some certificate_json;
  confirmed_at_unix_seconds = some (as_i64 now);
}

abbrev pub abort_row : ℕ → PairingRow → PairingRow
abort_row now r = record r {
  state = Pairing.as_str aborted;
  aborted_at_unix_seconds = some (as_i64 now);
}

abbrev pub set_rows : (List PairingRow → List PairingRow) → Db → Db
set_rows f db = record db { pairing_sessions = f db.pairing_sessions }

abbrev pub identity_key : String → IdentityRow → Bool
identity_key device_id row = row.device_id is device_id

-- The row that a confirmation inserts for the peer.
abbrev pub identity_row : PairingSession → ℕ → IdentityRow
identity_row session now = record {
  device_id = session.peer_device_id;
  fabric_id = session.fabric_id;
  display_name = session.peer_display_name;
  signing_public_key_hex = session.peer_signing_public_key_hex;
  network_public_key_hex = session.peer_network_public_key_hex;
  platform_key = "unknown";
  architecture = "unknown";
  created_at_unix_seconds = as_i64 session.created_at_unix_seconds;
  last_seen_unix_seconds = as_i64 now;
}

-- `INSERT INTO device_public_identities ... ON CONFLICT(device_id) DO UPDATE SET ...`.
abbrev pub upsert_identity : IdentityRow → List IdentityRow → List IdentityRow
upsert_identity row rows =
    if exists (identity_key row.device_id) rows
    then update (identity_key row.device_id)
        (λ r. record r {
          fabric_id = row.fabric_id;
          display_name = row.display_name;
          signing_public_key_hex = row.signing_public_key_hex;
          network_public_key_hex = row.network_public_key_hex;
          last_seen_unix_seconds = row.last_seen_unix_seconds;
        })
        rows
    else rows ++ row ∷ []

-- The rest of a confirmation, once the code has been accepted.
abbrev pub complete_pairing :
    (pairing_id certificate_json : String) (now : ℕ) → PairingSession → Tx (Result PairingSession)
complete_pairing pairing_id certificate_json now session = do
  execute (
      set_rows (
        update (λ r. pairing_key pairing_id r && r.state is Pairing.as_str pending)
          (confirm_row certificate_json now)))
  constrain (has_fabric session.fabric_id)
  execute λ db. record db {
    device_public_identities =
        upsert_identity (identity_row session now) db.device_public_identities;
  }
  insert_audit_event_tx
      (record (new_event device_paired succeeded (append "paired device " session.peer_display_name)
        (pairing session.pairing_id session.fabric_id now)) {
          actor_device_id = some session.local_device_id;
          target_device_id = some session.peer_device_id;
        })
      now
  commit_pairing pairing_id

-- The two ends of a confirmation: of a session that is over its time, and of another.
abbrev pub confirm_by_clock :
    (is_late : Bool) (pairing_id observed_code certificate_json : String) (now : ℕ)
    → PairingSession
    → Tx (Result PairingSession)
confirm_by_clock true pairing_id observed_code certificate_json now session = do
  execute (set_rows (update (pairing_key pairing_id) expire_row))
  commit_err pairing_expired
confirm_by_clock false pairing_id observed_code certificate_json now session = do
  guard (observed_code is session.short_authentication_string) pairing_code_mismatch
  complete_pairing pairing_id certificate_json now session

-- `certificate_parses` says whether `serde_json::from_str` takes the certificate.
unfoldable pub confirm_pairing_session :
    (certificate_parses : Bool) (pairing_id observed_code certificate_json : String) (now : ℕ)
    → Db
    → Result PairingSession × Db
unfolding pairing_by_id update exists insert_audit_event_tx is_terminal Pairing.as_str
confirm_pairing_session certificate_parses pairing_id observed_code certificate_json now =
    transaction do
      guard certificate_parses invalid_json
      session ← pairing_by_id pairing_id
      guard (not (is_terminal session.state)) (pairing_already session.state)
      confirm_by_clock (ltb session.expires_at_unix_seconds now) pairing_id observed_code
          certificate_json now session

unfoldable pub abort_pairing_session :
    (pairing_id : String) (now : ℕ) → Db → Result PairingSession × Db
unfolding pairing_by_id update is_terminal Pairing.as_str
abort_pairing_session pairing_id now = transaction do
  session ← pairing_by_id pairing_id
  guard (not (is_terminal session.state)) (pairing_already session.state)
  execute (set_rows (update (pairing_key pairing_id) (abort_row now)))
  commit_pairing pairing_id

-- `WHERE state = ?1 AND expires_at_unix_seconds < ?2`
abbrev pub is_overdue : ℕ → PairingRow → Bool
is_overdue now row =
    (row.state is Pairing.as_str pending) && ltb_ℤ row.expires_at_unix_seconds (as_i64 now)

-- `ORDER BY expires_at_unix_seconds ASC, pairing_id ASC`
abbrev pub expires_before : PairingRow → PairingRow → Bool
expires_before a b =
    ltb_ℤ a.expires_at_unix_seconds b.expires_at_unix_seconds
    || eqb_ℤ a.expires_at_unix_seconds b.expires_at_unix_seconds
      && elim (compare a.pairing_id b.pairing_id) [ Ordering.lt ↦ true | _ ↦ false ]

abbrev pub row_id : PairingRow → String
row_id row = row.pairing_id

abbrev pub overdue_ids : ℕ → Db → List String
overdue_ids now db =
    map row_id (order_by expires_before (filter (is_overdue now) db.pairing_sessions))

-- The loop of updates.
unfoldable pub expire_all : List String → List PairingRow → List PairingRow
unfolding update Pairing.as_str
expire_all [] rows = rows
expire_all (id ∷ ids) rows = expire_all ids (update (pairing_key id) expire_row rows)

-- The sessions of the ids, in their order.
unfoldable pub read_back : Db → List String → Result (List PairingSession)
unfolding get_pairing_session
read_back db [] = ok []
read_back db (id ∷ ids) =
    let rest = read_back db ids in
    elim (get_pairing_session id db) [
      | none ↦ err pairing_disappeared
      | some session ↦ elim rest [ err e ↦ err e | ok sessions ↦ ok (session ∷ sessions) ]
    ]

unfoldable pub expire_pairing_sessions : (now : ℕ) → Db → Result (List PairingSession) × Db
unfolding order_by filter expire_all read_back Pairing.as_str
expire_pairing_sessions now db =
    let ids = overdue_ids now db in
    let after = set_rows (expire_all ids) db in (read_back after ids, after)
