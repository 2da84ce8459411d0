-- ===== src/Store/Identities.antt =====
-- The identities of fabrics and devices: `upsert_device_identity`, `get_device`, `list_devices`,
-- `upsert_fabric_root_identity`, `get_fabric_root_identity`, `upsert_device_public_identity` and
-- `get_device_public_identity` of crates/devrelay-core/src/storage.rs.
use Prim.Native.String.{compare}
use Prim.Native.Nat.{Ordering}
use devrelay.Prelude.{
  ℕ, String, Bool, true, false, Option, List, [], ◌∷◌, ◌++◌, ◌is◌, if◌then◌else◌, map,
}
use devrelay.Prelude.Int.{as_i64, max_0}
use devrelay.Sql.{find, exists, update, order_by}
use devrelay.Sql.Laws.{map_option}
use devrelay.Store.Tables.{DeviceRow, FabricRow, IdentityRow}
use devrelay.Store.Db.{Db}
use devrelay.Store.Tx.{Result, constrain, execute, commit_ok, transaction, ◌>>◌}
use devrelay.Store.Pairings.{has_fabric, identity_key}

pub record DeviceIdentity : Type 0 where
  pub device_id : String
  pub display_name : String
  pub platform_key : String
  pub architecture : String
  pub capabilities_json : String
  pub paired_at_unix_seconds : Option ℕ
  pub last_seen_unix_seconds : ℕ

pub record FabricRootIdentity : Type 0 where
  pub fabric_id : String
  pub fabric_name : String
  pub root_public_key_hex : String
  pub created_at_unix_seconds : ℕ
  pub rotation_epoch : ℕ

pub record DevicePublicIdentity : Type 0 where
  pub device_id : String
  pub display_name : String
  pub fabric_id : String
  pub signing_public_key_hex : String
  pub network_public_key_hex : String
  pub platform_key : String
  pub architecture : String
  pub created_at_unix_seconds : ℕ
  pub last_seen_unix_seconds : ℕ

unfoldable pub device_identity_from_row : DeviceRow → DeviceIdentity
device_identity_from_row row = record {
  device_id = row.device_id;
  display_name = row.display_name;
  platform_key = row.platform_key;
  architecture = row.architecture;
  capabilities_json = row.capabilities_json;
  paired_at_unix_seconds = map_option max_0 row.paired_at_unix_seconds;
  last_seen_unix_seconds = max_0 row.last_seen_unix_seconds;
}

unfoldable pub fabric_root_identity_from_row : FabricRow → FabricRootIdentity
fabric_root_identity_from_row row = record {
  fabric_id = row.fabric_id;
  fabric_name = row.fabric_name;
  root_public_key_hex = row.root_public_key_hex;
  created_at_unix_seconds = max_0 row.created_at_unix_seconds;
  rotation_epoch = max_0 row.rotation_epoch;
}

unfoldable pub device_public_identity_from_row : IdentityRow → DevicePublicIdentity
device_public_identity_from_row row = record {
  device_id = row.device_id;
  display_name = row.display_name;
  fabric_id = row.fabric_id;
  signing_public_key_hex = row.signing_public_key_hex;
  network_public_key_hex = row.network_public_key_hex;
  platform_key = row.platform_key;
  architecture = row.architecture;
  created_at_unix_seconds = max_0 row.created_at_unix_seconds;
  last_seen_unix_seconds = max_0 row.last_seen_unix_seconds;
}

abbrev pub device_key : String → DeviceRow → Bool
device_key device_id row = row.device_id is device_id

abbrev pub fabric_key : String → FabricRow → Bool
fabric_key fabric_id row = row.fabric_id is fabric_id

abbrev device_row : DeviceIdentity → DeviceRow
device_row device = record {
  device_id = device.device_id;
  display_name = device.display_name;
  platform_key = device.platform_key;
  architecture = device.architecture;
  capabilities_json = device.capabilities_json;
  paired_at_unix_seconds = map_option as_i64 device.paired_at_unix_seconds;
  last_seen_unix_seconds = as_i64 device.last_seen_unix_seconds;
}

-- `ON CONFLICT(device_id) DO UPDATE` names every other column.
unfoldable pub upsert_device_identity : DeviceIdentity → Db → Result (Unit {0}) × Db
unfolding exists update
upsert_device_identity device = transaction do
  execute λ db. record db {
    devices =
        if exists (device_key device.device_id) db.devices
        then update (device_key device.device_id) (λ r. device_row device) db.devices
        else db.devices ++ device_row device ∷ [];
  }
  commit_ok tt

-- `ORDER BY display_name ASC, device_id ASC`
abbrev pub device_before : DeviceRow → DeviceRow → Bool
device_before a b = elim (compare a.display_name b.display_name) [
  | Ordering.lt ↦ true
  | Ordering.eq ↦ elim (compare a.device_id b.device_id) [ Ordering.lt ↦ true | _ ↦ false ]
  | Ordering.gt ↦ false
]

unfoldable pub list_devices : Db → List DeviceIdentity
unfolding order_by device_identity_from_row
list_devices db = map device_identity_from_row (order_by device_before db.devices)

unfoldable pub get_device : String → Db → Option DeviceIdentity
unfolding find device_identity_from_row
get_device device_id db =
    map_option device_identity_from_row (find (device_key device_id) db.devices)

abbrev fabric_row : FabricRootIdentity → FabricRow
fabric_row root = record {
  fabric_id = root.fabric_id;
  fabric_name = root.fabric_name;
  root_public_key_hex = root.root_public_key_hex;
  created_at_unix_seconds = as_i64 root.created_at_unix_seconds;
  rotation_epoch = as_i64 root.rotation_epoch;
}

-- A conflict keeps the time of creation.
unfoldable pub upsert_fabric_root_identity : FabricRootIdentity → Db → Result (Unit {0}) × Db
unfolding exists update
upsert_fabric_root_identity root = transaction do
  execute λ db. record db {
    fabric_roots =
        if exists (fabric_key root.fabric_id) db.fabric_roots
        then update (fabric_key root.fabric_id)
            (λ r. record (fabric_row root) { created_at_unix_seconds = r.created_at_unix_seconds })
            db.fabric_roots
        else db.fabric_roots ++ fabric_row root ∷ [];
  }
  commit_ok tt

unfoldable pub get_fabric_root_identity : String → Db → Option FabricRootIdentity
unfolding find fabric_root_identity_from_row
get_fabric_root_identity fabric_id db =
    map_option fabric_root_identity_from_row (find (fabric_key fabric_id) db.fabric_roots)

abbrev public_identity_row : DevicePublicIdentity → IdentityRow
public_identity_row device = record {
  device_id = device.device_id;
  fabric_id = device.fabric_id;
  display_name = device.display_name;
  signing_public_key_hex = device.signing_public_key_hex;
  network_public_key_hex = device.network_public_key_hex;
  platform_key = device.platform_key;
  architecture = device.architecture;
  created_at_unix_seconds = as_i64 device.created_at_unix_seconds;
  last_seen_unix_seconds = as_i64 device.last_seen_unix_seconds;
}

-- A conflict keeps the time of creation.
unfoldable pub upsert_device_public_identity : DevicePublicIdentity → Db → Result (Unit {0}) × Db
unfolding exists update
upsert_device_public_identity device = transaction do
  constrain (has_fabric device.fabric_id)
  execute λ db. record db {
    device_public_identities =
        if exists (identity_key device.device_id) db.device_public_identities
        then update (identity_key device.device_id)
            (λ r. record (public_identity_row device) {
              created_at_unix_seconds = r.created_at_unix_seconds;
            })
            db.device_public_identities
        else db.device_public_identities ++ public_identity_row device ∷ [];
  }
  commit_ok tt

unfoldable pub get_device_public_identity : String → Db → Option DevicePublicIdentity
unfolding find device_public_identity_from_row
get_device_public_identity device_id db =
    map_option device_public_identity_from_row
      (find (identity_key device_id) db.device_public_identities)
