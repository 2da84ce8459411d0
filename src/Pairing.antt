-- ===== src/Pairing.antt =====
-- crates/devrelay-core/src/pairing.rs: the states of a pairing session, its record, and the checks of the
-- hexadecimal texts. Keys, hashes and ids come from third-party code and are arguments elsewhere.
use Prim.Native.Char.{code}
use devrelay.Prelude.{
  ℕ, String, Bool, true, false, ◌&&◌, ◌||◌, Option, leb, ◌==◌, ◌is◌, if◌then◌else◌, suc,
}

pub data PairingState : Type 0 where
  pending confirmed aborted expired : PairingState

unfoldable pub as_str : PairingState → String
as_str pending = "pending"
as_str confirmed = "confirmed"
as_str aborted = "aborted"
as_str expired = "expired"

-- The last arm makes any other text `pending`.
unfoldable pub parse : String → PairingState
parse value =
    if value is "confirmed"
    then confirmed
    else if value is "aborted"
    then aborted
    else if value is "expired"
    then expired
    else pending

unfoldable pub is_terminal : PairingState → Bool
is_terminal pending = false
is_terminal confirmed = true
is_terminal aborted = true
is_terminal expired = true

pub record PairingSession : Type 0 where
  pub pairing_id : String
  pub fabric_id : String
  pub local_device_id : String
  pub peer_device_id : String
  pub peer_display_name : String
  pub peer_signing_public_key_hex : String
  pub peer_network_public_key_hex : String
  pub anchor_address : Option String
  pub local_ephemeral_public_key_hex : String
  pub peer_ephemeral_public_key_hex : String
  pub transcript_hash_hex : String
  pub short_authentication_string : String
  pub state : PairingState
  pub certificate_json : Option String
  pub expires_at_unix_seconds : ℕ
  pub confirmed_at_unix_seconds : Option ℕ
  pub aborted_at_unix_seconds : Option ℕ
  pub created_at_unix_seconds : ℕ

abbrev pub is_hexdigit : ℕ → Bool
is_hexdigit c = leb 0x30 c && leb c 0x39 || leb 0x41 c && leb c 0x46 || leb 0x61 c && leb c 0x66

unfoldable pub all_hex : String → Bool
all_hex String.[] = true
all_hex (String.◌∷◌ c s) = is_hexdigit (code c) && all_hex s

-- The characters of a text; its bytes too if it is hexadecimal.
unfoldable pub char_count : String → ℕ
char_count String.[] = 0
char_count (String.◌∷◌ c s) = suc (char_count s)

-- `validate_key_hex(field, value).is_ok()`.
unfoldable pub is_key_hex : String → Bool
unfolding all_hex char_count
is_key_hex value = (char_count value == 64) && all_hex value
