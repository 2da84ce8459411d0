-- ===== src/SnapshotSchema.antt =====
-- crates/devrelay-core/src/snapshot_schema.rs: the metadata of a snapshot and its validation.
use Prim.Native.Char.{code}
use devrelay.Prelude.{
  ℕ, String, Bool, true, false, not, ◌&&◌, ◌||◌, Option, none, some, List, [], ◌∷◌, ◌==◌, ◌is◌,
  if◌then◌else◌,
}
use devrelay.Pairing.{all_hex, char_count}

abbrev pub snapshot_schema_version : ℕ
snapshot_schema_version = 1

abbrev pub snapshot_id_hex_len : ℕ
snapshot_id_hex_len = 24

pub record SnapshotSidecar : Type 0 where
  pub logical_path : String
  pub file_mode : String
  pub classification : String
  pub size_bytes : ℕ
  pub chunk_size_bytes : ℕ
  pub root_hash : String
  pub cas_manifest_id : String

pub record SnapshotChildSnapshot : Type 0 where
  pub relationship : String
  pub path : String
  pub project_id : String
  pub session_id : String
  pub snapshot_id : String
  pub state_hash : String

-- `SnapshotMetadata`, less the fields that neither the validation nor publishing reads: the device, the
-- branch, the status counts, the operation capsule and the lists of untracked and excluded paths.
pub record SnapshotMetadata : Type 0 where
  pub schema_version : ℕ
  pub snapshot_id : String
  pub project_id : String
  pub project_name : String
  pub session_id : Option String
  pub parent_snapshot_id : Option String
  pub child_snapshots : List SnapshotChildSnapshot
  pub head_oid : String
  pub index_tree_oid : String
  pub index_commit_oid : String
  pub work_tree_oid : String
  pub work_commit_oid : String
  pub sidecars : List SnapshotSidecar
  pub state_hash : String
  pub created_at_unix_seconds : ℕ

-- The errors of `validate`, one for each message.
pub data MetadataError : Type 0 where
  unsupported_schema : ℕ → MetadataError
  malformed_snapshot_id : String → MetadataError
  field_empty : String → MetadataError
  not_repository_relative : String → MetadataError
  child_malformed_snapshot_id : (path snapshot_id : String) → MetadataError
  size_not_positive chunk_size_not_positive root_hash_mismatch : String → MetadataError

-- `none` is `Ok(())`; `?` goes on to the next check only from there.
infixr 20 ◌then_check◌
abbrev pub ◌then_check◌ : Option MetadataError → Option MetadataError → Option MetadataError
none then_check next = next
(some e) then_check next = some e

abbrev pub reject_if : Bool → MetadataError → Option MetadataError
reject_if true e = some e
reject_if false e = none

-- The loop over `(field, value)` pairs.
unfoldable pub check_non_empty : List (String × String) → Option MetadataError
check_non_empty [] = none
check_non_empty ((field, value) ∷ rest) =
    let later = check_non_empty rest in if value is "" then some (field_empty field) else later

-- `text.contains('\\')`.
unfoldable pub contains_backslash : String → Bool
contains_backslash String.[] = false
contains_backslash (String.◌∷◌ c s) = code c == 0x5c || contains_backslash s

abbrev pub starts_with_slash : String → Bool
starts_with_slash String.[] = false
starts_with_slash (String.◌∷◌ c s) = code c == 0x2f

-- `text.split('/').any(|part| part == "..")`: what the part read so far is, nothing, `.`, `..`, or
-- anything else.
pub data PartSoFar : Type 0 where
  nothing one_dot two_dots other : PartSoFar

abbrev pub is_two_dots : PartSoFar → Bool
is_two_dots two_dots = true
is_two_dots _ = false

abbrev pub add_dot : PartSoFar → PartSoFar
add_dot nothing = one_dot
add_dot one_dot = two_dots
add_dot _ = other

abbrev pub add_char : ℕ → PartSoFar → PartSoFar
add_char c part = if c == 0x2f then nothing else if c == 0x2e then add_dot part else other

unfoldable pub has_parent_part : PartSoFar → String → Bool
has_parent_part part String.[] = is_two_dots part
has_parent_part part (String.◌∷◌ c s) =
    (code c == 0x2f) && is_two_dots part || has_parent_part (add_char (code c) part) s

unfoldable pub is_relative_path : String → Bool
unfolding contains_backslash has_parent_part
is_relative_path path =
    not (starts_with_slash path || contains_backslash path || has_parent_part nothing path)

-- `strip_prefix("s1_")`, then the length and the digits.
unfoldable pub is_valid_snapshot_id : String → Bool
unfolding all_hex char_count
is_valid_snapshot_id (String.◌∷◌ a (String.◌∷◌ b (String.◌∷◌ c hex))) =
    (code a == 0x73)
    && (code b == 0x31)
    && (code c == 0x5f)
    && (char_count hex == snapshot_id_hex_len)
    && all_hex hex
is_valid_snapshot_id _ = false

-- `SnapshotSidecar::validate`.
unfoldable pub validate_sidecar : SnapshotSidecar → Option MetadataError
unfolding check_non_empty is_relative_path
validate_sidecar s =
    check_non_empty (
      ("sidecar.logical_path", s.logical_path)
      ∷ ("sidecar.file_mode", s.file_mode)
      ∷ ("sidecar.classification", s.classification)
      ∷ ("sidecar.root_hash", s.root_hash)
      ∷ ("sidecar.cas_manifest_id", s.cas_manifest_id)
      ∷ [])
    then_check reject_if (not (is_relative_path s.logical_path))
        (not_repository_relative s.logical_path)
    then_check reject_if (s.size_bytes == 0) (size_not_positive s.logical_path)
    then_check reject_if (s.chunk_size_bytes == 0) (chunk_size_not_positive s.logical_path)
    then_check reject_if (not (s.root_hash is s.cas_manifest_id))
        (root_hash_mismatch s.logical_path)

-- `SnapshotChildSnapshot::validate`.
unfoldable pub validate_child : SnapshotChildSnapshot → Option MetadataError
unfolding check_non_empty is_relative_path is_valid_snapshot_id
validate_child s =
    check_non_empty (
      ("child_snapshots.relationship", s.relationship)
      ∷ ("child_snapshots.path", s.path)
      ∷ ("child_snapshots.project_id", s.project_id)
      ∷ ("child_snapshots.session_id", s.session_id)
      ∷ ("child_snapshots.snapshot_id", s.snapshot_id)
      ∷ ("child_snapshots.state_hash", s.state_hash)
      ∷ [])
    then_check reject_if (not (is_relative_path s.path)) (not_repository_relative s.path)
    then_check reject_if (not (is_valid_snapshot_id s.snapshot_id))
        (child_malformed_snapshot_id s.path s.snapshot_id)

unfoldable pub validate_sidecars : List SnapshotSidecar → Option MetadataError
unfolding validate_sidecar
validate_sidecars [] = none
validate_sidecars (s ∷ ss) = validate_sidecar s then_check validate_sidecars ss

unfoldable pub validate_children : List SnapshotChildSnapshot → Option MetadataError
unfolding validate_child
validate_children [] = none
validate_children (s ∷ ss) = validate_child s then_check validate_children ss

-- `SnapshotMetadata::validate`.
unfoldable pub validate : SnapshotMetadata → Option MetadataError
unfolding check_non_empty is_valid_snapshot_id validate_sidecars validate_children
validate m =
    reject_if (not (m.schema_version == snapshot_schema_version))
      (unsupported_schema m.schema_version)
    then_check reject_if (not (is_valid_snapshot_id m.snapshot_id))
        (malformed_snapshot_id m.snapshot_id)
    then_check check_non_empty (
        ("project_id", m.project_id)
        ∷ ("project_name", m.project_name)
        ∷ ("head_oid", m.head_oid)
        ∷ ("index_tree_oid", m.index_tree_oid)
        ∷ ("index_commit_oid", m.index_commit_oid)
        ∷ ("work_tree_oid", m.work_tree_oid)
        ∷ ("work_commit_oid", m.work_commit_oid)
        ∷ ("state_hash", m.state_hash)
        ∷ [])
    then_check validate_sidecars m.sidecars
    then_check validate_children m.child_snapshots
