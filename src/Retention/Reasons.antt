-- ===== src/Retention/Reasons.antt =====
-- crates/devrelay-core/src/retention.rs: the reasons to keep a snapshot, before the parents of the kept
-- snapshots are added (`retention_reasons` without its last call), and the orders of the snapshots.
pub mod Laws
pub mod Hard
use Prim.Native.String.{compare}
use Prim.Native.Nat.{Ordering}
use devrelay.Prelude.{
  ℕ, zero, suc, ◌-◌, ◌/◌, String, Bool, true, false, ◌&&◌, ◌||◌, Option, none, some, List, [], ◌∷◌,
  ltb, leb, ◌==◌, if◌then◌else◌,
}
use devrelay.Prelude.Int.{eqb_ℤ, ltb_ℤ}
use devrelay.Map.{get, insert, add}
use devrelay.Retention.{
  RetentionKeepReason, SnapshotRetentionEntry, HandoffSnapshotProtection, RetentionPolicy,
  reason_order, canonical_latest, is_pinned, handoff_protected, hot_snapshot, hourly_thinning,
  daily_thinning, seconds_per_hour, seconds_per_day, mul_u64,
}

-- `BTreeMap<String, BTreeSet<RetentionKeepReason>>`.
abbrev pub ReasonMap : Type 0
ReasonMap = List (String × List RetentionKeepReason)

abbrev pub reasons_of : String → ReasonMap → List RetentionKeepReason
reasons_of snapshot_id reasons = elim (get snapshot_id reasons) [ none ↦ [] | some rs ↦ rs ]

unfoldable pub add_reason : String → RetentionKeepReason → ReasonMap → ReasonMap
add_reason snapshot_id reason reasons =
    insert snapshot_id (add reason_order reason (reasons_of snapshot_id reasons)) reasons

-- One reason for each of the snapshots.
unfoldable pub add_reasons :
    RetentionKeepReason → List SnapshotRetentionEntry → ReasonMap → ReasonMap
unfolding add_reason
add_reasons reason [] reasons = reasons
add_reasons reason (s ∷ ss) reasons =
    add_reasons reason ss (add_reason s.snapshot_id reason reasons)

abbrev pub id_before : SnapshotRetentionEntry → SnapshotRetentionEntry → Bool
id_before left right = elim (compare left.snapshot_id right.snapshot_id) [
  | Ordering.lt ↦ true
  | _ ↦ false
]

abbrev pub newer : SnapshotRetentionEntry → SnapshotRetentionEntry → Bool
newer left right =
    ltb_ℤ right.sequence_number left.sequence_number
    || eqb_ℤ right.sequence_number left.sequence_number
      && (ltb right.created_at_unix_seconds left.created_at_unix_seconds
          || (right.created_at_unix_seconds == left.created_at_unix_seconds)
            && id_before left right)

abbrev pub older : SnapshotRetentionEntry → SnapshotRetentionEntry → Bool
older left right =
    ltb_ℤ left.sequence_number right.sequence_number
    || eqb_ℤ left.sequence_number right.sequence_number
      && (ltb left.created_at_unix_seconds right.created_at_unix_seconds
          || (left.created_at_unix_seconds == right.created_at_unix_seconds)
            && id_before left right)

-- `sort_by`, which is stable: `before` is the strict order.
module _ (before : SnapshotRetentionEntry → SnapshotRetentionEntry → Bool) where
  unfoldable pub place :
      SnapshotRetentionEntry → List SnapshotRetentionEntry → List SnapshotRetentionEntry
  place s [] = s ∷ []
  place s (t ∷ ts) = let rest = place s ts in if before t s then t ∷ rest else s ∷ t ∷ ts

  unfoldable pub sort_by : List SnapshotRetentionEntry → List SnapshotRetentionEntry
  unfolding place
  sort_by [] = []
  sort_by (s ∷ ss) = place s (sort_by ss)

unfoldable pub newest_first : List SnapshotRetentionEntry → List SnapshotRetentionEntry
unfolding sort_by
newest_first snapshots = sort_by newer snapshots

unfoldable pub oldest_first : List SnapshotRetentionEntry → List SnapshotRetentionEntry
unfolding sort_by
oldest_first snapshots = sort_by older snapshots

unfoldable pub take : ℕ → List SnapshotRetentionEntry → List SnapshotRetentionEntry
take zero ss = []
take (suc n) [] = []
take (suc n) (s ∷ ss) = s ∷ take n ss

-- The test that lets a snapshot take the place of the one its bucket has.
abbrev pub replaces : SnapshotRetentionEntry → SnapshotRetentionEntry → Bool
replaces snapshot current =
    ltb_ℤ current.sequence_number snapshot.sequence_number
    || eqb_ℤ snapshot.sequence_number current.sequence_number
      && ltb current.created_at_unix_seconds snapshot.created_at_unix_seconds

-- A bucket map in ascending order; a snapshot goes to a bucket that has none, or one it replaces.
unfoldable pub put_bucket :
    ℕ
    → SnapshotRetentionEntry
    → List (ℕ × SnapshotRetentionEntry)
    → List (ℕ × SnapshotRetentionEntry)
put_bucket bucket s [] = (bucket, s) ∷ []
put_bucket bucket s ((b, t) ∷ m) =
    let rest = put_bucket bucket s m in
    if ltb bucket b
    then (bucket, s) ∷ (b, t) ∷ m
    else if bucket == b
    then (if replaces s t then (bucket, s) ∷ m else (b, t) ∷ m)
    else (b, t) ∷ rest

unfoldable pub bucket_values : List (ℕ × SnapshotRetentionEntry) → List SnapshotRetentionEntry
bucket_values [] = []
bucket_values ((b, s) ∷ m) = s ∷ bucket_values m

unfoldable pub fill_buckets :
    (floor_unix_seconds bucket_seconds : ℕ)
    → List SnapshotRetentionEntry
    → List (ℕ × SnapshotRetentionEntry)
    → List (ℕ × SnapshotRetentionEntry)
unfolding put_bucket
fill_buckets floor_unix_seconds bucket_seconds [] buckets = buckets
fill_buckets floor_unix_seconds bucket_seconds (s ∷ ss) buckets =
    fill_buckets floor_unix_seconds bucket_seconds ss (
      if ltb s.created_at_unix_seconds floor_unix_seconds
      then buckets
      else put_bucket (s.created_at_unix_seconds / bucket_seconds) s buckets)

-- The values of the map, in the order of its keys.
unfoldable pub latest_per_bucket :
    List SnapshotRetentionEntry
    → (floor_unix_seconds bucket_seconds : ℕ) → List SnapshotRetentionEntry
unfolding fill_buckets bucket_values
latest_per_bucket snapshots floor_unix_seconds bucket_seconds =
    bucket_values (fill_buckets floor_unix_seconds bucket_seconds snapshots [])

unfoldable pub pinned_reasons : List SnapshotRetentionEntry → ReasonMap → ReasonMap
unfolding add_reason
pinned_reasons [] reasons = reasons
pinned_reasons (s ∷ ss) reasons =
    pinned_reasons ss (if s.pinned then add_reason s.snapshot_id is_pinned reasons else reasons)

unfoldable pub handoff_reasons : (now : ℕ) → List HandoffSnapshotProtection → ReasonMap → ReasonMap
unfolding add_reason
handoff_reasons now [] reasons = reasons
handoff_reasons now (p ∷ ps) reasons = handoff_reasons now ps (
    if leb now p.protect_until_unix_seconds
    then add_reason p.snapshot_id handoff_protected reasons
    else reasons)

-- The reasons of the latest canonical snapshot, the pinned ones and those that a handoff protects.
unfoldable pub hard_reasons :
    List SnapshotRetentionEntry
    → (canonical_latest_snapshot_id : Option String) → List HandoffSnapshotProtection
    → (now : ℕ) → ReasonMap
unfolding add_reason pinned_reasons handoff_reasons
hard_reasons snapshots canonical_latest_snapshot_id protections now =
    handoff_reasons now protections (
      pinned_reasons snapshots (elim canonical_latest_snapshot_id [
        | none ↦ []
        | some snapshot_id ↦ add_reason snapshot_id canonical_latest []
      ]))

unfoldable pub direct_reasons :
    List SnapshotRetentionEntry
    → RetentionPolicy
    → (canonical_latest_snapshot_id : Option String) → List HandoffSnapshotProtection
    → (now : ℕ) → ReasonMap
unfolding hard_reasons add_reasons latest_per_bucket take newest_first
direct_reasons snapshots policy canonical_latest_snapshot_id protections now =
    let hourly_floor = now - mul_u64 policy.hourly_thinning_hours seconds_per_hour in
    let daily_floor = now - mul_u64 policy.daily_thinning_days seconds_per_day in
    add_reasons daily_thinning (latest_per_bucket snapshots daily_floor seconds_per_day) (
      add_reasons hourly_thinning (latest_per_bucket snapshots hourly_floor seconds_per_hour) (
        add_reasons hot_snapshot (take policy.hot_snapshot_count (newest_first snapshots))
          (hard_reasons snapshots canonical_latest_snapshot_id protections now)))
