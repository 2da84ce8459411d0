-- ===== src/Retention/Plan/Safety.antt =====
-- What a pruning plan never deletes (`plan_snapshot_pruning` of
-- crates/devrelay-core/src/retention.rs).
use mathlib.Core.Path.{subst}
use devrelay.Prelude.{
  ◌-◌, ◌≡◌, ◌⊎◌, refl, sym, ap, ◌∙◌, String, true, none, some, List, [], ◌∷◌, map, arith, inl, inr,
  Option-cases, leb,
}
use devrelay.Map.{get}
use devrelay.Map.Laws.{Has}
use devrelay.Retention.{
  RetentionKeepReason, SnapshotRetentionEntry, PruningPlanInput, PruningDecision,
  HandoffSnapshotProtection, is_hard, keep, canonical_latest, is_pinned, handoff_protected,
  retained_parent, mul_u64, seconds_per_hour, seconds_per_day, hot_snapshot, hourly_thinning,
  daily_thinning,
}
use devrelay.Retention.Reasons.{
  ReasonMap, reasons_of, hard_reasons, direct_reasons, latest_per_bucket, newest_first, take,
}
use devrelay.Retention.Reasons.Laws.{HasReason, add_reason-has}
use devrelay.Retention.Parents.{retention_reasons, collect_parents}
use devrelay.Retention.Parents.Closure.{
  protect_retained_parents-closed, protect_retained_parents-keeps,
}
use devrelay.Retention.Plan.{
  any_hard, decide, plan_snapshot_pruning, Pressure, reasons_for, chosen, quota_overage,
  hard_stop_deficit,
}
use devrelay.Retention.Plan.Choice.{any_hard-Has, choose-IsSpared, choose-had_reason, IsSpared}
use devrelay.Retention.Reasons.Hard.{
  add_reasons-keeps, pinned_reasons-keeps, pinned_reasons-Has, handoff_reasons-keeps,
  handoff_reasons-Has,
}

-- Why a snapshot may not go: it is the latest canonical one, it is pinned, or a handoff protects it
-- that is not over.
abbrev pub IsProtected : PruningPlanInput → String → Type 0
IsProtected input j =
    (input.canonical_latest_snapshot_id ≡ some j)
    ⊎ ((s : SnapshotRetentionEntry) × Has s input.snapshots
        × (s.snapshot_id ≡ j)
        × (s.pinned ≡ true))
    ⊎ ((p : HandoffSnapshotProtection) × Has p input.handoff_protections
        × (p.snapshot_id ≡ j)
        × (leb input.now_unix_seconds p.protect_until_unix_seconds ≡ true))

abbrev hard_for : PruningPlanInput → ReasonMap
hard_for input =
    hard_reasons input.snapshots input.canonical_latest_snapshot_id input.handoff_protections
      input.now_unix_seconds

abbrev direct_for : PruningPlanInput → ReasonMap
direct_for input =
    direct_reasons input.snapshots input.policy input.canonical_latest_snapshot_id
      input.handoff_protections input.now_unix_seconds

direct_reasons-keeps :
    (input : PruningPlanInput) (r : RetentionKeepReason) (j : String)
    → HasReason r j (hard_for input)
    → HasReason r j (direct_for input)
unfolding direct_reasons
direct_reasons-keeps input r j h =
    let policy = input.policy in
    let now = input.now_unix_seconds in
    let hourly_floor = now - mul_u64 policy.hourly_thinning_hours seconds_per_hour in
    let daily_floor = now - mul_u64 policy.daily_thinning_days seconds_per_day in
    add_reasons-keeps daily_thinning (latest_per_bucket input.snapshots daily_floor seconds_per_day)
      _ r j
      (add_reasons-keeps hourly_thinning
        (latest_per_bucket input.snapshots hourly_floor seconds_per_hour) _ r j
        (add_reasons-keeps hot_snapshot
          (take policy.hot_snapshot_count (newest_first input.snapshots)) (hard_for input) r j h))

-- The hard reasons last until the plan is made.
reasons_for-keeps :
    (input : PruningPlanInput) (r : RetentionKeepReason) (j : String)
    → HasReason r j (hard_for input)
    → HasReason r j (reasons_for input)
unfolding retention_reasons
reasons_for-keeps input r j h =
    protect_retained_parents-keeps input.snapshots _ r j (direct_reasons-keeps input r j h)

hard_of :
    (input : PruningPlanInput) (j : String)
    → IsProtected input j
    → (r : RetentionKeepReason) × (is_hard r ≡ true) × HasReason r j (hard_for input)
unfolding hard_reasons
hard_of input j (inl e) = (
  canonical_latest,
  refl,
  handoff_reasons-keeps input.now_unix_seconds input.handoff_protections _ canonical_latest j (
      pinned_reasons-keeps input.snapshots _ canonical_latest j
        (rw (e, HasReason) (add_reason-has j canonical_latest []))),
)
hard_of input j (inr (inl (s, here, same, e))) = (
  is_pinned,
  refl,
  handoff_reasons-keeps input.now_unix_seconds input.handoff_protections _ is_pinned j
      (rw (sym same) (pinned_reasons-Has input.snapshots _ s here e)),
)
hard_of input j (inr (inr (p, here, same, e))) = (
  handoff_protected,
  refl,
  rw (sym same) (handoff_reasons-Has input.now_unix_seconds input.handoff_protections _ p here e),
)

-- A decision keeps its snapshot for a hard reason.
abbrev pub IsKept : PruningDecision → Type 0
IsKept d = (rs : List RetentionKeepReason) × (d.action ≡ keep rs) × (any_hard rs ≡ true)

pub map-Has :
    {A B : Type 0} (f : A → B) (xs : List A) (y : B)
    → Has y (map f xs)
    → (x : A) × Has x xs × (y ≡ f x)
map-Has f [] y h = absurd h
map-Has f (x ∷ xs) y h = elim h [
  | inl e ↦ (x, inl refl, e)
  | inr later ↦ let (z, here, e) = map-Has f xs y later in (z, inr here, e)
]

decide-IsKept :
    (p : Pressure) (s : SnapshotRetentionEntry) → IsSpared s.snapshot_id p → IsKept (decide p s)
unfolding decide
decide-IsKept p s h = (reasons_of s.snapshot_id p.reasons, rw (h.stays, decide) refl, h.hard)

pub decide-keep :
    (p : Pressure) (s : SnapshotRetentionEntry) (rs : List RetentionKeepReason)
    → (decide p s).action ≡ keep rs
    → get s.snapshot_id p.delete_reasons ≡ none
unfolding decide
decide-keep p s rs h = ground (arith, h, Option-cases (get s.snapshot_id p.delete_reasons))

-- A snapshot with a hard reason is kept by each of its decisions.
hard-IsKept :
    (input : PruningPlanInput) (d : PruningDecision) (r : RetentionKeepReason)
    → Has d (plan_snapshot_pruning input).decisions
    → is_hard r ≡ true
    → HasReason r d.snapshot_id (reasons_for input)
    → IsKept d
unfolding plan_snapshot_pruning decide
hard-IsKept input d r here hard h =
    let (s, is_in, e) = map-Has (decide (chosen input)) input.snapshots d here in
    rw (e) (
      decide-IsKept (chosen input) s (
        choose-IsSpared (reasons_for input) input.snapshots (quota_overage input)
          (hard_stop_deficit input) s.snapshot_id
          (any_hard-Has r (reasons_of s.snapshot_id (reasons_for input))
            (subst (λ x. HasReason r x.snapshot_id (reasons_for input)) e h) hard)))

-- A plan never deletes a protected snapshot, under whatever quota or disk pressure: its decision keeps
-- it, for a hard reason. Protected are the latest canonical snapshot, the pinned ones, and those of a
-- handoff protection that is not over.
pub plan_snapshot_pruning-keeps_protected :
    (input : PruningPlanInput) (d : PruningDecision)
    → Has d (plan_snapshot_pruning input).decisions
    → IsProtected input d.snapshot_id
    → IsKept d
plan_snapshot_pruning-keeps_protected input d here h =
    let (r, hard, has) = hard_of input d.snapshot_id h in
    hard-IsKept input d r here hard (reasons_for-keeps input r d.snapshot_id has)

-- A plan never cuts a kept snapshot off from its history: if a decision keeps its snapshot, for whatever
-- reason, the decision about the parent of that snapshot (as the snapshots given to the planner name
-- it) keeps the parent, for a hard reason. This holds under whatever quota or disk pressure.
pub plan_snapshot_pruning-keeps_parents :
    (input : PruningPlanInput) (d e : PruningDecision) (rs : List RetentionKeepReason)
    → Has d (plan_snapshot_pruning input).decisions
    → d.action ≡ keep rs
    → get d.snapshot_id (collect_parents input.snapshots []) ≡ some (some e.snapshot_id)
    → Has e (plan_snapshot_pruning input).decisions
    → IsKept e
unfolding plan_snapshot_pruning decide retention_reasons
plan_snapshot_pruning-keeps_parents input d e rs here kept parent there =
    let (s, is_in, same) = map-Has (decide (chosen input)) input.snapshots d here in
    let (r, has) =
      choose-had_reason (reasons_for input) input.snapshots (quota_overage input)
        (hard_stop_deficit input) s is_in
        (decide-keep (chosen input) s rs (sym (ap (λ x. x.action) same) ∙ kept)) in
    hard-IsKept input e retained_parent there refl (
      protect_retained_parents-closed input.snapshots (direct_for input) r s.snapshot_id
        e.snapshot_id has
        (subst
          (λ x. get x.snapshot_id (collect_parents input.snapshots []) ≡ some (some e.snapshot_id))
          same parent))
