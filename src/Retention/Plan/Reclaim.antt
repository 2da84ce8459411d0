-- ===== src/Retention/Plan/Reclaim.antt =====
-- A pruning plan goes as far as it may towards its target (`plan_snapshot_pruning` of
-- crates/devrelay-core/src/retention.rs).
use mathlib.Core.Path.{subst}
use devrelay.Prelude.{
  ℕ, ◌<◌, ◌≡◌, ◌⊎◌, sym, ap, ◌∙◌, String, Bool, true, none, List, [], ◌∷◌, arith, eq_iff, inl, inr,
  Bool-cases, ltb, leb, max, is_self,
}
use devrelay.Map.{get}
use devrelay.Map.Laws.{get-insert, Has}
use devrelay.Retention.{
  SnapshotRetentionEntry, PruningReason, PruningPlanInput, PruningDecision, RetentionKeepReason,
  keep,
}
use devrelay.Retention.Reasons.{ReasonMap, reasons_of, place, sort_by, oldest_first, older}
use devrelay.Retention.Plan.{
  Pressure, any_hard, press_one, press, choose, first_choice, pressure_reason, decide, reasons_for,
  chosen, quota_overage, hard_stop_deficit, plan_snapshot_pruning,
}
use devrelay.Retention.Plan.Choice.{press-only_adds}
use devrelay.Retention.Plan.Safety.{map-Has, decide-keep}

module _ (before : SnapshotRetentionEntry → SnapshotRetentionEntry → Bool) where
  place-Has :
      (s t : SnapshotRetentionEntry) (ts : List SnapshotRetentionEntry)
      → (s ≡ t) ⊎ Has s ts
      → Has s (place before t ts)
  unfolding place
  place-Has s t [] h = h
  place-Has s t (u ∷ us) h = elim (Bool-cases (before u t)) [
    | inl e ↦
        rw (e, place, Has)
          (elim h [
            | inl same ↦ inr (place-Has s t us (inl same))
            | inr (inl here) ↦ inl here
            | inr (inr later) ↦ inr (place-Has s t us (inr later))
          ])
    | inr e ↦ rw (e, place, Has) h
  ]

  sort_by-Has :
      (s : SnapshotRetentionEntry) (ss : List SnapshotRetentionEntry)
      → Has s ss
      → Has s (sort_by before ss)
  unfolding sort_by
  sort_by-Has s [] h = h
  sort_by-Has s (t ∷ ts) h =
      place-Has s t (sort_by before ts)
        (elim h [ inl same ↦ inl same | inr later ↦ inr (sort_by-Has s ts later) ])

-- What one round does to its own snapshot.
press_one-own :
    (reason : PruningReason) (s : SnapshotRetentionEntry) (p : Pressure)
    → get s.snapshot_id (press_one reason s p).delete_reasons ≡ none
    → any_hard (reasons_of s.snapshot_id p.reasons) ≡ true
unfolding press_one
press_one-own reason s p h = ground (
  arith,
  h,
  is_self s.snapshot_id,
  get-insert s.snapshot_id s.snapshot_id reason p.delete_reasons,
)

-- A round makes no snapshot hard.
press_one-no_harder :
    (reason : PruningReason) (s : SnapshotRetentionEntry) (j : String) (p : Pressure)
    → any_hard (reasons_of j (press_one reason s p).reasons) ≡ true
    → any_hard (reasons_of j p.reasons) ≡ true
unfolding press_one
press_one-no_harder reason s j p h = ground (
  arith,
  h,
  eq_iff s.snapshot_id j,
  get-insert s.snapshot_id j (reasons_of s.snapshot_id p.reasons) p.reasons,
  get-insert s.snapshot_id j [] p.reasons,
)

-- A loop that misses its target leaves only snapshots with a hard reason.
press-exhausts :
    (target : ℕ) (reason : PruningReason) (ss : List SnapshotRetentionEntry) (p : Pressure)
    (s : SnapshotRetentionEntry)
    → (press target reason ss p).planned < target
    → Has s ss
    → get s.snapshot_id (press target reason ss p).delete_reasons ≡ none
    → any_hard (reasons_of s.snapshot_id p.reasons) ≡ true
unfolding press
press-exhausts target reason [] p s short here left = absurd here
press-exhausts target reason (t ∷ ts) p s short here left =
    elim (Bool-cases (leb target p.planned)) [
      | inl met ↦ ground (arith, met, rw (met, press) at short)
      | inr unmet ↦
          let left' : get s.snapshot_id
                (press target reason ts (press_one reason t p)).delete_reasons
              ≡ none =
            rw (unmet, press) at left in
          elim here [
            | inl same ↦ press_one-own reason s p (
                press-only_adds target reason ts s.snapshot_id (press_one reason s p) (
                  subst
                    (λ x.
                      get s.snapshot_id
                        (press target reason ts (press_one reason x p)).delete_reasons
                      ≡ none)
                    (sym same) left'))
            | inr later ↦ press_one-no_harder reason t s.snapshot_id p (
                press-exhausts target reason ts (press_one reason t p) s
                  (rw (unmet, press) at short) later left')
          ]
    ]

choose-exhausts :
    (reasons : ReasonMap) (ss : List SnapshotRetentionEntry) (overage deficit : ℕ)
    (s : SnapshotRetentionEntry)
    → (choose reasons ss overage deficit).planned < max overage deficit
    → Has s ss
    → get s.snapshot_id (choose reasons ss overage deficit).delete_reasons ≡ none
    → any_hard (reasons_of s.snapshot_id reasons) ≡ true
unfolding choose first_choice oldest_first
choose-exhausts reasons ss overage deficit s short here left =
    let first = first_choice reasons ss in
    elim (Bool-cases (ltb first.planned (max overage deficit))) [
      | inl e ↦
          press-exhausts (max overage deficit) (pressure_reason overage deficit) (oldest_first ss)
            first s (rw (e, choose) at short) (sort_by-Has older s ss here) (rw (e, choose) at left)
      | inr e ↦ ground (arith, e, rw (e, choose) at short)
    ]

-- A plan that misses its target has gone as far as it may: if the bytes that it frees are fewer than its
-- target, each snapshot that it keeps has a hard reason.
pub plan_snapshot_pruning-exhausts :
    (input : PruningPlanInput) (d : PruningDecision) (rs : List RetentionKeepReason)
    → (plan_snapshot_pruning input).planned_reclaim_bytes
      < (plan_snapshot_pruning input).target_reclaim_bytes
    → Has d (plan_snapshot_pruning input).decisions
    → d.action ≡ keep rs
    → any_hard (reasons_of d.snapshot_id (reasons_for input)) ≡ true
unfolding plan_snapshot_pruning decide
plan_snapshot_pruning-exhausts input d rs short here kept =
    let (s, is_in, same) = map-Has (decide (chosen input)) input.snapshots d here in
    subst (λ x. any_hard (reasons_of x.snapshot_id (reasons_for input)) ≡ true) (sym same)
      (choose-exhausts (reasons_for input) input.snapshots (quota_overage input)
        (hard_stop_deficit input) s short is_in
        (decide-keep (chosen input) s rs (sym (ap (λ x. x.action) same) ∙ kept)))
