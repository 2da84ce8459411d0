-- ===== src/Retention/Plan/Choice.antt =====
-- Which snapshots the two loops of `plan_snapshot_pruning` pass over
-- (crates/devrelay-core/src/retention.rs).
use devrelay.Prelude.{
  ℕ, ◌≡◌, ◌⊎◌, refl, String, true, false, none, List, [], ◌∷◌, arith, eq_iff, inl, inr, Bool-cases,
  ltb, leb, max, is_self,
}
use devrelay.Map.{get}
use devrelay.Map.Laws.{get-insert, Has}
use devrelay.Retention.{
  RetentionKeepReason, SnapshotRetentionEntry, PruningReason, is_hard, outside_retention,
}
use devrelay.Retention.Reasons.{ReasonMap, reasons_of, oldest_first}
use devrelay.Retention.Plan.{
  DeleteMap, Pressure, any_hard, no_reasons, outside, press_one, press, choose, pressure_reason,
  first_choice,
}

pub any_hard-Has :
    (r : RetentionKeepReason) (rs : List RetentionKeepReason)
    → Has r rs
    → is_hard r ≡ true
    → any_hard rs ≡ true
any_hard-Has r [] h hard = absurd h
any_hard-Has r (q ∷ rs) h hard = elim h [
  | inl same ↦ ground (arith, same, hard)
  | inr later ↦ ground (arith, any_hard-Has r rs later hard)
]

pub no_reasons-Has :
    (rs : List RetentionKeepReason) → no_reasons rs ≡ false → (r : RetentionKeepReason) × Has r rs
no_reasons-Has [] h = ground (arith, h)
no_reasons-Has (r ∷ rs) h = (r, inl refl)

hard-no_reasons : (rs : List RetentionKeepReason) → any_hard rs ≡ true → no_reasons rs ≡ false
hard-no_reasons [] h = ground (arith, h)
hard-no_reasons (r ∷ rs) h = refl

-- The first loop leaves a snapshot with a reason.
outside-spares :
    (reasons : ReasonMap) (j : String) (ss : List SnapshotRetentionEntry) (deletes : DeleteMap)
    → no_reasons (reasons_of j reasons) ≡ false
    → get j deletes ≡ none
    → get j (outside reasons ss deletes) ≡ none
unfolding outside
outside-spares reasons j [] deletes kept h = h
outside-spares reasons j (s ∷ ss) deletes kept h = outside-spares reasons j ss _ kept (
    ground (
      arith,
      h,
      kept,
      eq_iff s.snapshot_id j,
      get-insert s.snapshot_id j outside_retention deletes,
    ))

outside-only_adds :
    (reasons : ReasonMap) (j : String) (ss : List SnapshotRetentionEntry) (deletes : DeleteMap)
    → get j (outside reasons ss deletes) ≡ none
    → get j deletes ≡ none
unfolding outside
outside-only_adds reasons j [] deletes h = h
outside-only_adds reasons j (s ∷ ss) deletes h = ground (
  arith,
  outside-only_adds reasons j ss _ h,
  get-insert s.snapshot_id j outside_retention deletes,
)

-- And it takes one without.
outside-takes :
    (reasons : ReasonMap) (s : SnapshotRetentionEntry) (ss : List SnapshotRetentionEntry)
    (deletes : DeleteMap)
    → Has s ss
    → get s.snapshot_id (outside reasons ss deletes) ≡ none
    → no_reasons (reasons_of s.snapshot_id reasons) ≡ false
unfolding outside
outside-takes reasons s [] deletes here h = absurd here
outside-takes reasons s (t ∷ ts) deletes here h = elim here [
  | inl same ↦ ground (
    arith,
    same,
    outside-only_adds reasons s.snapshot_id ts _ h,
    get-insert t.snapshot_id s.snapshot_id outside_retention deletes,
    is_self s.snapshot_id,
  )
  | inr later ↦ outside-takes reasons s ts _ later h
]

-- A snapshot that the second loop has to pass over.
pub record IsSpared (j : String) (p : Pressure) : Type 0 where
  pub hard : any_hard (reasons_of j p.reasons) ≡ true
  pub stays : get j p.delete_reasons ≡ none

press_one-IsSpared :
    (reason : PruningReason) (s : SnapshotRetentionEntry) (j : String) (p : Pressure)
    → IsSpared j p
    → IsSpared j (press_one reason s p)
unfolding press_one
press_one-IsSpared reason s j p h = ground (
  arith,
  h.hard,
  h.stays,
  eq_iff s.snapshot_id j,
  get-insert s.snapshot_id j (reasons_of s.snapshot_id p.reasons) p.reasons,
  get-insert s.snapshot_id j [] p.reasons,
  get-insert s.snapshot_id j reason p.delete_reasons,
)

press-IsSpared :
    (target : ℕ) (reason : PruningReason) (ss : List SnapshotRetentionEntry) (j : String)
    (p : Pressure)
    → IsSpared j p
    → IsSpared j (press target reason ss p)
unfolding press
press-IsSpared target reason [] j p h = h
press-IsSpared target reason (s ∷ ss) j p h = elim (Bool-cases (leb target p.planned)) [
  | inl met ↦ rw (met, press) h
  | inr unmet ↦
      rw (unmet, press)
        (press-IsSpared target reason ss j (press_one reason s p)
          (press_one-IsSpared reason s j p h))
]

press_one-only_adds :
    (reason : PruningReason) (s : SnapshotRetentionEntry) (j : String) (p : Pressure)
    → get j (press_one reason s p).delete_reasons ≡ none
    → get j p.delete_reasons ≡ none
unfolding press_one
press_one-only_adds reason s j p h =
    ground (arith, h, get-insert s.snapshot_id j reason p.delete_reasons)

pub press-only_adds :
    (target : ℕ) (reason : PruningReason) (ss : List SnapshotRetentionEntry) (j : String)
    (p : Pressure)
    → get j (press target reason ss p).delete_reasons ≡ none
    → get j p.delete_reasons ≡ none
unfolding press
press-only_adds target reason [] j p h = h
press-only_adds target reason (s ∷ ss) j p h = elim (Bool-cases (leb target p.planned)) [
  | inl met ↦ rw (met, press) at h
  | inr unmet ↦
      press_one-only_adds reason s j p
        (press-only_adds target reason ss j (press_one reason s p) (rw (unmet, press) at h))
]

choose-effect :
    (reasons : ReasonMap) (ss : List SnapshotRetentionEntry) (overage deficit : ℕ)
    → (choose reasons ss overage deficit ≡ first_choice reasons ss)
      ⊎ (choose reasons ss overage deficit
          ≡ press
              (max overage deficit)
              (pressure_reason overage deficit)
              (oldest_first ss)
              (first_choice reasons ss))
unfolding choose
choose-effect reasons ss overage deficit =
    elim (Bool-cases (ltb (first_choice reasons ss).planned (max overage deficit))) [
      | inl e ↦ inr (rw (e, choose) refl)
      | inr e ↦ inl (rw (e, choose) refl)
    ]

first_choice-IsSpared :
    (reasons : ReasonMap) (ss : List SnapshotRetentionEntry) (j : String)
    → any_hard (reasons_of j reasons) ≡ true
    → IsSpared j (first_choice reasons ss)
unfolding first_choice get
first_choice-IsSpared reasons ss j h = record {
  hard = h;
  stays = outside-spares reasons j ss [] (hard-no_reasons (reasons_of j reasons) h) refl;
}

-- A snapshot with a hard reason is spared by both loops.
pub choose-IsSpared :
    (reasons : ReasonMap) (ss : List SnapshotRetentionEntry) (overage deficit : ℕ) (j : String)
    → any_hard (reasons_of j reasons) ≡ true
    → IsSpared j (choose reasons ss overage deficit)
choose-IsSpared reasons ss overage deficit j h =
    let first = first_choice-IsSpared reasons ss j h in
    elim (choose-effect reasons ss overage deficit) [
      | inl e ↦ rw (e) first
      | inr e ↦ rw (e) (
          press-IsSpared (max overage deficit) (pressure_reason overage deficit) (oldest_first ss) j
            (first_choice reasons ss) first)
    ]

-- A snapshot that both loops leave had a reason.
pub choose-had_reason :
    (reasons : ReasonMap) (ss : List SnapshotRetentionEntry) (overage deficit : ℕ)
    (s : SnapshotRetentionEntry)
    → Has s ss
    → get s.snapshot_id (choose reasons ss overage deficit).delete_reasons ≡ none
    → (r : RetentionKeepReason) × Has r (reasons_of s.snapshot_id reasons)
unfolding first_choice
choose-had_reason reasons ss overage deficit s here h =
    no_reasons-Has (reasons_of s.snapshot_id reasons) (
      outside-takes reasons s ss [] here (elim (choose-effect reasons ss overage deficit) [
        | inl e ↦ rw (e) at h
        | inr e ↦
            press-only_adds (max overage deficit) (pressure_reason overage deficit)
              (oldest_first ss) s.snapshot_id (first_choice reasons ss) (rw (e) at h)
      ]))
