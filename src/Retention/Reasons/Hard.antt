-- ===== src/Retention/Reasons/Hard.antt =====
-- The hard reasons, once added, stay (`retention_reasons` of crates/devrelay-core/src/retention.rs).
use devrelay.Prelude.{ℕ, ◌≡◌, sym, ap, ◌∙◌, String, true, List, [], ◌∷◌, inl, inr, Bool-cases, leb}
use devrelay.Map.Laws.{Has}
use devrelay.Retention.{
  RetentionKeepReason, SnapshotRetentionEntry, HandoffSnapshotProtection, is_pinned,
  handoff_protected,
}
use devrelay.Retention.Reasons.{ReasonMap, add_reasons, pinned_reasons, handoff_reasons}
use devrelay.Retention.Reasons.Laws.{HasReason, add_reason-has, add_reason-keeps}

pub add_reasons-keeps :
    (q : RetentionKeepReason) (ss : List SnapshotRetentionEntry) (m : ReasonMap)
    (r : RetentionKeepReason) (j : String)
    → HasReason r j m
    → HasReason r j (add_reasons q ss m)
unfolding add_reasons
add_reasons-keeps q [] m r j h = h
add_reasons-keeps q (s ∷ ss) m r j h =
    add_reasons-keeps q ss _ r j (add_reason-keeps s.snapshot_id j q r m h)

pub pinned_reasons-keeps :
    (ss : List SnapshotRetentionEntry) (m : ReasonMap) (r : RetentionKeepReason) (j : String)
    → HasReason r j m
    → HasReason r j (pinned_reasons ss m)
unfolding pinned_reasons
pinned_reasons-keeps [] m r j h = h
pinned_reasons-keeps (s ∷ ss) m r j h = elim (Bool-cases s.pinned) [
  | inl e ↦
      rw (e, pinned_reasons)
        (pinned_reasons-keeps ss _ r j (add_reason-keeps s.snapshot_id j is_pinned r m h))
  | inr e ↦ rw (e, pinned_reasons) (pinned_reasons-keeps ss m r j h)
]

pub pinned_reasons-Has :
    (ss : List SnapshotRetentionEntry) (m : ReasonMap) (s : SnapshotRetentionEntry)
    → Has s ss
    → s.pinned ≡ true
    → HasReason is_pinned s.snapshot_id (pinned_reasons ss m)
unfolding pinned_reasons
pinned_reasons-Has [] m s here e = absurd here
pinned_reasons-Has (t ∷ ts) m s here e = elim here [
  | inl same ↦
      rw (ap (λ x. x.pinned) (sym same) ∙ e, ap (λ x. x.snapshot_id) same)
        (pinned_reasons-keeps ts _ is_pinned t.snapshot_id
          (add_reason-has t.snapshot_id is_pinned m))
  | inr later ↦ pinned_reasons-Has ts _ s later e
]

pub handoff_reasons-keeps :
    (now : ℕ) (ps : List HandoffSnapshotProtection) (m : ReasonMap) (r : RetentionKeepReason)
    (j : String)
    → HasReason r j m
    → HasReason r j (handoff_reasons now ps m)
unfolding handoff_reasons
handoff_reasons-keeps now [] m r j h = h
handoff_reasons-keeps now (p ∷ ps) m r j h =
    elim (Bool-cases (leb now p.protect_until_unix_seconds)) [
      | inl e ↦
          rw (e, handoff_reasons)
            (handoff_reasons-keeps now ps _ r j
              (add_reason-keeps p.snapshot_id j handoff_protected r m h))
      | inr e ↦ rw (e, handoff_reasons) (handoff_reasons-keeps now ps m r j h)
    ]

pub handoff_reasons-Has :
    (now : ℕ) (ps : List HandoffSnapshotProtection) (m : ReasonMap) (p : HandoffSnapshotProtection)
    → Has p ps
    → leb now p.protect_until_unix_seconds ≡ true
    → HasReason handoff_protected p.snapshot_id (handoff_reasons now ps m)
unfolding handoff_reasons
handoff_reasons-Has now [] m p here e = absurd here
handoff_reasons-Has now (q ∷ qs) m p here e = elim here [
  | inl same ↦
      rw
        (
          ap (λ x. leb now x.protect_until_unix_seconds) (sym same) ∙ e,
          ap (λ x. x.snapshot_id) same,
        )
        (handoff_reasons-keeps now qs _ handoff_protected q.snapshot_id
          (add_reason-has q.snapshot_id handoff_protected m))
  | inr later ↦ handoff_reasons-Has now qs _ p later e
]
