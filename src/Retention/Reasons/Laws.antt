-- ===== src/Retention/Reasons/Laws.antt =====
-- What a snapshot's reasons are once a reason is added (`add_reason` of
-- crates/devrelay-core/src/retention.rs).
use Prim.Native.Nat.{Ordering}
use devrelay.Prelude.{
  ℕ, zero, suc, ◌≡◌, ◌⊎◌, refl, sym, ap, ◌∙◌, inl, inr, String, if◌then◌else◌, arith, Bool-cases,
  ◌is◌, is_self, is→≡,
}
use devrelay.Map.{add}
use devrelay.Map.Laws.{get-insert, Has, add-Has, add_keeps}
use devrelay.Retention.{
  RetentionKeepReason, retained_parent, rank, reason_order, canonical_latest, is_pinned,
  handoff_protected, hot_snapshot, hourly_thinning, daily_thinning,
}
use devrelay.Retention.Reasons.{ReasonMap, add_reason, reasons_of}

of_rank : ℕ → RetentionKeepReason
of_rank zero = canonical_latest
of_rank (suc zero) = is_pinned
of_rank (suc (suc zero)) = handoff_protected
of_rank (suc (suc (suc zero))) = retained_parent
of_rank (suc (suc (suc (suc zero)))) = hot_snapshot
of_rank (suc (suc (suc (suc (suc zero))))) = hourly_thinning
of_rank (suc (suc (suc (suc (suc (suc n)))))) = daily_thinning

of_rank-rank : (r : RetentionKeepReason) → of_rank (rank r) ≡ r
unfolding of_rank
of_rank-rank canonical_latest = refl
of_rank-rank is_pinned = refl
of_rank-rank handoff_protected = refl
of_rank-rank retained_parent = refl
of_rank-rank hot_snapshot = refl
of_rank-rank hourly_thinning = refl
of_rank-rank daily_thinning = refl

reason_order-eq : (a b : RetentionKeepReason) → reason_order a b ≡ Ordering.eq → a ≡ b
reason_order-eq a b h = sym (of_rank-rank a) ∙ ap of_rank same ∙ of_rank-rank b
  where
    same : rank a ≡ rank b
    same = ground (arith, h)

-- A snapshot has a reason to be kept.
abbrev pub HasReason : RetentionKeepReason → String → ReasonMap → Type 0
HasReason r snapshot_id m = Has r (reasons_of snapshot_id m)

reasons_of-add :
    (w j : String) (r : RetentionKeepReason) (m : ReasonMap)
    → reasons_of j (add_reason w r m)
      ≡ (if w is j then add reason_order r (reasons_of w m) else reasons_of j m)
unfolding add_reason
reasons_of-add w j r m = ground (arith, get-insert w j (add reason_order r (reasons_of w m)) m)

pub add_reason-has :
    (w : String) (r : RetentionKeepReason) (m : ReasonMap) → HasReason r w (add_reason w r m)
add_reason-has w r m =
    rw (Has, reasons_of-add w w r m, is_self w)
      (add-Has reason_order reason_order-eq r (reasons_of w m))

pub add_reason-keeps :
    (w j : String) (r q : RetentionKeepReason) (m : ReasonMap)
    → HasReason q j m
    → HasReason q j (add_reason w r m)
add_reason-keeps w j r q m h = elim (Bool-cases (w is j)) [
  | inl e ↦
      rw (reasons_of-add w j r m, e)
        (add_keeps reason_order reason_order-eq r q (reasons_of w m) (rw (is→≡ e) h))
  | inr e ↦ rw (reasons_of-add w j r m, e) h
]

pub add_reason-only :
    (w j : String) (r q : RetentionKeepReason) (m : ReasonMap)
    → HasReason q j (add_reason w r m)
    → HasReason q j m ⊎ (w ≡ j)
add_reason-only w j r q m h = elim (Bool-cases (w is j)) [
  | inl e ↦ inr (is→≡ e)
  | inr e ↦ inl (rw (reasons_of-add w j r m, e) at h)
]
