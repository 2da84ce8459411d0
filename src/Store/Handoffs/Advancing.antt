-- ===== src/Store/Handoffs/Advancing.antt =====
-- `IsConsistent` when a handoff goes one state further.
use devrelay.Prelude.{
  ◌≤◌, ◌≡◌, ◌≢◌, refl, String, Bool, true, ◌&&◌, none, some, inl, inr, arith, ◌is◌, Option-cases,
}
use devrelay.Sql.{count}
use devrelay.Sql.Laws.{find-update, count-update, revise, map_option}
use devrelay.Handoff
use devrelay.Handoff.{HandoffState}
use devrelay.Store.Db.{Db, LeaseRow, HandoffRow}
use devrelay.Store.Handoffs.Queries.{handoff_key}
use devrelay.Store.Handoffs.Change.{lease_at, handoff_at, Advances, is_open, restate}
use devrelay.Store.Handoffs.Invariant.{IsConsistent, IsHeldBy, IsOpenFor}

module _ (db after : Db) (row : HandoffRow) (expected next : HandoffState)
    (expected_open : (r : HandoffRow)
      → (r.state is Handoff.as_str expected) ≡ true
      → is_open r ≡ true)
    (next_open : (r : HandoffRow) → is_open (restate next r) ≡ true)
    (a : Advances db after row expected next) where
  abbrev matches : HandoffRow → Bool
  matches r = handoff_key row.handoff_id r && r.state is Handoff.as_str expected

  pub handoff_at-Advances :
      (k : String)
      → handoff_at after k ≡ map_option (revise matches (restate next)) (handoff_at db k)
  handoff_at-Advances k =
      rw a.handoffs (find-update (handoff_key k) matches (restate next) (λ r. refl) db.handoffs)

  advances-handoff_ids : IsConsistent db → (k : String) → count (handoff_key k) after.handoffs ≤ 1
  advances-handoff_ids c k = rw a.handoffs (
      rw (count-update (handoff_key k) matches (restate next) (λ r. refl) db.handoffs)
        (c.handoff_ids k))

  advances-open_leased :
      IsConsistent db
      → (h : String) (r : HandoffRow) → handoff_at after h ≡ some r
      → is_open r ≡ true
      → r.lease_id ≢ none
  advances-open_leased c h r f w = elim (Option-cases (handoff_at db h)) [
    | inl gone ↦ ground (arith, handoff_at-Advances h)
    | inr (old, at) ↦ ground (arith, handoff_at-Advances h, c.open_leased h old, expected_open old)
  ]

  advances-open_holds :
      IsConsistent db
      → (h k : String) (r : HandoffRow) → handoff_at after h ≡ some r
      → is_open r ≡ true
      → r.lease_id ≡ some k
      → IsHeldBy (lease_at after k) r
  advances-open_holds c h k r f w e = elim (Option-cases (handoff_at db h)) [
    | inl gone ↦ ground (arith, handoff_at-Advances h)
    | inr (old, at) ↦
        rw a.leases (ground (arith, handoff_at-Advances h, c.open_holds h k old, expected_open old))
  ]

  advances-named_open :
      IsConsistent db
      → (k h : String) (r : LeaseRow) → lease_at after k ≡ some r
      → r.handoff_id ≡ some h
      → IsOpenFor (handoff_at after h) k
  advances-named_open c k h r f e = elim (Option-cases (handoff_at db h)) [
    | inl gone ↦
        let same : lease_at db k ≡ some r = rw (← a.leases) f in
        ground (arith, handoff_at-Advances h, c.named_open k h r)
    | inr (old, at) ↦
        let same : lease_at db k ≡ some r = rw (← a.leases) f in
        ground (arith, handoff_at-Advances h, c.named_open k h r, next_open old)
  ]

  pub Advances-IsConsistent : IsConsistent db → IsConsistent after
  Advances-IsConsistent c = record {
    lease_ids = λ k. rw a.leases (c.lease_ids k);
    handoff_ids = advances-handoff_ids c;
    open_leased = advances-open_leased c;
    open_holds = advances-open_holds c;
    named_open = advances-named_open c;
    pending_names = λ k r. rw a.leases (c.pending_names k r);
  }
