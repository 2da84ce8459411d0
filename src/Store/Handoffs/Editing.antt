-- ===== src/Store/Handoffs/Editing.antt =====
-- `IsConsistent` when a publish edits leases.
use devrelay.Prelude.{
  ◌≡◌, ◌≢◌, ap, String, Bool, true, ◌is◌, none, some, inl, inr, arith, Option-cases,
}
use devrelay.Sql.Laws.{find-update, count-update, revise, map_option}
use devrelay.Lease
use devrelay.Store.Db.{Db, LeaseRow, HandoffRow}
use devrelay.Store.Handoffs.Queries.{lease_key}
use devrelay.Store.Handoffs.Change.{lease_at, handoff_at, Edits, is_open}
use devrelay.Store.Handoffs.Invariant.{IsConsistent, IsHeldBy, IsOpenFor}

module _ (db after : Db) (p : LeaseRow → Bool) (f : LeaseRow → LeaseRow)
    (e : Edits db after p f) where
  pub lease_at-Edits : (k : String) → lease_at after k ≡ map_option (revise p f) (lease_at db k)
  lease_at-Edits k =
      rw e.leases (find-update (lease_key k) p f (λ r. ap (λ i. i is k) (e.keys r)) db.leases)

  edits-open_holds :
      IsConsistent db
      → (h k : String) (row : HandoffRow) → handoff_at after h ≡ some row
      → is_open row ≡ true
      → row.lease_id ≡ some k
      → IsHeldBy (lease_at after k) row
  edits-open_holds c h k row at w i = elim (Option-cases (lease_at db k)) [
    | inl gone ↦ ground (arith, e.handoffs, lease_at-Edits k, c.open_holds h k row)
    | inr (old, found) ↦ ground (
      arith,
      e.handoffs,
      lease_at-Edits k,
      c.open_holds h k row,
      e.names old,
      e.epochs old,
      e.holders old,
      e.pending old,
    )
  ]

  edits-named_open :
      IsConsistent db
      → (k h : String) (r : LeaseRow) → lease_at after k ≡ some r
      → r.handoff_id ≡ some h
      → IsOpenFor (handoff_at after h) k
  edits-named_open c k h r at n = elim (Option-cases (lease_at db k)) [
    | inl gone ↦ ground (arith, lease_at-Edits k)
    | inr (old, found) ↦
        ground (arith, e.handoffs, lease_at-Edits k, c.named_open k h old, e.names old)
  ]

  edits-pending_names :
      IsConsistent db
      → (k : String) (r : LeaseRow) → lease_at after k ≡ some r
      → r.state ≡ Lease.as_str Lease.handoff_pending
      → r.handoff_id ≢ none
  edits-pending_names c k r at n = elim (Option-cases (lease_at db k)) [
    | inl gone ↦ ground (arith, lease_at-Edits k)
    | inr (old, found) ↦
        ground (arith, lease_at-Edits k, c.pending_names k old, e.names old, e.pending old)
  ]

  pub Edits-IsConsistent : IsConsistent db → IsConsistent after
  Edits-IsConsistent c = record {
    lease_ids = λ k. rw e.leases (
        rw (count-update (lease_key k) p f (λ r. ap (λ i. i is k) (e.keys r)) db.leases)
          (c.lease_ids k));
    handoff_ids = λ h. rw e.handoffs (c.handoff_ids h);
    open_leased = λ h row. rw e.handoffs (c.open_leased h row);
    open_holds = edits-open_holds c;
    named_open = edits-named_open c;
    pending_names = edits-pending_names c;
  }
