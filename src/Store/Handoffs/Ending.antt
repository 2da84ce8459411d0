-- ===== src/Store/Handoffs/Ending.antt =====
-- `IsConsistent` when a handoff ends: aborted, or committed.
use devrelay.Prelude.{
  ◌≤◌, ◌≡◌, ◌≢◌, String, Bool, true, false, none, some, inl, inr, arith, is_self, Option-cases,
  eq_iff,
}
use devrelay.Sql.{update, count}
use devrelay.Sql.Laws.{find-update, count-update, revise, map_option}
use devrelay.Lease
use devrelay.Store.Db.{Db, LeaseRow, HandoffRow}
use devrelay.Store.Handoffs.Queries.{lease_key, handoff_key}
use devrelay.Store.Handoffs.Change.{lease_at, handoff_at, is_open}
use devrelay.Store.Handoffs.Effects.{handoff_at-id}
use devrelay.Store.Handoffs.Invariant.{IsConsistent, IsHeldBy, IsOpenFor}

module _ (db after : Db) (row : HandoffRow) (found : handoff_at db row.handoff_id ≡ some row)
    (was_open : is_open row ≡ true) (close : HandoffRow → HandoffRow)
    (close_id : (r : HandoffRow) → (close r).handoff_id ≡ r.handoff_id)
    (closed : (r : HandoffRow) → is_open (close r) ≡ false)
    (handoffs_are : after.handoffs ≡ update (handoff_key row.handoff_id) close db.handoffs)
    (taken : LeaseRow → Bool) (free : LeaseRow → LeaseRow)
    (free_id : (r : LeaseRow) → (free r).lease_id ≡ r.lease_id)
    (freed : (r : LeaseRow) → ((free r).handoff_id ≡ none) × ((free r).state ≡ "active"))
    (taken_names : (r : LeaseRow) → taken r ≡ true → r.handoff_id ≡ some row.handoff_id)
    (holder_taken : (l : String) (r : LeaseRow)
      → lease_at db l ≡ some r
      → row.lease_id ≡ some l
      → IsHeldBy (some r) row
      → taken r ≡ true)
    (leases_are : after.leases ≡ update taken free db.leases) where
  lease_at-end : (k : String) → lease_at after k ≡ map_option (revise taken free) (lease_at db k)
  lease_at-end k =
      rw leases_are (find-update (lease_key k) taken free (λ r. rw (free_id r)) db.leases)

  handoff_at-end :
      (k : String)
      → handoff_at after k
        ≡ map_option (revise (handoff_key row.handoff_id) close) (handoff_at db k)
  handoff_at-end k = rw handoffs_are (
      find-update (handoff_key k) (handoff_key row.handoff_id) close (λ r. rw (close_id r))
        db.handoffs)

  end-lease_ids : IsConsistent db → (k : String) → count (lease_key k) after.leases ≤ 1
  end-lease_ids c k =
      rw leases_are
        (rw (count-update (lease_key k) taken free (λ r. rw (free_id r)) db.leases) (c.lease_ids k))

  end-handoff_ids : IsConsistent db → (k : String) → count (handoff_key k) after.handoffs ≤ 1
  end-handoff_ids c k = rw handoffs_are (
      rw
        (count-update (handoff_key k) (handoff_key row.handoff_id) close (λ r. rw (close_id r))
          db.handoffs)
        (c.handoff_ids k))

  end-open_leased :
      IsConsistent db
      → (h : String) (r : HandoffRow) → handoff_at after h ≡ some r
      → is_open r ≡ true
      → r.lease_id ≢ none
  end-open_leased c h r f w = elim (Option-cases (handoff_at db h)) [
    | inl gone ↦ ground (arith, handoff_at-end h)
    | inr (old, at) ↦ ground (arith, handoff_at-end h, c.open_leased h old, closed old)
  ]

  end-open_holds :
      IsConsistent db
      → (h k : String) (r : HandoffRow) → handoff_at after h ≡ some r
      → is_open r ≡ true
      → r.lease_id ≡ some k
      → IsHeldBy (lease_at after k) r
  end-open_holds c h k r f w e = elim (Option-cases (handoff_at db h)) [
    | inl gone ↦ ground (arith, handoff_at-end h)
    | inr (old, at) ↦ elim (Option-cases (lease_at db k)) [
      | inl gone ↦ ground (arith, handoff_at-end h, closed old, c.open_holds h k old)
      | inr (lease, held) ↦ ground (
        arith,
        handoff_at-end h,
        lease_at-end k,
        closed old,
        c.open_holds h k old,
        taken_names lease,
        is_self row.handoff_id,
      )
    ]
  ]

  end-named_open :
      IsConsistent db
      → (k h : String) (r : LeaseRow) → lease_at after k ≡ some r
      → r.handoff_id ≡ some h
      → IsOpenFor (handoff_at after h) k
  end-named_open c k h r f e = elim (Option-cases (lease_at db k)) [
    | inl gone ↦ ground (arith, lease_at-end k)
    | inr (lease, held) ↦ elim (Option-cases (handoff_at db h)) [
      | inl gone ↦ ground (arith, lease_at-end k, c.named_open k h lease, freed lease)
      | inr (old, at) ↦ ground (
        arith,
        lease_at-end k,
        handoff_at-end h,
        c.named_open k h lease,
        freed lease,
        holder_taken k lease,
        c.open_holds h k old,
        handoff_at-id db h old,
        eq_iff old.handoff_id row.handoff_id,
        found,
      )
    ]
  ]

  end-pending_names :
      IsConsistent db
      → (k : String) (r : LeaseRow) → lease_at after k ≡ some r
      → r.state ≡ Lease.as_str Lease.handoff_pending
      → r.handoff_id ≢ none
  unfolding Lease.as_str
  end-pending_names c k r f e = elim (Option-cases (lease_at db k)) [
    | inl gone ↦ ground (arith, lease_at-end k)
    | inr (lease, held) ↦ ground (
      arith,
      lease_at-end k,
      c.pending_names k lease,
      freed lease,
      eq_iff "active" "handoff-pending",
    )
  ]

  pub end-IsConsistent : IsConsistent db → IsConsistent after
  end-IsConsistent c = record {
    lease_ids = end-lease_ids c;
    handoff_ids = end-handoff_ids c;
    open_leased = end-open_leased c;
    open_holds = end-open_holds c;
    named_open = end-named_open c;
    pending_names = end-pending_names c;
  }
