-- ===== src/Store/Handoffs/Opening.antt =====
-- `IsConsistent` when a handoff is opened.
use devrelay.Prelude.{
  ◌≤◌, ◌≡◌, ◌≢◌, refl, String, true, none, some, ◌∷◌, [], inl, inr, arith, is→≡, Option-cases,
  Bool-cases, eq_iff, if◌then◌else◌,
}
use devrelay.Sql.{find, count}
use devrelay.Sql.Laws.{
  find-update, find-append, count-update, count-append, exists-find, exists-count, revise,
  map_option, or_else,
}
use devrelay.Lease
use devrelay.Handoff
use devrelay.Store.Db.{Db, LeaseRow, HandoffRow, lease_record_from_row}
use devrelay.Store.Handoffs.Queries.{lease_key, handoff_key}
use devrelay.Store.Handoffs.Change.{lease_at, handoff_at, Opens, is_open, bind}
use devrelay.Store.Handoffs.Effects.{lease_at-id}
use devrelay.Store.Handoffs.Invariant.{IsConsistent, IsHeldBy, IsOpenFor}

active-ne-pending :
    (r : LeaseRow)
    → Lease.same_state (lease_record_from_row r).state Lease.active ≡ true
    → r.state ≢ Lease.as_str Lease.handoff_pending
unfolding Lease.as_str lease_record_from_row Lease.parse_lease_state
active-ne-pending r h e = ground (arith, eq_iff r.state "handoff-pending")

is_open-prepare :
    (row : HandoffRow) → row.state ≡ Handoff.as_str Handoff.target_prepare → is_open row ≡ true
unfolding Handoff.as_str
is_open-prepare row e = rw e

module _ (db after : Db) (row : HandoffRow) (l : String) (lease : LeaseRow)
    (o : Opens db after row l lease) where
  pub lease_at-Opens :
      (k : String)
      → lease_at after k ≡ map_option (revise (lease_key l) (bind row.handoff_id)) (lease_at db k)
  lease_at-Opens k =
      rw o.leases
        (find-update (lease_key k) (lease_key l) (bind row.handoff_id) (λ r. refl) db.leases)

  pub handoff_at-Opens :
      (k : String)
      → handoff_at after k
        ≡ or_else (handoff_at db k) (if handoff_key k row then some row else none)
  unfolding find
  handoff_at-Opens k = rw (o.handoffs, find-append (handoff_key k) db.handoffs (row ∷ []))

  -- No handoff had the new one's id.
  no_other : handoff_at db row.handoff_id ≡ none
  no_other = exists-find (handoff_key row.handoff_id) db.handoffs o.fresh

  opens-lease_ids : IsConsistent db → (k : String) → count (lease_key k) after.leases ≤ 1
  opens-lease_ids c k = rw o.leases (
      rw (count-update (lease_key k) (lease_key l) (bind row.handoff_id) (λ r. refl) db.leases)
        (c.lease_ids k))

  opens-handoff_ids : IsConsistent db → (k : String) → count (handoff_key k) after.handoffs ≤ 1
  unfolding count
  opens-handoff_ids c k = rw o.handoffs (
      rw (count-append (handoff_key k) db.handoffs (row ∷ []))
        (elim (Bool-cases (handoff_key k row)) [
          | inl e ↦
              rw (← is→≡ e)
                (ground (arith, exists-count (handoff_key row.handoff_id) db.handoffs o.fresh))
          | inr e ↦ ground (arith, c.handoff_ids k)
        ]))

  opens-open_leased :
      IsConsistent db
      → (h : String) (r : HandoffRow) → handoff_at after h ≡ some r
      → is_open r ≡ true
      → r.lease_id ≢ none
  opens-open_leased c h r f w = ground (arith, handoff_at-Opens h, c.open_leased h r, o.row_lease)

  opens-open_holds :
      IsConsistent db
      → (h k : String) (r : HandoffRow) → handoff_at after h ≡ some r
      → is_open r ≡ true
      → r.lease_id ≡ some k
      → IsHeldBy (lease_at after k) r
  opens-open_holds c h k r f w e = elim (Option-cases (lease_at db k)) [
    | inl gone ↦ ground (
      arith,
      handoff_at-Opens h,
      lease_at-Opens k,
      c.open_holds h k r,
      o.lease_found,
      o.row_lease,
    )
    | inr (old, at) ↦ ground (
      arith,
      handoff_at-Opens h,
      lease_at-Opens k,
      c.open_holds h k r,
      o.lease_found,
      o.row_lease,
      o.row_epoch,
      o.row_source,
      active-ne-pending lease o.was_active,
      lease_at-id db k old,
      eq_iff old.lease_id l,
    )
  ]

  opens-named_open :
      IsConsistent db
      → (k h : String) (r : LeaseRow) → lease_at after k ≡ some r
      → r.handoff_id ≡ some h
      → IsOpenFor (handoff_at after h) k
  opens-named_open c k h r f e = elim (Option-cases (lease_at db k)) [
    | inl gone ↦ ground (arith, lease_at-Opens k)
    | inr (old, at) ↦ ground (
      arith,
      handoff_at-Opens h,
      lease_at-Opens k,
      c.named_open k h old,
      no_other,
      o.row_lease,
      is_open-prepare row o.row_state,
      lease_at-id db k old,
      eq_iff old.lease_id l,
      eq_iff row.handoff_id h,
    )
  ]

  opens-pending_names :
      IsConsistent db
      → (k : String) (r : LeaseRow) → lease_at after k ≡ some r
      → r.state ≡ Lease.as_str Lease.handoff_pending
      → r.handoff_id ≢ none
  opens-pending_names c k r f e = elim (Option-cases (lease_at db k)) [
    | inl gone ↦ ground (arith, lease_at-Opens k)
    | inr (old, at) ↦ ground (arith, lease_at-Opens k, c.pending_names k old)
  ]

  pub Opens-IsConsistent : IsConsistent db → IsConsistent after
  Opens-IsConsistent c = record {
    lease_ids = opens-lease_ids c;
    handoff_ids = opens-handoff_ids c;
    open_leased = opens-open_leased c;
    open_holds = opens-open_holds c;
    named_open = opens-named_open c;
    pending_names = opens-pending_names c;
  }
