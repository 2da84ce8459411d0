-- ===== src/Store/Handoffs/Views.antt =====
-- What lookups see after a handoff ends.
use devrelay.Prelude.{
  ℕ, ◌+◌, ◌<◌, ◌≡◌, ◌≢◌, refl, String, none, some, inl, inr, arith, is_self, Option-cases, eq_iff,
}
use mathlib.Core.Path.{subst}
use devrelay.Prelude.Int.{pos, i64_bound}
use devrelay.Sql.Laws.{find-update, revise, map_option}
use devrelay.Lease
use devrelay.Store.Db.{Db, LeaseRow, HandoffRow, handoff_record_from_row}
use devrelay.Store.Handoffs.Queries.{lease_key, handoff_key}
use devrelay.Store.Handoffs.Finish.{is_bound_to}
use devrelay.Store.Handoffs.Change.{
  lease_at, handoff_at, Releases, Transfers, give_back, hand_over, mark_aborted, mark_committed,
}
use devrelay.Store.Handoffs.Effects.{lease_at-id}
use devrelay.Store.Handoffs.Invariant.{IsHeldBy}
use devrelay.Store.Handoffs.Keeping.{released}

module _ (db after : Db) (row : HandoffRow) (now : ℕ) where
  pub lease_at-Releases :
      Releases db after row now
      → (k : String)
      → lease_at after k ≡ map_option (revise (released row) give_back) (lease_at db k)
  lease_at-Releases s k =
      rw s.leases (find-update (lease_key k) (released row) give_back (λ r. refl) db.leases)

  handoff_at-Releases :
      Releases db after row now → handoff_at after row.handoff_id ≡ some (mark_aborted now row)
  handoff_at-Releases s = rw s.handoffs (
      rw
        (find-update (handoff_key row.handoff_id) (handoff_key row.handoff_id) (mark_aborted now)
          (λ r. refl) db.handoffs)
        (rw s.found (ground (arith, is_self row.handoff_id))))

  pub lease_at-Transfers :
      Transfers db after row now
      → (k : String)
      → lease_at after k
        ≡ map_option
            (revise (is_bound_to (handoff_record_from_row row) row.handoff_id) (hand_over row))
            (lease_at db k)
  lease_at-Transfers t k = rw t.leases (
      find-update (lease_key k) (is_bound_to (handoff_record_from_row row) row.handoff_id)
        (hand_over row) (λ r. refl) db.leases)

  handoff_at-Transfers :
      Transfers db after row now → handoff_at after row.handoff_id ≡ some (mark_committed now row)
  handoff_at-Transfers t = rw t.handoffs (
      rw
        (find-update (handoff_key row.handoff_id) (handoff_key row.handoff_id) (mark_committed now)
          (λ r. refl) db.handoffs)
        (rw t.found (ground (arith, is_self row.handoff_id))))

  pub lookup-Releases :
      (h : String)
      → Releases db after row now
      → row.handoff_id ≡ h
      → handoff_at after h ≡ some (mark_aborted now row)
  lookup-Releases h s e =
      subst (λ x. handoff_at after x ≡ some (mark_aborted now row)) e (handoff_at-Releases s)

  pub lookup-Transfers :
      (h : String)
      → Transfers db after row now
      → row.handoff_id ≡ h
      → handoff_at after h ≡ some (mark_committed now row)
  lookup-Transfers h s e =
      subst (λ x. handoff_at after x ≡ some (mark_committed now row)) e (handoff_at-Transfers s)

  -- Leases of another id are not touched.
  pub lease_at-Releases_ne :
      Releases db after row now
      → (l k : String) → row.lease_id ≡ some l
      → k ≢ l
      → lease_at after k ≡ lease_at db k
  unfolding handoff_record_from_row
  lease_at-Releases_ne s l k e d = elim (Option-cases (lease_at db k)) [
    | inl gone ↦ ground (arith, lease_at-Releases s k)
    | inr (x, at) ↦
        ground (arith, lease_at-Releases s k, lease_at-id db k x at, eq_iff x.lease_id l)
  ]

  pub lease_at-Transfers_ne :
      Transfers db after row now
      → (l k : String) → row.lease_id ≡ some l
      → k ≢ l
      → lease_at after k ≡ lease_at db k
  unfolding handoff_record_from_row
  lease_at-Transfers_ne t l k e d = elim (Option-cases (lease_at db k)) [
    | inl gone ↦ ground (arith, lease_at-Transfers t k)
    | inr (x, at) ↦
        ground (arith, lease_at-Transfers t k, lease_at-id db k x at, eq_iff x.lease_id l)
  ]

-- The lease that a target gets, in numbers.
pub hand_over-held :
    (row : HandoffRow) (lease : LeaseRow) (n : ℕ)
    → IsHeldBy (some lease) row
    → lease.epoch ≡ pos n
    → n + 1 < i64_bound
    → hand_over row lease ≡ record lease {
      state = Lease.as_str Lease.active;
      epoch = pos (n + 1);
      holder_device_id = some (handoff_record_from_row row).target_device_id;
      handoff_id = none;
    }
unfolding handoff_record_from_row
hand_over-held row lease n held e small = ground arith
