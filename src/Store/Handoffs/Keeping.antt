-- ===== src/Store/Handoffs/Keeping.antt =====
-- `IsConsistent` through each of the changes that an operation may make.
use devrelay.Prelude.{
  ℕ, ◌≤◌, ◌≡◌, refl, String, Bool, true, false, ◌&&◌, some, inl, inr, arith, ◌is◌, is_some_of,
  is_self, Bool-cases, eq_iff, is_some_of→≡, and_right,
}
use devrelay.Prelude.Int.{as_i64, eqb_ℤ}
use devrelay.Sql.{count}
use devrelay.Sql.Laws.{count-none, find_holds}
use devrelay.Lease
use devrelay.Handoff
use devrelay.Handoff.{HandoffState, HandoffRecord}
use devrelay.Handoff.Codec.{is_terminal-parse}
use devrelay.Store.Db.{Db, LeaseRow, HandoffRow, handoff_record_from_row}
use devrelay.Store.Handoffs.Queries.{lease_key}
use devrelay.Store.Handoffs.Finish.{is_bound_to}
use devrelay.Store.Handoffs.Change.{
  lease_at, Releases, Transfers, Change, stays, opens, verifies, readies, releases, transfers,
  edits, is_open, in_state, give_back, hand_over, mark_aborted, mark_committed,
}
use devrelay.Store.Handoffs.Effects.{lease_at-id}
use devrelay.Store.Handoffs.Invariant.{IsConsistent, IsHeldBy, Stays-IsConsistent}
use devrelay.Store.Handoffs.Opening.{Opens-IsConsistent}
use devrelay.Store.Handoffs.Advancing.{Advances-IsConsistent}
use devrelay.Store.Handoffs.Editing.{Edits-IsConsistent}
use devrelay.Store.Handoffs.Ending.{end-IsConsistent}

pub open_if_in_state :
    (s : HandoffState) (r : HandoffRow)
    → Handoff.is_terminal s ≡ false
    → in_state s r ≡ true
    → is_open r ≡ true
unfolding handoff_record_from_row Handoff.is_terminal
open_if_in_state s r t h = ground (arith, is_terminal-parse r.state)

prepare_open : (r : HandoffRow) → (r.state is "target-prepare") ≡ true → is_open r ≡ true
prepare_open r h = ground (
  arith,
  eq_iff r.state "target-prepare",
  eq_iff r.state "committed",
  eq_iff r.state "aborted",
  eq_iff "target-prepare" "committed",
  eq_iff "target-prepare" "aborted",
)

verified_open : (r : HandoffRow) → (r.state is "target-verified") ≡ true → is_open r ≡ true
verified_open r h = ground (
  arith,
  eq_iff r.state "target-verified",
  eq_iff r.state "committed",
  eq_iff r.state "aborted",
  eq_iff "target-verified" "committed",
  eq_iff "target-verified" "aborted",
)

-- The lease that a release gives back.
abbrev pub released : HandoffRow → LeaseRow → Bool
released row r =
    lease_key (handoff_record_from_row row).lease_id r && is_some_of r.handoff_id row.handoff_id

-- A lease that is not bound to the handoff leaves the commit nothing to change.
not_bound-count :
    (db : Db) (handoff : HandoffRecord) (h : String) (r : LeaseRow)
    → count (lease_key handoff.lease_id) db.leases ≤ 1
    → lease_at db handoff.lease_id ≡ some r
    → is_bound_to handoff h r ≡ false
    → count (is_bound_to handoff h) db.leases ≡ 0
not_bound-count db handoff h r u at miss =
    count-none (lease_key handoff.lease_id)
      (λ x. eqb_ℤ x.epoch (as_i64 handoff.expected_epoch) && is_some_of x.handoff_id h) db.leases
      (λ x e. other x (ground (arith, at, e))) u
  where
    other :
        (x : LeaseRow)
        → r ≡ x
        → (eqb_ℤ x.epoch (as_i64 handoff.expected_epoch) && is_some_of x.handoff_id h) ≡ false
    other x e = rw (← e) (ground (arith, find_holds (lease_key handoff.lease_id) db.leases at))

module _ (db after : Db) (row : HandoffRow) (now : ℕ) where
  released-names : (r : LeaseRow) → released row r ≡ true → r.handoff_id ≡ some row.handoff_id
  released-names r h = is_some_of→≡ r.handoff_id row.handoff_id (and_right _ _ h)

  pub holder-released :
      (l : String) (r : LeaseRow)
      → lease_at db l ≡ some r
      → row.lease_id ≡ some l
      → IsHeldBy (some r) row
      → released row r ≡ true
  unfolding handoff_record_from_row
  holder-released l r at e held =
      ground (arith, lease_at-id db l r at, is_self l, is_self row.handoff_id)

  Releases-IsConsistent : Releases db after row now → IsConsistent db → IsConsistent after
  unfolding Handoff.as_str Lease.as_str
  Releases-IsConsistent s =
      end-IsConsistent db after row s.found s.was_open (mark_aborted now) (λ r. refl) (λ r. refl)
        s.handoffs (released row) give_back (λ r. refl) (λ r. (refl, refl)) released-names
        holder-released s.leases

  pub bound-names :
      (r : LeaseRow)
      → is_bound_to (handoff_record_from_row row) row.handoff_id r ≡ true
      → r.handoff_id ≡ some row.handoff_id
  bound-names r h = is_some_of→≡ r.handoff_id row.handoff_id (and_right _ _ (and_right _ _ h))

  -- The one lease that a commit changes is the one that the handoff holds.
  pub holder-bound :
      Transfers db after row now
      → IsConsistent db
      → (l : String) (r : LeaseRow) → lease_at db l ≡ some r
      → row.lease_id ≡ some l
      → is_bound_to (handoff_record_from_row row) row.handoff_id r ≡ true
  unfolding handoff_record_from_row
  holder-bound t c l r at e =
      elim (Bool-cases (is_bound_to (handoff_record_from_row row) row.handoff_id r)) [
        | inl hit ↦ hit
        | inr miss ↦
            let same : (handoff_record_from_row row).lease_id ≡ l = rw e in
            absurd (
              omega (
                arith,
                t.one_lease,
                not_bound-count db (handoff_record_from_row row) row.handoff_id r
                    (c.lease_ids (handoff_record_from_row row).lease_id) (rw same at) miss,
              ))
      ]

  Transfers-IsConsistent : Transfers db after row now → IsConsistent db → IsConsistent after
  unfolding Handoff.as_str Lease.as_str Handoff.is_terminal
  Transfers-IsConsistent t c =
      end-IsConsistent db after row t.found
        (open_if_in_state Handoff.source_ready row refl t.was_ready) (mark_committed now)
        (λ r. refl) (λ r. refl) t.handoffs
        (is_bound_to (handoff_record_from_row row) row.handoff_id) (hand_over row) (λ r. refl)
        (λ r. (refl, refl)) bound-names (λ l r at e held. holder-bound t c l r at e) t.leases c

-- Every change keeps leases and handoffs consistent.
pub Change-IsConsistent : (db after : Db) → Change db after → IsConsistent db → IsConsistent after
unfolding Handoff.as_str
Change-IsConsistent db after (stays s) c = Stays-IsConsistent db after c s
Change-IsConsistent db after (opens row l lease o) c = Opens-IsConsistent db after row l lease o c
Change-IsConsistent db after (verifies row a) c =
    Advances-IsConsistent db after row Handoff.target_prepare Handoff.target_verified prepare_open
      (λ r. refl) a c
Change-IsConsistent db after (readies row a) c =
    Advances-IsConsistent db after row Handoff.target_verified Handoff.source_ready verified_open
      (λ r. refl) a c
Change-IsConsistent db after (releases row now s) c = Releases-IsConsistent db after row now s c
Change-IsConsistent db after (transfers row now t) c = Transfers-IsConsistent db after row now t c
Change-IsConsistent db after (edits p f e) c = Edits-IsConsistent db after p f e c
