-- ===== src/Store/Handoffs/Writer.antt =====
-- One writer for each lease: who can hold it, and when that changes.
use devrelay.Prelude.{
  ℕ, ◌+◌, ◌<◌, ◌≡◌, refl, ap, ◌∙◌, String, true, some, inl, inr, ◌⊎◌, arith, Bool-cases,
}
use devrelay.Prelude.Int.{pos, i64_bound}
use devrelay.Sql.Laws.{revise}
use devrelay.Handoff
use devrelay.Store.Db.{Db, LeaseRow, HandoffRow, handoff_record_from_row}
use devrelay.Store.Handoffs.Queries.{Json, lease_key}
use devrelay.Store.Handoffs.Finish.{is_bound_to}
use devrelay.Store.Handoffs.Change.{
  lease_at, handoff_at, Releases, Transfers, Change, stays, opens, verifies, readies, releases,
  transfers, edits, in_state, bind, give_back, hand_over,
}
use devrelay.Store.Handoffs.Invariant.{IsConsistent, IsOpenFor}
use devrelay.Store.Handoffs.Opening.{lease_at-Opens}
use devrelay.Store.Handoffs.Editing.{lease_at-Edits}
use devrelay.Store.Handoffs.Keeping.{released, bound-names, open_if_in_state}
use devrelay.Store.Handoffs.Reach.{Step, Step-Change}
use devrelay.Store.Handoffs.Views.{lease_at-Releases, lease_at-Transfers, hand_over-held}

-- What a change makes of a lease: holder and epoch stay, or a ready handoff of this lease hands
-- it over.
pub data LeaseMove (db : Db) (l : String) (before after : LeaseRow) : Type 0 where
  keeps :
      after.holder_device_id ≡ before.holder_device_id
      → after.epoch ≡ before.epoch
      → LeaseMove db l before after
  hands_over :
      (row : HandoffRow)
      → handoff_at db row.handoff_id ≡ some row
      → in_state Handoff.source_ready row ≡ true
      → row.lease_id ≡ some l
      → before.handoff_id ≡ some row.handoff_id
      → after ≡ hand_over row before
      → LeaseMove db l before after

abbrev Moves : Db → Db → String → LeaseRow → Type 0
Moves db after l lease =
    (lease' : LeaseRow) × (lease_at after l ≡ some lease') × LeaseMove db l lease lease'

kept :
    (db after : Db) (l : String) (lease : LeaseRow)
    → after.leases ≡ db.leases
    → lease_at db l ≡ some lease
    → Moves db after l lease
kept db after l lease same at = (lease, rw same at, keeps refl refl)

released_move :
    (db after : Db) (l : String) (lease : LeaseRow) (row : HandoffRow) (now : ℕ)
    → Releases db after row now
    → lease_at db l ≡ some lease
    → Moves db after l lease
released_move db after l lease row now s at = (
  revise (released row) give_back lease,
  rw (lease_at-Releases db after row now s l) (rw at),
  keeps (ground arith) (ground arith),
)

transferred_move :
    (db after : Db) (l : String) (lease : LeaseRow) (row : HandoffRow) (now : ℕ)
    → IsConsistent db
    → Transfers db after row now
    → lease_at db l ≡ some lease
    → Moves db after l lease
transferred_move db after l lease row now c t at =
    elim (Bool-cases (is_bound_to (handoff_record_from_row row) row.handoff_id lease)) [
      | inr miss ↦
          (lease, rw (lease_at-Transfers db after row now t l) (rw at (rw miss)), keeps refl refl)
      | inl hit ↦
          let names : lease.handoff_id ≡ some row.handoff_id =
            bound-names db after row now lease hit in
          let its : IsOpenFor (some row) l =
            rw t.found at (c.named_open l row.handoff_id lease at names) in
          (
            hand_over row lease,
            rw (lease_at-Transfers db after row now t l) (rw at (rw hit)),
            hands_over row t.found t.was_ready its.1 names refl,
          )
    ]

Change-LeaseMove :
    (db after : Db) (l : String) (lease : LeaseRow)
    → Change db after
    → IsConsistent db
    → lease_at db l ≡ some lease
    → Moves db after l lease
Change-LeaseMove db after l lease (stays s) c at = kept db after l lease s.leases at
Change-LeaseMove db after l lease (opens row k old o) c at = (
  revise (lease_key k) (bind row.handoff_id) lease,
  rw (lease_at-Opens db after row k old o l) (rw at),
  keeps (ground arith) (ground arith),
)
Change-LeaseMove db after l lease (verifies row a) c at = kept db after l lease a.leases at
Change-LeaseMove db after l lease (readies row a) c at = kept db after l lease a.leases at
Change-LeaseMove db after l lease (releases row now s) c at =
    released_move db after l lease row now s at
Change-LeaseMove db after l lease (transfers row now t) c at =
    transferred_move db after l lease row now c t at
Change-LeaseMove db after l lease (edits p f e) c at = (
  revise p f lease,
  rw (lease_at-Edits db after p f e l) (rw at),
  keeps (ground (arith, e.holders lease)) (ground (arith, e.epochs lease)),
)

-- Whatever operation of `Step` runs on a consistent database, no lease vanishes, and the holder and the
-- epoch of a lease stay as they are, unless the handoff that the lease names is in state
-- `source-ready` and hands the lease over: then the holder is that handoff's target.
pub Step-LeaseMove :
    {json : Json} {db after : Db} (l : String) (lease : LeaseRow)
    → Step json db after
    → IsConsistent db
    → lease_at db l ≡ some lease
    → (lease' : LeaseRow) × (lease_at after l ≡ some lease') × LeaseMove db l lease lease'
Step-LeaseMove {json} {db} {after} l lease s c at =
    Change-LeaseMove db after l lease (Step-Change s) c at

move_epoch :
    (db : Db) (l : String) (lease lease' : LeaseRow) (n : ℕ)
    → IsConsistent db
    → lease_at db l ≡ some lease
    → lease.epoch ≡ pos n
    → n + 1 < i64_bound
    → LeaseMove db l lease lease'
    → ((lease'.holder_device_id ≡ lease.holder_device_id) × (lease'.epoch ≡ pos n))
      ⊎ (lease'.epoch ≡ pos (n + 1))
move_epoch db l lease lease' n c at e small (keeps h k) = inl (h, k ∙ e)
move_epoch db l lease lease' n c at e small (hands_over row f s w names e') = inr (
    rw e' (
      ap (λ (r : LeaseRow). r.epoch)
        (hand_over-held row lease n
          (rw at at (
            c.open_holds row.handoff_id l row f
              (open_if_in_state Handoff.source_ready row (unfold Handoff.is_terminal in refl) s) w))
          e small)))

-- The epoch is a fencing token: on a consistent database, while the epoch is below 2^63 - 1, any
-- operation of `Step` either leaves a lease's holder and epoch alone, or raises its epoch by exactly one.
pub Step-epoch :
    {json : Json} {db after : Db} (l : String) (lease : LeaseRow) (n : ℕ)
    → Step json db after
    → IsConsistent db
    → lease_at db l ≡ some lease
    → lease.epoch ≡ pos n
    → n + 1 < i64_bound
    → (lease' : LeaseRow) × (lease_at after l ≡ some lease')
      × (((lease'.holder_device_id ≡ lease.holder_device_id) × (lease'.epoch ≡ pos n))
          ⊎ (lease'.epoch ≡ pos (n + 1)))
Step-epoch {json} {db} {after} l lease n s c at e small =
    let (lease', found, move) = Step-LeaseMove l lease s c at in
    (lease', found, move_epoch db l lease lease' n c at e small move)
