-- ===== src/Store/Publish/CompareAndSwap.antt =====
-- A canonical publish advances the lease's latest snapshot as a compare-and-swap on holder, epoch and
-- the snapshot that the publisher last saw.
use devrelay.Prelude.{
  ◌≡◌, refl, sym, ◌≢◌, ◌↔◌, ap, ◌∙◌, String, true, Option, none, some, inl, inr, ◌⊎◌, [], ◌∷◌, ◌++◌,
  arith, is_ne, Option-cases, Bool-cases, eq_iff, option_is,
}
use devrelay.Sql.Laws.{find-update, find_holds, revise, map_option}
use devrelay.Sql.{find, update}
use devrelay.SnapshotSchema.{SnapshotMetadata}
use devrelay.Store.Db.{Db, LeaseRow, lease_record_from_row}
use devrelay.Store.Tx.{Error, ok, err}
use devrelay.Store.Tx.Laws.{err-ne-ok, ok_injective}
use devrelay.Store.Handoffs.Queries.{lease_key}
use devrelay.Store.Handoffs.Change.{lease_at}
use devrelay.Store.Handoffs.Effects.{lease_at-id}
use devrelay.Store.Publish.{
  CanonicalPublishRequest, CanonicalPublishResult, publish_snapshot_canonical, stale_reason, fits,
}
use devrelay.Store.Publish.Canonical.{
  CanPublish, published_row, publish_result, publish_answer, stored_db, advanced, publishable_cases,
  publish_refused, publish_unprinted, publish_unfit, publish_stores,
}

none-ne-some : {A : Type 0} {a : A} → none ≢ some a
none-ne-some h = ground arith

option_is_iff : (a b : Option String) → (option_is a b ≡ true) ↔ (a ≡ b)
option_is_iff none none = (λ h. refl, λ h. refl)
option_is_iff none (some b) = (λ h. ground arith, λ h. ground arith)
option_is_iff (some a) none = (λ h. ground arith, λ h. ground arith)
option_is_iff (some a) (some b) = (λ h. ground (arith, eq_iff a b), λ h. ground (arith, eq_iff a b))

-- The publisher expects the lease's epoch and its latest snapshot.
abbrev pub Expects : CanonicalPublishRequest → LeaseRow → Type 0
Expects q lease =
    ((lease_record_from_row lease).epoch ≡ q.expected_epoch)
    × (lease.latest_snapshot_id ≡ q.expected_latest_snapshot_id)

pub fresh-Expects :
    (q : CanonicalPublishRequest) (lease : LeaseRow)
    → (stale_reason q (lease_record_from_row lease) ≡ none) ↔ Expects q lease
unfolding stale_reason lease_record_from_row
fresh-Expects q lease = (
  λ h. ground (arith, option_is_iff lease.latest_snapshot_id q.expected_latest_snapshot_id),
  λ h. ground (arith, option_is_iff lease.latest_snapshot_id q.expected_latest_snapshot_id),
)

module _ (to_json : SnapshotMetadata → Option String) (q : CanonicalPublishRequest) (db : Db) where
  -- The snapshot goes into the database.
  abbrev pub Stored : LeaseRow → String → Type 0
  Stored lease text =
      CanPublish q db lease
      × (to_json q.metadata ≡ some text)
      × (fits (published_row q db text) db ≡ true)

  abbrev Outcome : Type 0
  Outcome =
      ((e : Error) × (publish_snapshot_canonical to_json q db ≡ (err e, db)))
      ⊎ ((lease : LeaseRow) × (text : String) × Stored lease text
          × (publish_snapshot_canonical to_json q db ≡ (
              let stale = stale_reason q (lease_record_from_row lease) in
              (
                publish_answer q db lease text stale,
                stored_db q lease text stale (advanced q db lease text stale) db,
              ))))

  pub publish_outcome : Outcome
  publish_outcome = elim (publishable_cases q db) [
    | inr (e, h) ↦ inl (e, publish_refused to_json q db e h)
    | inl (lease, c) ↦ elim (Option-cases (to_json q.metadata)) [
      | inl e ↦ inl (_, publish_unprinted to_json q db lease c e)
      | inr (text, e) ↦ elim (Bool-cases (fits (published_row q db text) db)) [
        | inl f ↦ inr (lease, text, (c, e, f), publish_stores to_json q db lease c text e f)
        | inr f ↦ inl (_, publish_unfit to_json q db lease c text e f)
      ]
    ]
  ]

  -- What an update of the latest snapshot makes of a lease.
  abbrev pub latest_set : LeaseRow → LeaseRow
  latest_set r = record r { latest_snapshot_id = some q.metadata.snapshot_id }

  publish_fresh :
      (lease : LeaseRow) (text : String)
      → Stored lease text
      → Expects q lease
      → publish_snapshot_canonical to_json q db
        ≡ (ok (publish_result q db), stored_db q lease text none (advanced q db lease text none) db)
  publish_fresh lease text (c, e, f) x =
      publish_stores to_json q db lease c text e f
      ∙ ap
          (λ stale. (
            publish_answer q db lease text stale,
            stored_db q lease text stale (advanced q db lease text stale) db,
          ))
          ((fresh-Expects q lease).1 x)

  accepted-Expects :
      (r : CanonicalPublishResult)
      → (publish_snapshot_canonical to_json q db).0 ≡ ok r
      → (lease : LeaseRow) × (text : String) × Stored lease text × Expects q lease
  accepted-Expects r h = elim publish_outcome [
    | inl (e, same) ↦ absurd (err-ne-ok (sym (ap (λ x. x.0) same) ∙ h))
    | inr (lease, text, s, same) ↦
        elim (Option-cases (stale_reason q (lease_record_from_row lease))) [
          | inl fresh ↦ (lease, text, s, (fresh-Expects q lease).0 fresh)
          | inr (detail, late) ↦ absurd (
              err-ne-ok
                (sym (ap (publish_answer q db lease text) late) ∙ sym (ap (λ x. x.0) same) ∙ h))
        ]
  ]

  find-advanced :
      (k : String)
      → find (lease_key k) (update (lease_key q.lease_id) latest_set db.leases)
        ≡ map_option (revise (lease_key q.lease_id) latest_set) (lease_at db k)
  find-advanced k =
      find-update (lease_key k) (lease_key q.lease_id) latest_set (λ r. refl) db.leases

  lease_at-advanced :
      (lease : LeaseRow)
      → lease_at db q.lease_id ≡ some lease
      → find (lease_key q.lease_id) (update (lease_key q.lease_id) latest_set db.leases)
        ≡ some (latest_set lease)
  lease_at-advanced lease found =
      rw (find-advanced q.lease_id, found, find_holds (lease_key q.lease_id) db.leases found) refl

  other-advanced :
      (k : String)
      → k ≢ q.lease_id
      → find (lease_key k) (update (lease_key q.lease_id) latest_set db.leases) ≡ lease_at db k
  other-advanced k n = elim (Option-cases (lease_at db k)) [
    | inl gone ↦ ground (arith, find-advanced k)
    | inr (old, at) ↦ ground (
      arith,
      find-advanced k,
      lease_at-id db k old at,
      is_ne k q.lease_id n,
      is_ne old.lease_id q.lease_id,
    )
  ]

  -- A canonical publish is accepted if and only if the lease is active and held by the publishing
  -- device, which is not revoked; the metadata is valid, can be printed, and is of the lease's
  -- project and session, which are both stored; the snapshot's id is new, and its parent, if it has
  -- one, is stored or the snapshot itself; and the publisher expects the epoch and the latest
  -- snapshot that the lease has. The answer is then the stored snapshot, as the latest one.
  pub publish_canonical_iff :
      ((publish_snapshot_canonical to_json q db).0 ≡ ok (publish_result q db))
      ↔ ((lease : LeaseRow) × (text : String) × Stored lease text × Expects q lease)
  publish_canonical_iff = (
    accepted-Expects (publish_result q db),
    λ (lease, text, s, x). ap (λ y. y.0) (publish_fresh lease text s x),
  )

  -- When a canonical publish is accepted, the snapshot is the last one of its table, the lease has
  -- it as its latest snapshot and is otherwise as it was, every other lease is as it was, and so
  -- are handoffs and sessions.
  pub publish_canonical_advances :
      (r : CanonicalPublishResult)
      → (publish_snapshot_canonical to_json q db).0 ≡ ok r
      → (lease : LeaseRow) × (text : String) × (r ≡ publish_result q db)
        × (lease_at db q.lease_id ≡ some lease)
        × (let after = (publish_snapshot_canonical to_json q db).1 in
            (after.snapshots ≡ db.snapshots ++ published_row q db text ∷ [])
            × (lease_at after q.lease_id ≡ some (latest_set lease))
            × ((k : String) → k ≢ q.lease_id → lease_at after k ≡ lease_at db k)
            × (after.handoffs ≡ db.handoffs)
            × (after.sessions ≡ db.sessions))
  publish_canonical_advances r h =
      let (lease, text, s, x) = accepted-Expects r h in
      let done = publish_fresh lease text s x in
      (
        lease,
        text,
        ok_injective (sym h ∙ ap (λ y. y.0) done),
        s.0.found,
        (
          rw done refl,
          rw done (lease_at-advanced lease s.0.found),
          λ k n. rw done (other-advanced k n),
          rw done refl,
          rw done refl,
        ),
      )

  -- A canonical publish that is not accepted has changed nothing; or all its other conditions held
  -- and the lease has another epoch or latest snapshot than the publisher expects: then the
  -- snapshot is stored as the last one of its table, and no lease, handoff or session changes.
  pub publish_canonical_fails :
      (e : Error)
      → (publish_snapshot_canonical to_json q db).0 ≡ err e
      → let after = (publish_snapshot_canonical to_json q db).1 in
        (after ≡ db)
        ⊎ ((lease : LeaseRow) × (text : String) × Stored lease text
            × ¬ Expects q lease
            × ((after.snapshots ≡ db.snapshots ++ published_row q db text ∷ [])
                × (after.leases ≡ db.leases)
                × (after.handoffs ≡ db.handoffs)
                × (after.sessions ≡ db.sessions)))
  publish_canonical_fails e h = elim publish_outcome [
    | inl (_, same) ↦ inl (ap (λ x. x.1) same)
    | inr (lease, text, s, same) ↦
        elim (Option-cases (stale_reason q (lease_record_from_row lease))) [
          | inl fresh ↦ absurd (
              err-ne-ok (
                sym h
                ∙ ap (λ x. x.0) (publish_fresh lease text s ((fresh-Expects q lease).0 fresh))))
          | inr (detail, late) ↦ inr (
            lease,
            text,
            s,
            λ x. none-ne-some (sym ((fresh-Expects q lease).1 x) ∙ late),
            (rw same refl, rw same (rw late refl), rw same refl, rw same refl),
          )
        ]
  ]
