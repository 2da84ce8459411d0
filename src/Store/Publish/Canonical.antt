-- ===== src/Store/Publish/Canonical.antt =====
-- What `publish_snapshot_canonical` does on each of its branches.
use devrelay.Prelude.{
  ◌≡◌, refl, ◌∙◌, ap, ◌≢◌, String, true, false, Option, none, some, inl, inr, ◌⊎◌, List, [], ◌∷◌,
  ◌++◌, arith, is_self, is_some_of→≡, Option-cases, eq_iff,
}
use devrelay.Sql.{exists, update}
use devrelay.Lease
use devrelay.Lease.{LeaseRecord}
use devrelay.SnapshotSchema.{SnapshotMetadata, validate}
use devrelay.Store.Tables.{SnapshotRow}
use devrelay.Store.Db.{Db, LeaseRow, lease_record_from_row}
use devrelay.Store.Tx.{
  Result, ◌>>◌, constraint_failed, invalid_json, constrain, Error, ok, err, settle, stale_publish,
}
use devrelay.Store.Tx.Laws.{bind_ok, guard_ok, bind_err, guard_err, Result-cases}
use devrelay.Store.Audit.{append_event, is_blank, insert_audit_event_tx}
use devrelay.Store.Revocations.{get_device_revocation}
use devrelay.Store.Handoffs.Queries.{lease_key}
use devrelay.Store.Handoffs.Change.{lease_at}
use devrelay.Store.Publish.{
  CanonicalPublishRequest, CanonicalPublishResult, publish_snapshot_canonical, stale_reason,
  snapshot_row, next_sequence_number, fits, canonical_event, insert_snapshot, advance,
  session_of_project, stored_snapshot, finish_publish, publishable_lease, store_canonical,
}

-- The row that a canonical publish inserts.
abbrev pub published_row : CanonicalPublishRequest → Db → String → SnapshotRow
published_row q db text =
    snapshot_row q.metadata q.session_id (next_sequence_number q.metadata.project_id db) q.pinned
      q.label text

-- What a canonical publish that advances the lease returns.
abbrev pub publish_result : CanonicalPublishRequest → Db → CanonicalPublishResult
publish_result q db = record {
  snapshot =
      stored_snapshot q.metadata q.session_id (next_sequence_number q.metadata.project_id db)
        q.pinned q.label;
  latest_snapshot_id = q.metadata.snapshot_id;
}

-- The conditions of a canonical publish on the lease that it finds, up to the table's keys.
pub record CanPublish (q : CanonicalPublishRequest) (db : Db) (lease : LeaseRow) : Type 0 where
  pub found : lease_at db q.lease_id ≡ some lease
  pub valid : validate q.metadata ≡ none
  pub session_named : q.metadata.session_id ≡ some q.session_id
  pub same_project : lease.project_id ≡ q.metadata.project_id
  pub same_session : (lease_record_from_row lease).session_id ≡ q.session_id
  pub session_stored :
      exists (session_of_project q.session_id q.metadata.project_id) db.sessions ≡ true
  pub held : lease.holder_device_id ≡ some q.holder_device_id
  pub trusted : get_device_revocation q.holder_device_id db ≡ none
  pub active : (lease_record_from_row lease).state ≡ Lease.active

-- The database with the snapshot and its audit event, and with what the leases are then.
abbrev pub stored_db :
    CanonicalPublishRequest → LeaseRow → String → Option String → List LeaseRow → Db → Db
stored_db q lease text stale leases db =
    append_event (canonical_event q (lease_record_from_row lease) stale)
      q.metadata.created_at_unix_seconds
      (record db { snapshots = db.snapshots ++ published_row q db text ∷ []; leases = leases })

module _ (q : CanonicalPublishRequest) (db : Db) (lease : LeaseRow) (text : String) where
  -- What the statements make of the leases.
  abbrev pub advanced : Option String → List LeaseRow
  advanced (some _) = db.leases
  advanced none =
      update (lease_key q.lease_id)
        (λ r. record r { latest_snapshot_id = some q.metadata.snapshot_id }) db.leases

  abbrev pub publish_answer : Option String → Result CanonicalPublishResult
  publish_answer (some detail) = err (stale_publish detail)
  publish_answer none = ok (publish_result q db)

  finishes :
      (stale : Option String)
      → (advance stale q.lease_id q.metadata.snapshot_id
            >> (insert_audit_event_tx
                  (canonical_event q (lease_record_from_row lease) stale)
                  q.metadata.created_at_unix_seconds
                >> finish_publish stale (publish_result q db).snapshot))
          (record db { snapshots = db.snapshots ++ published_row q db text ∷ [] })
        ≡ ok (publish_answer stale, stored_db q lease text stale (advanced stale) db)
  unfolding insert_audit_event_tx is_blank
  finishes none = refl
  finishes (some detail) = refl

  store_stores :
      fits (published_row q db text) db ≡ true
      → store_canonical (some text) q (lease_record_from_row lease) db ≡ (
          let stale = stale_reason q (lease_record_from_row lease) in
          ok (publish_answer stale, stored_db q lease text stale (advanced stale) db))
  unfolding store_canonical
  store_stores f =
      bind_ok (insert_snapshot (published_row q db text)) _
        (bind_ok (constrain (fits (published_row q db text))) _ (guard_ok constraint_failed db f))
      ∙ finishes (stale_reason q (lease_record_from_row lease))

  store_refuses :
      fits (published_row q db text) db ≡ false
      → store_canonical (some text) q (lease_record_from_row lease) db ≡ err constraint_failed
  unfolding store_canonical
  store_refuses f =
      bind_err (insert_snapshot (published_row q db text)) _
        (bind_err (constrain (fits (published_row q db text))) _ (guard_err constraint_failed db f))

module _ (q : CanonicalPublishRequest) (db : Db) (lease : LeaseRow) where
  pub publishable :
      CanPublish q db lease → publishable_lease q db ≡ ok (lease_record_from_row lease, db)
  unfolding publishable_lease
  publishable c = ground (
    arith,
    c.found,
    is_self q.session_id,
    is_self q.holder_device_id,
    is_self q.metadata.project_id,
  )

  publishable_found :
      (r : LeaseRecord × Db)
      → lease_at db q.lease_id ≡ some lease
      → publishable_lease q db ≡ ok r
      → CanPublish q db lease
  unfolding publishable_lease
  publishable_found r found h = record {
    found = found;
    valid = ground arith;
    session_named = ground (arith, is_some_of→≡ q.metadata.session_id q.session_id);
    same_project = ground (arith, eq_iff lease.project_id q.metadata.project_id);
    same_session = ground (arith, eq_iff (lease_record_from_row lease).session_id q.session_id);
    session_stored = ground arith;
    held = ground (arith, is_some_of→≡ lease.holder_device_id q.holder_device_id);
    trusted = ground arith;
    active = ground arith;
  }

publishable_lost :
    (q : CanonicalPublishRequest) (db : Db) (r : LeaseRecord × Db)
    → lease_at db q.lease_id ≡ none
    → publishable_lease q db ≢ ok r
unfolding publishable_lease
publishable_lost q db r gone h = ground arith

pub publishable_cases :
    (q : CanonicalPublishRequest) (db : Db)
    → ((lease : LeaseRow) × CanPublish q db lease)
      ⊎ ((e : Error) × (publishable_lease q db ≡ err e))
publishable_cases q db = elim (Result-cases (publishable_lease q db)) [
  | inr failed ↦ inr failed
  | inl (r, passed) ↦ elim (Option-cases (lease_at db q.lease_id)) [
    | inl gone ↦ absurd (publishable_lost q db r gone passed)
    | inr (lease, found) ↦ inl (lease, publishable_found q db lease r found passed)
  ]
]

-- What the whole call answers and leaves, once the lease has been found publishable.
module _ (to_json : SnapshotMetadata → Option String) (q : CanonicalPublishRequest) (db : Db) where
  pub publish_refused :
      (e : Error)
      → publishable_lease q db ≡ err e
      → publish_snapshot_canonical to_json q db ≡ (err e, db)
  unfolding publish_snapshot_canonical
  publish_refused e h = ap (settle db) (bind_err (publishable_lease q) _ h)

  module _ (lease : LeaseRow) (c : CanPublish q db lease) where
    publish_continues :
        publish_snapshot_canonical to_json q db
        ≡ settle db (store_canonical (to_json q.metadata) q (lease_record_from_row lease) db)
    unfolding publish_snapshot_canonical
    publish_continues = ap (settle db) (bind_ok (publishable_lease q) _ (publishable q db lease c))

    pub publish_unprinted :
        to_json q.metadata ≡ none → publish_snapshot_canonical to_json q db ≡ (err invalid_json, db)
    unfolding store_canonical
    publish_unprinted e = publish_continues ∙ rw e refl

    pub publish_unfit :
        (text : String)
        → to_json q.metadata ≡ some text
        → fits (published_row q db text) db ≡ false
        → publish_snapshot_canonical to_json q db ≡ (err constraint_failed, db)
    publish_unfit text e f =
        publish_continues ∙ rw e (ap (settle db) (store_refuses q db lease text f))

    pub publish_stores :
        (text : String)
        → to_json q.metadata ≡ some text
        → fits (published_row q db text) db ≡ true
        → publish_snapshot_canonical to_json q db ≡ (
            let stale = stale_reason q (lease_record_from_row lease) in
            (
              publish_answer q db lease text stale,
              stored_db q lease text stale (advanced q db lease text stale) db,
            ))
    publish_stores text e f =
        publish_continues ∙ rw e (ap (settle db) (store_stores q db lease text f))
