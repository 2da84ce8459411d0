-- ===== src/Store/Handoffs/Begin.antt =====
-- What `begin_handoff` needs, and what it stores.
use devrelay.Prelude.{
  ℕ, ◌<◌, ◌≡◌, ◌↔◌, String, true, false, none, some, [], ◌∷◌, ◌++◌, arith, is_self, is_some_of→≡,
  if◌then◌else◌, ltb,
}
use devrelay.Prelude.Int.{max_0, i64_bound}
use devrelay.Sql.{find, exists}
use devrelay.Sql.Laws.{exists-append_last, find-append, exists-find}
use devrelay.Lease
use devrelay.Handoff
use devrelay.Handoff.{HandoffRecord}
use devrelay.Handoff.Codec.{parse-as_str}
use devrelay.Store.Db.{Db, LeaseRow, lease_record_from_row, handoff_record_from_row}
use devrelay.Store.Tx.{Error, ok, err}
use devrelay.Store.Revocations.{get_device_revocation}
use devrelay.Store.Handoffs.Queries.{handoff_key, has_project, pending_handoff, get_handoff}
use devrelay.Store.Handoffs.Progress.{begin_handoff, new_handoff_row}
use devrelay.Store.Handoffs.Change.{lease_at, handoff_at}
use devrelay.Store.Handoffs.Effects.{begun_record}

-- The conditions of `begin_handoff` on the lease that it finds.
pub record CanBegin (db : Db) (h l source target : String) (lease : LeaseRow) : Type 0 where
  pub none_pending : pending_handoff l db ≡ none
  pub active : (lease_record_from_row lease).state ≡ Lease.active
  pub held : lease.holder_device_id ≡ some source
  pub source_trusted : get_device_revocation source db ≡ none
  pub target_trusted : get_device_revocation target db ≡ none
  pub fresh : exists (handoff_key h) db.handoffs ≡ false
  pub project : has_project lease.project_id db ≡ true

module _ (now : ℕ) (h l source target generation : String) (ttl : ℕ) (db : Db) (lease : LeaseRow)
    (found : lease_at db l ≡ some lease) where
  begin_needs :
      (r : HandoffRecord)
      → (begin_handoff now h l source target generation ttl db).0 ≡ ok r
      → CanBegin db h l source target lease
  unfolding begin_handoff
  begin_needs r e = record {
    none_pending = ground arith;
    active = ground arith;
    held = ground (arith, is_some_of→≡ lease.holder_device_id source);
    source_trusted = ground arith;
    target_trusted = ground arith;
    fresh = ground arith;
    project = ground arith;
  }

  pub begin_suffices :
      CanBegin db h l source target lease
      → (begin_handoff now h l source target generation ttl db).0
        ≡ ok (begun_record now h l source target generation ttl lease)
  unfolding begin_handoff
  begin_suffices c = ground (
    arith,
    is_self source,
    is_self h,
    exists-append_last (handoff_key h) db.handoffs
        (new_handoff_row (begun_record now h l source target generation ttl lease) now) (is_self h),
  )

  begin_refused :
      (e : Error)
      → (begin_handoff now h l source target generation ttl db).0 ≡ err e
      → (begin_handoff now h l source target generation ttl db).1 ≡ db
  unfolding begin_handoff
  begin_refused e r = ground arith

  pub begin_inserts :
      (r : HandoffRecord)
      → (begin_handoff now h l source target generation ttl db).0 ≡ ok r
      → ((begin_handoff now h l source target generation ttl db).1.handoffs
          ≡ db.handoffs
            ++ new_handoff_row (begun_record now h l source target generation ttl lease) now ∷ [])
        × (r ≡ begun_record now h l source target generation ttl lease)
  unfolding begin_handoff
  begin_inserts r e = ground arith

  pub begin_finds :
      (r : HandoffRecord)
      → (begin_handoff now h l source target generation ttl db).0 ≡ ok r
      → handoff_at (begin_handoff now h l source target generation ttl db).1 h
        ≡ some (new_handoff_row (begun_record now h l source target generation ttl lease) now)
  unfolding find
  begin_finds r e =
      let (rows, same) = begin_inserts r e in
      let fresh = exists-find (handoff_key h) db.handoffs (begin_needs r e).fresh in
      rw rows (
        rw
          (find-append (handoff_key h) db.handoffs
            (new_handoff_row (begun_record now h l source target generation ttl lease) now ∷ []))
          (rw fresh (ground (arith, is_self h))))

  -- With the lease present, `begin_handoff` succeeds exactly if no handoff of the lease is open,
  -- the lease is active and held by the source, neither device is revoked, the new id is unused,
  -- and the lease's project exists.
  pub begin_handoff_iff :
      ((begin_handoff now h l source target generation ttl db).0
        ≡ ok (begun_record now h l source target generation ttl lease))
      ↔ CanBegin db h l source target lease
  begin_handoff_iff = (begin_needs _, begin_suffices)

  -- A successful `begin_handoff` is read back as the record that it returned, but for the expiry:
  -- an expiry of 2^63 seconds or more is stored as a negative number and read back as 0. The
  -- lease's epoch is one that the database can hold.
  pub begin_handoff_stored :
      (r : HandoffRecord)
      → max_0 lease.epoch < i64_bound
      → (begin_handoff now h l source target generation ttl db).0 ≡ ok r
      → get_handoff h (begin_handoff now h l source target generation ttl db).1
        ≡ some (record r {
          expires_at_unix_seconds =
              if ltb r.expires_at_unix_seconds i64_bound then r.expires_at_unix_seconds else 0;
        })
  unfolding get_handoff lease_record_from_row handoff_record_from_row
  begin_handoff_stored r small e =
      ground (arith, begin_finds r e, begin_inserts r e, parse-as_str Handoff.target_prepare)
