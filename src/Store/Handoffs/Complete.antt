-- ===== src/Store/Handoffs/Complete.antt =====
-- A handoff that is begun can be driven to its commit.
use devrelay.Prelude.{ℕ, ◌+◌, ◌<◌, ◌≤◌, ◌≡◌, refl, ◌∙◌, String, none, some, arith, is_self, max}
use devrelay.Prelude.Int.{pos, i64_bound}
use devrelay.Sql.{update}
use devrelay.Sql.Laws.{find-update, find_holds}
use devrelay.Lease
use devrelay.Handoff
use devrelay.Handoff.{HandoffState, HandoffRecord, HandoffJournalPhase}
use devrelay.Store.Db.{Db, LeaseRow, HandoffRow, handoff_record_from_row}
use devrelay.Store.Tx.{ok}
use devrelay.Store.Revocations.{get_device_revocation}
use devrelay.Store.Handoffs.Queries.{lease_key}
use devrelay.Store.Handoffs.Progress.{
  begin_handoff, mark_handoff_target_verified, mark_handoff_source_ready, new_handoff_row,
}
use devrelay.Store.Handoffs.Finish.{abort_reason, commit_handoff_inner}
use devrelay.Store.Handoffs.Change.{lease_at, handoff_at, restate, bind}
use devrelay.Store.Handoffs.Effects.{
  begun_record, begin_handoff-Change, target_verified-Change, source_ready-Change,
}
use devrelay.Store.Handoffs.Invariant.{IsConsistent}
use devrelay.Store.Handoffs.Keeping.{Change-IsConsistent}
use devrelay.Store.Handoffs.Commit.{commit_handoff_transfers, committed_record}
use devrelay.Store.Handoffs.Begin.{CanBegin, begin_suffices, begin_finds}
use devrelay.Store.Handoffs.Marking.{
  Keeps, update_finds, update_answers, update-Keeps, same_revocation,
}

-- The handoff's row after `begin_handoff`, and then after both marks.
abbrev begun_row :
    (now : ℕ) (h l source target generation : String) (ttl : ℕ) → LeaseRow → HandoffRow
begun_row now h l source target generation ttl lease =
    new_handoff_row (begun_record now h l source target generation ttl lease) now

abbrev pub ready_row :
    (now : ℕ) (h l source target generation : String) (ttl : ℕ) → LeaseRow → HandoffRow
ready_row now h l source target generation ttl lease =
    restate Handoff.source_ready
      (restate Handoff.target_verified (begun_row now h l source target generation ttl lease))

-- What the two marks answer.
abbrev pub verified_record :
    (now : ℕ) (h l source target generation : String) (ttl : ℕ) → LeaseRow → HandoffRecord
verified_record now h l source target generation ttl lease =
    record (handoff_record_from_row (begun_row now h l source target generation ttl lease)) {
      state = Handoff.target_verified;
    }

abbrev pub ready_record :
    (now : ℕ) (h l source target generation : String) (ttl : ℕ) → LeaseRow → HandoffRecord
ready_record now h l source target generation ttl lease =
    record (verified_record now h l source target generation ttl lease) {
      state = Handoff.source_ready;
    }

module _ (now : ℕ) (h l source target generation : String) (ttl : ℕ) (db : Db) (lease : LeaseRow)
    (found : lease_at db l ≡ some lease) (c : CanBegin db h l source target lease) where
  abbrev begun : Db
  begun = (begin_handoff now h l source target generation ttl db).1

  begin_tables :
      (begun.device_revocations ≡ db.device_revocations)
      × (begun.projects ≡ db.projects)
      × (begun.fault ≡ db.fault)
  unfolding begin_handoff
  begin_tables = ground arith

  begin_leases : begun.leases ≡ update (lease_key l) (bind h) db.leases
  unfolding begin_handoff
  begin_leases =
      ground (arith, begin_suffices now h l source target generation ttl db lease found c)

  begun-lease : lease_at begun l ≡ some (bind h lease)
  begun-lease = rw begin_leases (
      rw (find-update (lease_key l) (lease_key l) (bind h) (λ r. refl) db.leases)
        (rw found (ground (arith, find_holds (lease_key l) db.leases found))))

  in_time :
      (t : ℕ)
      → now + max ttl 1 < i64_bound
      → t ≤ now + max ttl 1
      → abort_reason
          (handoff_record_from_row (ready_row now h l source target generation ttl lease))
          generation
          t
        ≡ none
  unfolding handoff_record_from_row
  in_time t small late = ground (arith, is_self generation)

  module _ (verified_at ready_at : ℕ) where
    abbrev verified : Db
    verified = (mark_handoff_target_verified verified_at h begun).1

    abbrev pub ready : Db
    ready = (mark_handoff_source_ready ready_at h verified).1

    verified-Keeps : Keeps begun verified
    unfolding mark_handoff_target_verified
    verified-Keeps =
        update-Keeps verified_at h Handoff.target_prepare Handoff.target_verified Handoff.verified
          begun (begun_row now h l source target generation ttl lease)
          (begin_finds now h l source target generation ttl db lease found _
            (begin_suffices now h l source target generation ttl db lease found c))
          refl

    verified_finds :
        handoff_at verified h
        ≡ some
            (restate Handoff.target_verified (begun_row now h l source target generation ttl lease))
    unfolding mark_handoff_target_verified
    verified_finds =
        update_finds verified_at h Handoff.target_prepare Handoff.target_verified Handoff.verified
          begun (begun_row now h l source target generation ttl lease)
          (begin_finds now h l source target generation ttl db lease found _
            (begin_suffices now h l source target generation ttl db lease found c))
          refl (rw begin_tables.1 c.project)

    ready-Keeps : Keeps verified ready
    unfolding mark_handoff_source_ready
    ready-Keeps =
        update-Keeps ready_at h Handoff.target_verified Handoff.source_ready Handoff.ready verified
          (restate Handoff.target_verified (begun_row now h l source target generation ttl lease))
          verified_finds refl

    verified_answer :
        (mark_handoff_target_verified verified_at h begun).0
        ≡ ok (verified_record now h l source target generation ttl lease)
    unfolding mark_handoff_target_verified
    verified_answer =
        update_answers verified_at h Handoff.target_prepare Handoff.target_verified Handoff.verified
          begun (begun_row now h l source target generation ttl lease)
          (begin_finds now h l source target generation ttl db lease found _
            (begin_suffices now h l source target generation ttl db lease found c))
          refl (rw begin_tables.1 c.project)

    ready_answer :
        (mark_handoff_source_ready ready_at h verified).0
        ≡ ok (ready_record now h l source target generation ttl lease)
    unfolding mark_handoff_source_ready
    ready_answer =
        update_answers ready_at h Handoff.target_verified Handoff.source_ready Handoff.ready
          verified
          (restate Handoff.target_verified (begun_row now h l source target generation ttl lease))
          verified_finds refl (rw verified-Keeps.projects (rw begin_tables.1 c.project))

    ready_finds : handoff_at ready h ≡ some (ready_row now h l source target generation ttl lease)
    unfolding mark_handoff_source_ready
    ready_finds =
        update_finds ready_at h Handoff.target_verified Handoff.source_ready Handoff.ready verified
          (restate Handoff.target_verified (begun_row now h l source target generation ttl lease))
          verified_finds refl (rw verified-Keeps.projects (rw begin_tables.1 c.project))

    ready_tables :
        (ready.device_revocations ≡ db.device_revocations)
        × (ready.projects ≡ db.projects)
        × (ready.fault ≡ db.fault)
        × (ready.leases ≡ begun.leases)
    ready_tables = (
      ready-Keeps.device_revocations ∙ verified-Keeps.device_revocations ∙ begin_tables.0,
      ready-Keeps.projects ∙ verified-Keeps.projects ∙ begin_tables.1,
      ready-Keeps.fault ∙ verified-Keeps.fault ∙ begin_tables.2,
      ready-Keeps.leases ∙ verified-Keeps.leases,
    )

    ready-IsConsistent : IsConsistent db → IsConsistent ready
    ready-IsConsistent k =
        Change-IsConsistent verified ready (source_ready-Change ready_at h verified) (
          Change-IsConsistent begun verified (target_verified-Change verified_at h begun) (
            Change-IsConsistent db begun
              (begin_handoff-Change now h l source target generation ttl db) k))

    ready_trusted : get_device_revocation target ready ≡ none
    ready_trusted = same_revocation target db ready ready_tables.0 ∙ c.target_trusted

    -- Where `begin_handoff` may begin a handoff, the handoff completes: the begin succeeds, then a
    -- mark `target-verified` and a mark `source-ready` at any times, and then a commit for the
    -- recorded source generation, at most the handoff's time to live after the begin. The marks
    -- answer with the stored record in its new state, and the lease is active, held by the target,
    -- free of the handoff and one epoch later. No fault is injected, and the epoch and the expiry
    -- stay below 2^63.
    pub handoff_completes :
        (t n : ℕ)
        → IsConsistent db
        → db.fault ≡ none
        → lease.epoch ≡ pos n
        → n + 1 < i64_bound
        → now + max ttl 1 < i64_bound
        → t ≤ now + max ttl 1
        → let (answer, after) = commit_handoff_inner h generation t none ready in
          ((begin_handoff now h l source target generation ttl db).0
            ≡ ok (begun_record now h l source target generation ttl lease))
          × ((mark_handoff_target_verified verified_at h begun).0
              ≡ ok (verified_record now h l source target generation ttl lease))
          × ((mark_handoff_source_ready ready_at h verified).0
              ≡ ok (ready_record now h l source target generation ttl lease))
          × (answer ≡ ok (committed_record (ready_row now h l source target generation ttl lease)))
          × (lease_at after l
              ≡ some (record lease {
                state = Lease.as_str Lease.active;
                epoch = pos (n + 1);
                holder_device_id = some target;
                handoff_id = none;
              }))
    unfolding handoff_record_from_row
    handoff_completes t n k fault epoch small brief soon =
        let (done, moved, others, ended) =
          commit_handoff_transfers h generation t none ready
            (ready_row now h l source target generation ttl lease) l (bind h lease) n
            (ready-IsConsistent k) ready_finds (unfold Handoff.parse Handoff.as_str in refl) refl
            (rw ready_tables.3 begun-lease) epoch small (in_time t brief soon) ready_trusted tt
            (ready_tables.2 ∙ fault) (rw ready_tables.1 c.project) in
        (
          begin_suffices now h l source target generation ttl db lease found c,
          verified_answer,
          ready_answer,
          done,
          moved,
        )
