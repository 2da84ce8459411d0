-- ===== src/Store/Publish/Numbering.antt =====
-- The numbers of the snapshots: each publish takes the next one of its project.
use devrelay.Prelude.{
  ℕ, suc, ◌≤◌, ◌<◌, ◌≡◌, String, false, ◌&&◌, Option, inl, inr, arith, refl, [], ◌∷◌, ◌++◌, List,
  ◌==◌, eq_iff,
}
use devrelay.SnapshotSchema.{SnapshotMetadata}
use devrelay.Sql.{greatest, count, exists}
use devrelay.Sql.Laws.{count-append, exists-count}
use devrelay.Store.Tables.{SnapshotRow}
use devrelay.Store.Db.{Db}
use devrelay.Store.Publish.{
  CanonicalPublishRequest, InactiveForkPublishRequest, publish_snapshot_canonical,
  publish_inactive_snapshot_as_fork, snapshot_key, of_project, sequence, fits,
}
use devrelay.Store.Publish.CompareAndSwap.{publish_outcome}
use devrelay.Store.Publish.Canonical.{published_row}
use devrelay.Store.Publish.Fork.{fork_publish_snapshots}

-- No row of a project has a number above the greatest one.
above_greatest :
    (p : String) (s : ℕ) (rows : List SnapshotRow)
    → greatest (of_project p) sequence rows < s
    → count (λ r. of_project p r && sequence r == s) rows ≡ 0
unfolding greatest count
above_greatest p s [] h = refl
above_greatest p s (r ∷ rows) h = ground (arith, above_greatest p s rows)

-- Snapshots have different ids, and those of one project different numbers.
pub record IsNumbered (rows : List SnapshotRow) : Type 0 where
  pub ids : (i : String) → count (snapshot_key i) rows ≤ 1
  pub numbers : (p : String) (s : ℕ) → count (λ r. of_project p r && sequence r == s) rows ≤ 1

-- A row with a new id takes the next number of its project.
append-IsNumbered :
    (rows : List SnapshotRow) (n : SnapshotRow)
    → exists (snapshot_key n.snapshot_id) rows ≡ false
    → n.sequence_number ≡ suc (greatest (of_project n.project_id) sequence rows)
    → IsNumbered rows
    → IsNumbered (rows ++ n ∷ [])
unfolding count
append-IsNumbered rows n fresh next c = record {
  ids = λ i. rw (count-append (snapshot_key i) rows (n ∷ [])) (
      ground (
        arith,
        c.ids i,
        exists-count (snapshot_key n.snapshot_id) rows fresh,
        eq_iff n.snapshot_id i,
      ));
  numbers = λ p s. rw (count-append (λ r. of_project p r && sequence r == s) rows (n ∷ [])) (
      ground
        (arith, c.numbers p s, above_greatest n.project_id s rows, next, eq_iff n.project_id p));
}

-- A publish of either kind, whatever it answers, keeps the snapshots numbered: all ids are
-- different, and so are the numbers of the snapshots of one project. Each stored snapshot takes
-- the number after the greatest one of its project.
pub publish-IsNumbered :
    (to_json : SnapshotMetadata → Option String) (q : CanonicalPublishRequest) (now : ℕ)
    (fork_id : String) (p : InactiveForkPublishRequest) (db : Db)
    → IsNumbered db.snapshots
    → IsNumbered (publish_snapshot_canonical to_json q db).1.snapshots
      × IsNumbered (publish_inactive_snapshot_as_fork to_json now fork_id p db).1.snapshots
unfolding fits
publish-IsNumbered to_json q now fork_id p db c = (
  elim (publish_outcome to_json q db) [
    | inl (e, same) ↦ rw same c
    | inr (lease, text, s, same) ↦
        rw same
          (append-IsNumbered db.snapshots (published_row q db text) (ground (arith, s.2)) refl c)
  ],
  elim (fork_publish_snapshots to_json now fork_id p db) [
    | inl same ↦ rw same c
    | inr (n, stored, fresh, next) ↦ rw stored (append-IsNumbered db.snapshots n fresh next c)
  ],
)
