-- ===== src/Store/Sessions.antt =====
-- Sessions and leases as rows: `get_session`, `insert_session`, `ensure_default_session`,
-- `fork_session`, `archive_session`, `upsert_lease` and `get_lease` of
-- crates/devrelay-core/src/storage.rs. Where there is no transaction, each statement stands alone.
-- The clock and fresh ids are arguments.
use Prim.Native.String.{compare}
use Prim.Native.Nat.{Ordering, compare as order}
use devrelay.Prelude.{
  ℕ, String, Bool, true, false, ◌&&◌, ◌||◌, not, Option, none, some, List, [], ◌∷◌, ◌++◌, ◌==◌,
  ◌is◌, if◌then◌else◌, map,
}
use devrelay.Prelude.Int.{as_i64, max_0, ltb_ℤ, eqb_ℤ}
use devrelay.Sql.{find, exists, filter, update, count, earliest, order_by}
use devrelay.Sql.Laws.{map_option}
use devrelay.Lease
use devrelay.Lease.{LeaseRecord}
use devrelay.Session
use devrelay.Session.{SessionState, StoredSession, active, archived, fork}
use devrelay.Store.Tables.{SessionRow}
use devrelay.Store.Db.{Db, ProjectRow, LeaseRow, unwrap_or, lease_record_from_row}
use devrelay.Store.Tx.{
  Result, ok, err, Tx, constrain, execute, commit_ok, commit_err, transaction, ◌>>◌,
  unknown_session, session_disappeared, guard,
}
use devrelay.Store.Handoffs.Queries.{lease_key, has_project}

unfoldable pub stored_session_from_row : SessionRow → StoredSession
unfolding Session.parse
stored_session_from_row row = record {
  session_id = row.session_id;
  project_id = row.project_id;
  name = unwrap_or row.name "Default";
  parent_session_id = row.parent_session_id;
  active_workspace_id = row.active_workspace_id;
  state = Session.parse row.state;
  archived_at_unix_seconds = map_option max_0 row.archived_at_unix_seconds;
  created_at_unix_seconds = max_0 row.created_at_unix_seconds;
  updated_at_unix_seconds = max_0 row.updated_at_unix_seconds;
}

abbrev pub session_key : String → SessionRow → Bool
session_key session_id row = row.session_id is session_id

unfoldable pub get_session : String → Db → Option StoredSession
unfolding find stored_session_from_row
get_session session_id db =
    map_option stored_session_from_row (find (session_key session_id) db.sessions)

-- A foreign key on a column that may be NULL.
abbrev pub refers : (String → Bool) → Option String → Bool
refers present none = true
refers present (some key) = present key

abbrev pub has_workspace : Option String → Db → Bool
has_workspace workspace db = refers (λ w. exists (λ k. k is w) db.workspaces) workspace

-- `INSERT INTO sessions`, with its primary key and its foreign keys.
abbrev pub insert_session_row : SessionRow → Tx (Unit {0})
insert_session_row row = do
  constrain λ db.
      not (exists (session_key row.session_id) db.sessions)
      && has_project row.project_id db
      && has_workspace row.active_workspace_id db
  execute λ db. record db { sessions = db.sessions ++ row ∷ [] }

-- The row of a new session.
abbrev pub new_session_row :
    (now : ℕ) (session_id project_id name : String)
    (parent_session_id active_workspace_id : Option String)
    → SessionState
    → SessionRow
new_session_row now session_id project_id name parent_session_id active_workspace_id state =
    record {
      session_id = session_id;
      project_id = project_id;
      active_workspace_id = active_workspace_id;
      state = Session.as_str state;
      name = some name;
      parent_session_id = parent_session_id;
      archived_at_unix_seconds = none;
      created_at_unix_seconds = as_i64 now;
      updated_at_unix_seconds = as_i64 now;
    }

-- `self.get_session(id)?.ok_or_else(...)` after a statement that is already committed.
abbrev commit_session : String → Tx (Result StoredSession)
commit_session session_id db = elim (get_session session_id db) [
  | none ↦ commit_err session_disappeared db
  | some session ↦ commit_ok session db
]

-- `session_id` is what `generate_session_id()` returns, and `now` is `unix_now_seconds()`.
unfoldable pub insert_session :
    (now : ℕ) (session_id project_id name : String)
    (parent_session_id active_workspace_id : Option String)
    → SessionState
    → Db
    → Result StoredSession × Db
unfolding exists get_session Session.as_str
insert_session now session_id project_id name parent_session_id active_workspace_id state =
    transaction do
      insert_session_row (
          new_session_row now session_id project_id name parent_session_id active_workspace_id
            state)
      commit_session session_id

abbrev pub is_root_of : String → SessionRow → Bool
is_root_of project_id row =
    (row.project_id is project_id) && elim row.parent_session_id [ none ↦ true | some _ ↦ false ]

-- `ORDER BY created_at_unix_seconds ASC, session_id ASC`
abbrev pub session_before : SessionRow → SessionRow → Bool
session_before a b =
    ltb_ℤ a.created_at_unix_seconds b.created_at_unix_seconds
    || eqb_ℤ a.created_at_unix_seconds b.created_at_unix_seconds
      && elim (compare a.session_id b.session_id) [ Ordering.lt ↦ true | _ ↦ false ]

-- `INSERT OR IGNORE INTO projects`, then `UPDATE projects SET display_name`.
abbrev pub upsert_project : (project_id display_name : String) → List ProjectRow → List ProjectRow
upsert_project project_id display_name projects =
    let key : ProjectRow → Bool = λ p. p.project_id is project_id in
    update key (λ p. record p { display_name = display_name })
      (if exists key projects
        then projects
        else projects ++ record { project_id = project_id; display_name = display_name } ∷ [])

unfoldable pub ensure_default_session :
    (now : ℕ) (session_id project_id display_name : String) (active_workspace_id : Option String)
    → Db
    → Result StoredSession × Db
unfolding exists update filter earliest insert_session stored_session_from_row
ensure_default_session now session_id project_id display_name active_workspace_id db =
    let named : Db = record db { projects = upsert_project project_id display_name db.projects } in
    elim (earliest session_before (filter (is_root_of project_id) db.sessions)) [
      | some row ↦ (ok (stored_session_from_row row), named)
      | none ↦
          insert_session now session_id project_id display_name none active_workspace_id active
            named
    ]

unfoldable pub fork_session :
    (now : ℕ) (fork_session_id session_id name : String) → Db → Result StoredSession × Db
unfolding get_session insert_session
fork_session now fork_session_id session_id name db = elim (get_session session_id db) [
  | none ↦ (err (unknown_session session_id), db)
  | some parent ↦
      insert_session now fork_session_id parent.project_id name (some parent.session_id)
        parent.active_workspace_id fork db
]

unfoldable pub archive_session : (now : ℕ) (session_id : String) → Db → Result StoredSession × Db
unfolding update count get_session Session.as_str
archive_session now session_id = transaction do
  λ db.
      guard (not (count (session_key session_id) db.sessions == 0)) (unknown_session session_id) db
  execute λ db. record db {
    sessions =
        update (session_key session_id)
          (λ r. record r {
            state = Session.as_str archived;
            archived_at_unix_seconds = some (as_i64 now);
            updated_at_unix_seconds = as_i64 now;
          })
          db.sessions;
  }
  commit_session session_id

abbrev lease_row : LeaseRecord → LeaseRow
lease_row lease = record {
  lease_id = lease.lease_id;
  project_id = lease.project_id;
  holder_workspace_id = none;
  state = Lease.as_str lease.state;
  expires_at_unix_seconds = none;
  session_id = some lease.session_id;
  epoch = as_i64 lease.epoch;
  holder_device_id = lease.holder_device_id;
  latest_snapshot_id = lease.latest_snapshot_id;
  handoff_id = lease.handoff_id;
}

-- `ON CONFLICT(lease_id) DO UPDATE` keeps the two columns that it does not name.
unfoldable pub upsert_lease : LeaseRecord → Db → Result (Unit {0}) × Db
unfolding exists update Lease.as_str
upsert_lease lease = transaction do
  constrain (has_project lease.project_id)
  execute λ db. record db {
    leases =
        if exists (lease_key lease.lease_id) db.leases
        then update (lease_key lease.lease_id)
            (λ r. record (lease_row lease) {
              holder_workspace_id = r.holder_workspace_id;
              expires_at_unix_seconds = r.expires_at_unix_seconds;
            })
            db.leases
        else db.leases ++ lease_row lease ∷ [];
  }
  commit_ok tt

unfoldable pub get_lease : String → Db → Option LeaseRecord
unfolding find lease_record_from_row
get_lease lease_id db = map_option lease_record_from_row (find (lease_key lease_id) db.leases)

abbrev text_order : String → String → Ordering
text_order a b = compare a b

-- The order by a first key, and by `rest` where it agrees.
abbrev and_then : Ordering → Bool → Bool
and_then Ordering.lt rest = true
and_then Ordering.eq rest = rest
and_then Ordering.gt rest = false

-- SQLite puts NULL first.
abbrev null_first : Option String → Option String → Ordering
null_first none none = Ordering.eq
null_first none (some b) = Ordering.lt
null_first (some a) none = Ordering.gt
null_first (some a) (some b) = text_order a b

abbrev pub in_project : Option String → String → Bool
in_project none project_id = true
in_project (some wanted) project_id = project_id is wanted

-- `ORDER BY project_id ASC, created_at_unix_seconds ASC, session_id ASC`; within one project it is
-- `ORDER BY created_at_unix_seconds ASC, session_id ASC`.
abbrev pub project_session_before : SessionRow → SessionRow → Bool
project_session_before a b = and_then (text_order a.project_id b.project_id) (session_before a b)

-- The closure of `sessions.sort_by`.
abbrev pub stored_before : StoredSession → StoredSession → Bool
stored_before a b = and_then (text_order a.project_id b.project_id) (
    and_then (order a.created_at_unix_seconds b.created_at_unix_seconds)
      (and_then (text_order a.session_id b.session_id) false))

unfoldable pub list_sessions : Option String → Db → List StoredSession
unfolding filter order_by stored_session_from_row
list_sessions project_id db = order_by stored_before (
    map stored_session_from_row (
      order_by project_session_before
        (filter (λ r. in_project project_id r.project_id) db.sessions)))

-- `ORDER BY project_id ASC, session_id ASC, lease_id ASC`
abbrev pub lease_before : LeaseRow → LeaseRow → Bool
lease_before a b = and_then (text_order a.project_id b.project_id) (
    and_then (null_first a.session_id b.session_id)
      (and_then (text_order a.lease_id b.lease_id) false))

unfoldable pub list_leases : Option String → Db → List LeaseRecord
unfolding filter order_by lease_record_from_row
list_leases project_id db =
    map lease_record_from_row
      (order_by lease_before (filter (λ r. in_project project_id r.project_id) db.leases))
