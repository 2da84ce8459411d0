-- ===== src/Session.antt =====
-- crates/devrelay-core/src/session.rs: the states of a session and the record that callers get.
use devrelay.Prelude.{ℕ, String, Option, ◌is◌, if◌then◌else◌}

pub data SessionState : Type 0 where
  active archived fork : SessionState

unfoldable pub as_str : SessionState → String
as_str active = "active"
as_str archived = "archived"
as_str fork = "fork"

-- The last arm makes any other text `active`.
unfoldable pub parse : String → SessionState
parse value = if value is "archived" then archived else if value is "fork" then fork else active

pub record StoredSession : Type 0 where
  pub session_id : String
  pub project_id : String
  pub name : String
  pub parent_session_id : Option String
  pub active_workspace_id : Option String
  pub state : SessionState
  pub archived_at_unix_seconds : Option ℕ
  pub created_at_unix_seconds : ℕ
  pub updated_at_unix_seconds : ℕ
