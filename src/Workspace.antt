-- ===== src/Workspace.antt =====
-- pkg/manager/workspace/types.go: the persisted workspace record, its lifecycle states, the options
-- of a listing. An instant is a number of nanoseconds, with 0 for Go's zero time.
pub mod Value
pub mod Clone
pub mod Failure
use ana.Base.{ℕ, Text, Text-discrete, Option, none, List, [], Map}
use ana.Workspace.Value.{Object}

-- `type Status string`; `other s` is a string `s` that is none of the three constants
pub data Status : Type 0 where
  init healthy failed : Status
  other : Text → Status

unfoldable pub Status-discrete : Discrete Status
unfolding Text-discrete
Status-discrete = hlevel Text-discrete

-- `type StatusWriter string`; `other_writer s` is a string `s` that is neither constant
pub data StatusWriter : Type 0 where
  controller scheduler : StatusWriter
  other_writer : Text → StatusWriter

-- `agent.WorkspaceError`, the persisted error record
pub record WorkspaceError : Type 0 where
  pub code : Text
  pub message : Text
  pub phase : Text
  pub recorded_at : ℕ

-- A slice is `none` where it is nil.
pub record AttachedPlugin : Type 0 where
  pub plugin_id : Text
  pub name : Text
  pub content_hash : Text
  pub placed_paths : Option (List Text)

-- A pointer is `none` where it is nil, and so are the slice of plugins and the map of labels.
pub record Workspace : Type 0 where
  pub id : Text
  pub namespace : Text
  pub alias : Text
  pub agent_type : Text
  pub infra_type : Text
  pub infra_options : Object
  pub install_params : Object
  pub plugins : Option (List AttachedPlugin)
  pub status : Status
  pub status_error : Option WorkspaceError
  pub description : Text
  pub labels : Option (Map Text Text)
  pub last_probe_at : ℕ
  pub created_at : ℕ
  pub updated_at : ℕ

-- The fields that filter are unset where they are `none` or empty (`status` is `none` for `""`).
-- A limit that is not positive is 0 here: the code treats all of these alike.
pub record ListOptions : Type 0 where
  pub namespace : Text
  pub agent_type : Text
  pub infra_type : Text
  pub status : Option Status
  pub labels : Map Text Text
  pub limit : ℕ
  pub cursor : Text

-- `ListOptions{}`
abbrev pub no_options : ListOptions
no_options = record {
  namespace = [];
  agent_type = [];
  infra_type = [];
  status = none;
  labels = [];
  limit = 0;
  cursor = [];
}

-- The errors of a repository: the sentinel errors of this package, and those that the in-memory
-- repository makes itself. Messages are left out.
pub data RepoError : Type 0 where
  repository_closed duplicate_id workspace_not_found alias_conflict : RepoError
  invalid_status_transition status_precondition_failed : RepoError
  immutable_field invalid_cursor : RepoError

unfoldable pub RepoError-discrete : Discrete RepoError
RepoError-discrete = hlevel
