-- ===== src/Storage/WorkspaceRepo.antt =====
-- pkg/storage/memory/workspace_repo.go: the in-memory workspace repository. Each method holds the
-- mutex from its first line to its last, so a method is one step of the state; one that fails has
-- written nothing and gives only its error. `time.Now()` is an argument.
pub mod Invariant
pub mod Effects
pub mod Calls
pub mod Statuses
pub mod Reads
pub mod Listing
use Prim.Native.Nat.{min}
use ana.Base.{
  ℕ, ◌≤◌, ite, Bool, true, false, not, ◌&&◌, ◌||◌, Option, none, some, List, [], ◌∷◌, map, Text,
  Text-discrete, ne_text, compare_text, Map, lookup, insert, erase, values, leb, ltb, ◌==◌,
  if◌then◌else◌, Ordering, Result, ok, err, ◌>>=◌, ◌>>◌, reject_if, or_fail, ℕ_discrete,
}
use ana.Base.Sorting.{select, sort, is_gt}
use ana.Workspace.{
  Status, init, healthy, failed, other, Status-discrete, StatusWriter, controller, scheduler,
  other_writer, Workspace, WorkspaceError, ListOptions, RepoError, repository_closed, duplicate_id,
  workspace_not_found, alias_conflict, invalid_status_transition, status_precondition_failed,
  immutable_field,
}
use ana.Workspace.Value.{nil_map}
use ana.Workspace.Clone.{clone_workspace, clone_error}
use ana.Storage.Cursor.{encode_cursor, parse_workspace_cursor}

-- `workspaceAliasIndexKey`: a namespace and an alias
abbrev pub AliasKey : Type 0
AliasKey = Text × Text

unfoldable pub AliasKey-discrete : Discrete AliasKey
unfolding Text-discrete
AliasKey-discrete = hlevel Text-discrete

pub record WorkspaceRepository : Type 0 where
  pub by_id : Map Text Workspace
  pub id_by_alias_key : Map AliasKey Text
  pub closed : Bool

abbrev pub new_workspace_repository : WorkspaceRepository
new_workspace_repository = record { by_id = []; id_by_alias_key = []; closed = false }

abbrev pub workspace_alias_key : Workspace → AliasKey
workspace_alias_key w = (w.namespace, w.alias)

unfoldable pub find_row : Text → WorkspaceRepository → Option Workspace
find_row id r = lookup Text-discrete id r.by_id

unfoldable pub find_id : AliasKey → WorkspaceRepository → Option Text
find_id key r = lookup AliasKey-discrete key r.id_by_alias_key

unfoldable pub validate_known_status : Status → Result RepoError Unit
validate_known_status (other s) = err invalid_status_transition
validate_known_status _ = ok tt

unfoldable pub validate_status_transition : Status → Status → Result RepoError Unit
validate_status_transition init init = ok tt
validate_status_transition init healthy = ok tt
validate_status_transition init failed = ok tt
validate_status_transition healthy failed = ok tt
validate_status_transition failed healthy = ok tt
validate_status_transition _ _ = err invalid_status_transition

unfoldable pub validate_transition_by_writer :
    StatusWriter → Status → Status → Result RepoError Unit
validate_transition_by_writer controller init healthy = ok tt
validate_transition_by_writer controller init failed = ok tt
validate_transition_by_writer scheduler init failed = ok tt
validate_transition_by_writer scheduler healthy failed = ok tt
validate_transition_by_writer scheduler failed healthy = ok tt
validate_transition_by_writer _ _ _ = err invalid_status_transition

unfoldable pub validate_immutable_fields : Workspace → Workspace → Result RepoError Unit
validate_immutable_fields existing updated = do
  reject_if (ne_text existing.namespace updated.namespace) immutable_field
  reject_if (ne_text existing.alias updated.alias) immutable_field
  reject_if (ne_text existing.agent_type updated.agent_type) immutable_field
  reject_if (ne_text existing.infra_type updated.infra_type) immutable_field

abbrev pub is_some {ℓ} : {A : Type ℓ} → Option A → Bool
is_some none = false
is_some (some a) = true

unfoldable pub insert_workspace :
    WorkspaceRepository → Workspace → Result RepoError WorkspaceRepository
insert_workspace r w = do
  reject_if r.closed repository_closed
  reject_if (is_some (find_row w.id r)) duplicate_id
  validate_known_status w.status
  reject_if (is_some (find_id (workspace_alias_key w) r)) alias_conflict
  ok (record r {
    by_id = insert Text-discrete w.id (clone_workspace w) r.by_id;
    id_by_alias_key = insert AliasKey-discrete (workspace_alias_key w) w.id r.id_by_alias_key;
  })

unfoldable pub get : WorkspaceRepository → Text → Result RepoError Workspace
get r id = do
  reject_if r.closed repository_closed
  row ← or_fail (find_row id r) workspace_not_found
  ok (clone_workspace row)

-- What Go reads from a map for a key that is not there.
abbrev pub zero_workspace : Workspace
zero_workspace = record {
  id = [];
  namespace = [];
  alias = [];
  agent_type = [];
  infra_type = [];
  infra_options = nil_map;
  install_params = nil_map;
  plugins = none;
  status = other [];
  status_error = none;
  description = [];
  labels = none;
  last_probe_at = 0;
  created_at = 0;
  updated_at = 0;
}

abbrev pub row_or_zero : Option Workspace → Workspace
row_or_zero none = zero_workspace
row_or_zero (some row) = row

unfoldable pub get_by_alias : WorkspaceRepository → Text → Text → Result RepoError Workspace
get_by_alias r namespace alias = do
  reject_if r.closed repository_closed
  id ← or_fail (find_id (namespace, alias) r) workspace_not_found
  ok (clone_workspace (row_or_zero (find_row id r)))

abbrev pub store_row : WorkspaceRepository → Text → Workspace → WorkspaceRepository
store_row r id row = record r { by_id = insert Text-discrete id row r.by_id }

unfoldable pub update : WorkspaceRepository → Workspace → Result RepoError WorkspaceRepository
unfolding validate_immutable_fields
update r w = do
  reject_if r.closed repository_closed
  existing ← or_fail (find_row w.id r) workspace_not_found
  reject_if (ite (Status-discrete w.status existing.status) false true) invalid_status_transition
  validate_known_status w.status
  validate_immutable_fields existing w
  let kept = record w {
    id = existing.id;
    namespace = existing.namespace;
    alias = existing.alias;
    agent_type = existing.agent_type;
    infra_type = existing.infra_type;
    created_at = existing.created_at;
  }
  ok (store_row r kept.id (clone_workspace kept))

-- The lines that `UpdateStatus` and `UpdateStatusCAS` share.
unfoldable pub with_status : Workspace → Status → Option WorkspaceError → ℕ → ℕ → Workspace
with_status row next status_error last_probe_at now = record row {
  status = next;
  last_probe_at = last_probe_at;
  updated_at = now;
  status_error = ite (Status-discrete next healthy) none (clone_error status_error);
}

unfoldable pub update_status :
    WorkspaceRepository
    → Text
    → Status
    → Option WorkspaceError
    → ℕ
    → ℕ
    → Result RepoError WorkspaceRepository
update_status r id status status_error last_probe_at now = do
  reject_if r.closed repository_closed
  row ← or_fail (find_row id r) workspace_not_found
  validate_known_status status
  validate_status_transition row.status status
  ok (store_row r id (with_status row status status_error last_probe_at now))

unfoldable pub update_status_cas :
    WorkspaceRepository
    → Text
    → StatusWriter
    → Status
    → Status
    → Option WorkspaceError
    → ℕ
    → ℕ
    → Result RepoError WorkspaceRepository
update_status_cas r id writer expect next status_error last_probe_at now = do
  reject_if r.closed repository_closed
  row ← or_fail (find_row id r) workspace_not_found
  reject_if (ite (Status-discrete row.status expect) false true) status_precondition_failed
  validate_known_status next
  validate_transition_by_writer writer expect next
  ok (store_row r id (with_status row next status_error last_probe_at now))

unfoldable pub delete : WorkspaceRepository → Text → Result RepoError WorkspaceRepository
delete r id = do
  reject_if r.closed repository_closed
  row ← or_fail (find_row id r) workspace_not_found
  ok (record r {
    by_id = erase Text-discrete id r.by_id;
    id_by_alias_key = erase AliasKey-discrete (workspace_alias_key row) r.id_by_alias_key;
  })

-- A second `Close` is no error.
unfoldable pub close : WorkspaceRepository → WorkspaceRepository
close r = record r { closed = true }
