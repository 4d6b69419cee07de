-- ===== src/Manager/Workspaces.antt =====
-- pkg/manager/manager.go: the workspaces of the manager. `clean` is filepath.Clean.
pub mod Dirs
pub mod Branches
pub mod Creation
use ana.Base.{
  ℕ, zero, suc, ite, Bool, true, false, ◌||◌, Option, none, some, List, [], ◌∷◌, map, Text,
  Text-discrete, codes, Map, Result, ok, err, ◌>>=◌, ◌>>◌, reject_if, not, if◌then◌else◌,
}
use ana.Workspace.{
  Workspace, AttachedPlugin, ListOptions, no_options, RepoError, init, WorkspaceError,
}
use ana.Workspace.Value.{
  Value, null, opaque, text, nil_list, list, object, Object, member, clone_map_any,
}
use ana.Workspace.Clone.{clone_labels, clone_attached_plugins, clone_error}
use ana.Plugin.{Plugin, plugin_not_found}
use ana.Storage.WorkspaceRepo.{WorkspaceRepository, insert_workspace, delete}
use ana.Storage.WorkspaceRepo.Listing
use ana.Storage.WorkspaceRepo.Listing.Cursors.{at_cursor}
use ana.Storage.PluginRepo.{PluginRepository, get_plugin}
use ana.Scheduler.ListAll.{is_empty}
use ana.Controller.{Controller, InstallParams, ControllerError, submit}
use ana.Workspace.Failure.{live}
use ana.Manager.{Manager, begin_op, of_repo}
use ana.Manager.Validation.{
  ManagerError, of_store, of_workspaces, of_controller, joined, cancelled, duplicate_plugin_ref,
  dir_conflict, agent_type_unknown, infra_type_unknown, normalize_namespace, validate_namespace,
  validate_alias, validate_description,
}

abbrev pub localdir_infra_type : Text
localdir_infra_type = codes "localdir"

abbrev pub infra_option_dir : Text
infra_option_dir = codes "dir"

-- The fields of `managerFacade` that the workspaces need, beside those of the plugins.
pub record Facade : Type 0 where
  pub core : Manager
  pub workspaces : WorkspaceRepository
  pub installs : Controller
  pub agent_types : Text → Bool
  pub infra_types : Text → Bool

-- `req.Plugins` is the list of the referenced ids.
pub record CreateWorkspaceRequest : Type 0 where
  pub namespace : Text
  pub alias : Text
  pub agent_type : Text
  pub infra_type : Text
  pub infra_options : Object
  pub install_params : Object
  pub plugins : List Text
  pub description : Text
  pub labels : Option (Map Text Text)

-- What a call takes from its context, the id generator and the clock.
pub record WorkspaceMoment : Type 0 where
  pub is_cancelled : Bool
  pub new_id : Text
  pub now : ℕ

unfoldable pub has_seen : Text → List Text → Bool
has_seen id [] = false
has_seen id (j ∷ seen) = let rest = has_seen id seen in ite (Text-discrete j id) true rest

abbrev pub attached_plugin : Text → Plugin → AttachedPlugin
attached_plugin id row = record {
  plugin_id = id;
  name = row.name;
  content_hash = row.content_hash;
  placed_paths = none;
}

-- The loop of `resolveAttachedPlugins`
unfoldable pub resolve_refs :
    PluginRepository → List Text → List Text → Result ManagerError (List AttachedPlugin)
unfolding has_seen
resolve_refs r seen [] = ok []
resolve_refs r seen (id ∷ ids) = do
  reject_if (is_empty id) (of_store plugin_not_found)
  reject_if (has_seen id seen) duplicate_plugin_ref
  row ← of_repo (get_plugin r id)
  rest ← resolve_refs r (id ∷ seen) ids
  ok (attached_plugin id row ∷ rest)

abbrev pub wrapped : List AttachedPlugin → Option (List AttachedPlugin)
wrapped [] = none
wrapped (p ∷ ps) = some (p ∷ ps)

-- No references give nil.
unfoldable pub resolve_attached_plugins :
    PluginRepository → List Text → Result ManagerError (Option (List AttachedPlugin))
unfolding resolve_refs
resolve_attached_plugins r ids = do attached ← resolve_refs r [] ids; ok (wrapped attached)

unfoldable pub dir_of_value : (Text → Text) → Option Value → Option Text
dir_of_value clean (some (text (c ∷ s))) = some (clean (c ∷ s))
dir_of_value clean _ = none

unfoldable pub localdir_dir_option : (Text → Text) → Object → Option Text
unfolding dir_of_value
localdir_dir_option clean options = dir_of_value clean (member infra_option_dir options)

unfoldable pub same_dir : Text → Option Text → Bool
same_dir want none = false
same_dir want (some dir) = ite (Text-discrete dir want) true false

abbrev pub localdir_rows : ListOptions
localdir_rows = record no_options { infra_type = localdir_infra_type; limit = 200 }

module _ (clean : Text → Text) where
  -- The loop over one page.
  unfoldable pub has_conflict : Text → List Workspace → Bool
  unfolding localdir_dir_option same_dir
  has_conflict want [] = false
  has_conflict want (row ∷ rows) =
      let rest = has_conflict want rows in
      if same_dir want (localdir_dir_option clean row.infra_options) then true else rest

  -- The loop over the pages. The fuel bounds its rounds, and `none` means that it ran out.
  unfoldable pub check_pages :
      ℕ → WorkspaceRepository → ListOptions → Text → Option (Result ManagerError Unit)
  unfolding has_conflict
  check_pages zero r opts want = none
  check_pages (suc fuel) r opts want = elim (Listing.list r opts) [
    | err e ↦ some (err (of_workspaces e))
    | ok (page, next) ↦
        let rest = check_pages fuel r (at_cursor opts next) want in
        if has_conflict want page
        then some (err dir_conflict)
        else if is_empty next
        then some (ok tt)
        else rest
  ]

  unfoldable pub check_dir :
      ℕ → WorkspaceRepository → Option Text → Option (Result ManagerError Unit)
  unfolding check_pages
  check_dir fuel r none = some (ok tt)
  check_dir fuel r (some want) = check_pages fuel r localdir_rows want

  unfoldable pub ensure_workspace_infra_uniqueness :
      ℕ → WorkspaceRepository → CreateWorkspaceRequest → Option (Result ManagerError Unit)
  unfolding check_dir
  ensure_workspace_infra_uniqueness fuel r req =
      ite (Text-discrete req.infra_type localdir_infra_type)
        (check_dir fuel r (localdir_dir_option clean req.infra_options)) (some (ok tt))

unfoldable pub check_workspace_request :
    Facade → CreateWorkspaceRequest → WorkspaceMoment → Result ManagerError Unit
check_workspace_request m req t = do
  begin_op m.core
  reject_if t.is_cancelled cancelled
  validate_namespace (normalize_namespace req.namespace)
  validate_alias req.alias
  validate_description req.description
  reject_if (not (m.agent_types req.agent_type)) agent_type_unknown
  reject_if (not (m.infra_types req.infra_type)) infra_type_unknown

abbrev pub new_workspace_row :
    CreateWorkspaceRequest → WorkspaceMoment → Option (List AttachedPlugin) → Workspace
new_workspace_row req t attached = record {
  id = t.new_id;
  namespace = normalize_namespace req.namespace;
  alias = req.alias;
  agent_type = req.agent_type;
  infra_type = req.infra_type;
  infra_options = clone_map_any req.infra_options;
  install_params = clone_map_any req.install_params;
  plugins = attached;
  status = init;
  status_error = none;
  description = req.description;
  labels = clone_labels req.labels;
  last_probe_at = 0;
  created_at = t.now;
  updated_at = t.now;
}

abbrev pub install_ref : AttachedPlugin → Text × Text × Text
install_ref p = (p.plugin_id, p.name, p.content_hash)

abbrev pub install_refs : Option (List AttachedPlugin) → Option (List (Text × Text × Text))
install_refs none = none
install_refs (some ps) = some (map install_ref ps)

abbrev pub install_params_of : CreateWorkspaceRequest → Workspace → InstallParams
install_params_of req row = record {
  workspace = (row.id, row.namespace, row.alias, row.agent_type, row.infra_type);
  plugins = install_refs row.plugins;
  user_params = clone_map_any req.install_params;
}

-- `append([]string(nil), paths...)`
abbrev pub copied_paths : Option (List Text) → Option (List Text)
copied_paths none = none
copied_paths (some []) = none
copied_paths (some (p ∷ ps)) = some (p ∷ ps)

abbrev copied_attached : AttachedPlugin → AttachedPlugin
copied_attached p = record p { placed_paths = copied_paths p.placed_paths }

abbrev pub attached_of : Option (List AttachedPlugin) → List AttachedPlugin
attached_of none = []
attached_of (some ps) = map copied_attached ps

-- `workspaceFromRow` with `cloneWorkspaceValue`
unfoldable pub workspace_from_row : Workspace → Workspace
workspace_from_row row = record row {
  infra_options = clone_map_any (clone_map_any row.infra_options);
  install_params = clone_map_any (clone_map_any row.install_params);
  plugins = clone_attached_plugins (some (attached_of row.plugins));
  status_error = clone_error (clone_error row.status_error);
  labels = clone_labels (clone_labels row.labels);
}

-- A row whose install was not queued is deleted again.
unfoldable pub undo_workspace :
    Facade → Text → ControllerError → Facade × Result ManagerError Workspace
undo_workspace m id e = elim (delete m.workspaces id) [
  | ok r ↦ (record m { workspaces = r }, err (of_controller e))
  | err f ↦ (m, err (joined (of_controller e) (of_workspaces f)))
]

unfoldable pub submit_workspace :
    Facade → CreateWorkspaceRequest → Workspace → Facade × Result ManagerError Workspace
unfolding undo_workspace workspace_from_row
submit_workspace m req row = elim (submit live row (install_params_of req row) m.installs) [
  | ok c ↦ (record m { installs = c }, ok (workspace_from_row row))
  | err e ↦ undo_workspace m row.id e
]

unfoldable pub insert_and_submit :
    Facade → CreateWorkspaceRequest → Workspace → Facade × Result ManagerError Workspace
unfolding submit_workspace
insert_and_submit m req row = elim (insert_workspace m.workspaces row) [
  | err e ↦ (m, err (of_workspaces e))
  | ok r ↦ submit_workspace (record m { workspaces = r }) req row
]

unfoldable pub create_checked :
    Facade
    → CreateWorkspaceRequest
    → WorkspaceMoment
    → Result ManagerError (Option (List AttachedPlugin))
    → Facade × Result ManagerError Workspace
unfolding insert_and_submit
create_checked m req t (err e) = (m, err e)
create_checked m req t (ok attached) = insert_and_submit m req (new_workspace_row req t attached)

-- The call under `createWorkspaceMu`; `none` means that the fuel of the check ran out.
unfoldable pub create_workspace :
    (Text → Text)
    → ℕ
    → Facade
    → CreateWorkspaceRequest
    → WorkspaceMoment
    → Option (Facade × Result ManagerError Workspace)
unfolding check_workspace_request create_checked
create_workspace clean fuel m req t = elim (check_workspace_request m req t) [
  | err e ↦ some (m, err e)
  | ok u ↦ elim (ensure_workspace_infra_uniqueness clean fuel m.workspaces req) [
    | none ↦ none
    | some (err e) ↦ some (m, err e)
    | some (ok v) ↦
        some (create_checked m req t (resolve_attached_plugins m.core.plugins req.plugins))
  ]
]
