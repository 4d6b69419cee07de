-- ===== src/Manager/Requests.antt =====
-- CreateWorkspace at concrete requests. A path is its own clean form here.
use ana.Base.{
  ℕ, ◌≡◌, refl, true, false, Option, none, some, [], ◌∷◌, Text, codes, Result, err, arith, lookup,
  insert, erase, Text-discrete, ℕ_discrete,
}
use ana.Base.Sorting.{select, sort}
use ana.Workspace.{Workspace}
use ana.Workspace.Value.{nil_map, made, end, field, text, member, clone_map_any}
use ana.Storage.WorkspaceRepo.{
  new_workspace_repository, find_row, find_id, insert_workspace, AliasKey-discrete,
  validate_known_status,
}
use ana.Storage.WorkspaceRepo.Listing
use ana.Storage.WorkspaceRepo.Listing.{matches_options, labels_match}
use ana.Storage.Cursor.{parse_workspace_cursor}
use ana.Workspace.Clone.{clone_workspace, clone_attached_plugins, clone_error, clone_labels}
use ana.Storage.WorkspaceRepo.Invariant.{new-IsConsistent}
use ana.Controller.{new_controller, submit, clone_install_params}
use ana.Manager.{new_manager, begin_op}
use ana.Manager.Workspaces.{
  Facade, CreateWorkspaceRequest, WorkspaceMoment, create_workspace, infra_option_dir,
  ensure_workspace_infra_uniqueness, localdir_dir_option, resolve_attached_plugins,
  localdir_infra_type,
}
use ana.Manager.Workspaces.Dirs.{HasOwnDirs}
use ana.Manager.Workspaces.Branches.{Kept}
use ana.Manager.Workspaces.Creation.{create_workspace_lem}
use ana.Manager.Validation.{
  ManagerError, dir_conflict, validate_namespace, matches_namespace, normalize_namespace,
  all_namespace_chars, validate_alias, matches_alias, validate_description,
}

abbrev same_path : Text → Text
same_path path = path

abbrev fresh_facade : Facade
fresh_facade = record {
  core = new_manager;
  workspaces = new_workspace_repository;
  installs = record (new_controller 2) { started = true };
  agent_types = λ t. true;
  infra_types = λ t. true;
}

abbrev in_dir : Text → Text → CreateWorkspaceRequest
in_dir alias dir = record {
  namespace = [];
  alias = alias;
  agent_type = codes "claude";
  infra_type = localdir_infra_type;
  infra_options = made (field infra_option_dir (text dir) end);
  install_params = nil_map;
  plugins = [];
  description = [];
  labels = none;
}

abbrev at_instant : ℕ → WorkspaceMoment
at_instant n = record { is_cancelled = false; new_id = n ∷ []; now = n }

nothing_stored : (id : Text) (w : Workspace) → find_row id new_workspace_repository ≡ some w → ⊥
unfolding find_row lookup
nothing_stored id w found = absurd (cc)

fresh-HasOwnDirs : HasOwnDirs same_path new_workspace_repository
unfolding find_row lookup
fresh-HasOwnDirs = record { own = λ i j v w dir fv. absurd (cc) }

create_workspace_lem_example :
    (n : Facade) × (result : Result ManagerError Workspace) × (create_workspace same_path 5
        fresh_facade
        (in_dir (codes "a") (codes "/w"))
        (at_instant 7)
      ≡ some (n, result))
    × Kept same_path fresh_facade n result
create_workspace_lem_example =
    create_workspace_lem same_path fresh_facade new-IsConsistent fresh-HasOwnDirs refl
      (λ id w found. absurd (nothing_stored id w found)) 5 (unfold select sort in omega arith)
      (in_dir (codes "a") (codes "/w")) (at_instant 7)

abbrev facade_after : Option (Facade × Result ManagerError Workspace) → Facade
facade_after none = fresh_facade
facade_after (some (n, result)) = n

abbrev result_of :
    Option (Facade × Result ManagerError Workspace) → Option (Result ManagerError Workspace)
result_of none = none
result_of (some (n, result)) = some result

-- Another alias, the same directory.
same_directory :
    result_of (
      create_workspace same_path 5
        (facade_after (
          create_workspace same_path 5 fresh_facade
            (in_dir (codes "a") (codes "/w"))
            (at_instant 7)))
        (in_dir (codes "b") (codes "/w"))
        (at_instant 8))
    ≡ some (err dir_conflict)
unfolding create_workspace begin_op validate_namespace matches_namespace normalize_namespace
    all_namespace_chars validate_alias matches_alias validate_description
    ensure_workspace_infra_uniqueness localdir_dir_option member resolve_attached_plugins
    insert_workspace find_row find_id lookup insert erase Text-discrete AliasKey-discrete
    validate_known_status clone_workspace clone_map_any clone_attached_plugins clone_error
    clone_labels submit clone_install_params select sort Listing.list matches_options labels_match
    parse_workspace_cursor ℕ_discrete
same_directory = refl
