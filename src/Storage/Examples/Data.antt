-- ===== src/Storage/Examples/Data.antt =====
-- Two rows, and the repository that holds them.
use mathlib.Core.Path.{◌≡◌, refl}
use ana.Base.{false, none, some, List, [], ◌∷◌, Text, codes, lookup, insert, erase, Text-discrete}
use ana.Workspace.{Status, init, healthy, Workspace}
use ana.Workspace.Value.{nil_map, made, field, end, text}
use ana.Workspace.Clone.{clone_workspace}
use ana.Storage.WorkspaceRepo.{
  AliasKey-discrete, WorkspaceRepository, new_workspace_repository, find_row, find_id,
  insert_workspace, validate_known_status,
}
use ana.Storage.WorkspaceRepo.Invariant.{IsConsistent}
use ana.Storage.WorkspaceRepo.Calls.{Call, inserts, step, run, run_new-IsConsistent}

abbrev pub workspace : Text → Text → Status → Workspace
workspace id alias status = record {
  id = id;
  namespace = codes "ns";
  alias = alias;
  agent_type = codes "claude-code";
  infra_type = codes "localdir";
  infra_options = made (field (codes "dir") (text (codes "/w")) end);
  install_params = nil_map;
  plugins = some [];
  status = status;
  status_error = none;
  description = [];
  labels = none;
  last_probe_at = 0;
  created_at = 5;
  updated_at = 5;
}

abbrev pub first : Workspace
first = workspace (codes "w1") (codes "a") healthy

abbrev pub second : Workspace
second = workspace (codes "w2") (codes "b") init

abbrev pub third : Workspace
third = workspace (codes "w3") (codes "c") init

abbrev pub insertions : List Call
insertions = inserts second ∷ inserts first ∷ []

abbrev pub repo : WorkspaceRepository
repo = run new_workspace_repository insertions

pub repo-IsConsistent : IsConsistent repo
repo-IsConsistent = run_new-IsConsistent insertions

pub repo_open : repo.closed ≡ false
unfolding run step insert_workspace find_row find_id lookup validate_known_status Text-discrete
    AliasKey-discrete insert erase
repo_open = refl

pub repo_first : find_row (codes "w1") repo ≡ some (clone_workspace first)
unfolding run step insert_workspace find_row find_id lookup validate_known_status Text-discrete
    AliasKey-discrete insert erase
repo_first = refl

pub repo_second : find_row (codes "w2") repo ≡ some (clone_workspace second)
unfolding run step insert_workspace find_row find_id lookup validate_known_status Text-discrete
    AliasKey-discrete insert erase
repo_second = refl

pub repo_third : find_row (codes "w3") repo ≡ none
unfolding run step insert_workspace find_row find_id lookup validate_known_status Text-discrete
    AliasKey-discrete insert erase
repo_third = refl
