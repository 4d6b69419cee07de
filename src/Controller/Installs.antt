-- ===== src/Controller/Installs.antt =====
-- The install theorems at the second row of the example repository, which is in `init`.
use ana.Base.{◌≡◌, ◌≢◌, refl, true, none, some, [], codes, ok}
use ana.Workspace.{init, Workspace}
use ana.Workspace.Value.{nil_map}
use ana.Workspace.Failure.{live}
use ana.Workspace.Clone.{clone_workspace}
use ana.Storage.WorkspaceRepo.Reads.{get_of_row}
use ana.Storage.Examples.Data.{
  first, second, repo, repo-IsConsistent, repo_open, repo_first, repo_second,
}
use ana.Controller.{InstallJob}
use ana.Base.{false, err}
use ana.Workspace.{workspace_not_found}
use ana.Workspace.Failure.{wrap, canceled}
use ana.Storage.WorkspaceRepo.{get}
use ana.Controller.Delete.{DeleteRun, delete_workspace, delete_workspace_lem}
use ana.Controller.Plugins.{PluginRun}
use ana.Controller.Install.{InstallRun, elapses, run_install, install_effects}
use ana.Controller.Install.Settles.{IsUndisturbed, run_install_elsewhere}
use ana.Controller.Install.Outcome.{Settles, run_install-Settles}

abbrev plugin_run : PluginRun
plugin_run = record {
  body = ok (codes "h");
  opened = none;
  body_closed = none;
  directory = ok [];
  applied = ok none;
  reader_closed = none;
}

abbrev healthy_run : InstallRun
healthy_run = record {
  parent_ctx = live;
  factory = some none;
  built_ctx = live;
  initialised = none;
  initialised_ctx = live;
  has_spec = true;
  has_directory_keys = true;
  plugins = λ i. plugin_run;
  attached_ctx = live;
  installed = none;
  installed_ctx = live;
  probe = ok (record { healthy = true; error = none });
  probe_ctx = live;
  probed_at = 7;
  failed_at = 7;
  updated_at = 8;
  repo_now = 9;
  waits = (elapses [] 10, elapses [] 11);
  failure_waits = (elapses [] 10, elapses [] 11);
  settle_waits = (elapses [] 10, elapses [] 11);
  meanwhile = [];
  before_update = [];
  before_settle = [];
  before_failure = [];
}

-- The infra type of this workspace is not registered.
abbrev failing_run : InstallRun
failing_run = record healthy_run { factory = none }

undisturbed :
    (p : InstallRun)
    → p.meanwhile ≡ []
    → p.before_update ≡ []
    → p.before_settle ≡ []
    → p.before_failure ≡ []
    → IsUndisturbed p
undisturbed p a b c d = record {
  quiet_effects = a;
  quiet_update = b;
  quiet_settle = c;
  quiet_failure = d;
}

abbrev job : Workspace → InstallJob
job w = record {
  workspace = w;
  params = record {
    workspace = (w.id, w.namespace, w.alias, w.agent_type, w.infra_type);
    plugins = none;
    user_params = nil_map;
  };
}

second_init : (clone_workspace second).status ≡ second.status
unfolding clone_workspace
second_init = refl

first_ne_init : (clone_workspace first).status ≢ init
unfolding clone_workspace
first_ne_init e = cc

run_install-Settles_example :
    Settles healthy_run
      (codes "w2")
      (run_install healthy_run (job second) repo).0
      (install_effects healthy_run (job second))
run_install-Settles_example =
    run_install-Settles healthy_run (job second) repo (clone_workspace second)
      (undisturbed healthy_run refl refl refl refl) repo-IsConsistent repo_open
      (get_of_row repo (codes "w2") (clone_workspace second) repo-IsConsistent repo_open
        repo_second)
      second_init

run_install_elsewhere_example : (run_install failing_run (job first) repo).0 ≡ repo
run_install_elsewhere_example =
    run_install_elsewhere failing_run (job first) repo (clone_workspace first)
      (undisturbed failing_run refl refl refl refl) repo-IsConsistent repo_open
      (get_of_row repo (codes "w1") (clone_workspace first) repo-IsConsistent repo_open repo_first)
      first_ne_init

-- An infra that can be built, but not opened.
abbrev closed_infra : DeleteRun
closed_infra = record {
  is_stopped = false;
  waited = none;
  factory = some none;
  has_spec = true;
  opened = some (wrap canceled []);
  before_get = [];
  before_delete = [];
}

delete_workspace_lem_example :
    get (delete_workspace closed_infra (codes "w1") repo).repo (codes "w1")
    ≡ err workspace_not_found
delete_workspace_lem_example =
    (delete_workspace_lem closed_infra (codes "w1") repo (clone_workspace first) repo-IsConsistent
      refl refl refl refl
      (get_of_row repo (codes "w1") (clone_workspace first) repo-IsConsistent repo_open
        repo_first)).1
