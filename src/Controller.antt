-- ===== src/Controller.antt =====
-- pkg/manager/workspace/controller.go: the install queue of the controller and its workers. Each
-- function holds the mutex from its first line to its last (`Cond.Wait` gives it up), so it is one step.
-- A context is a number: `installCtx` has none, and each job's has the next one.
pub mod Tracking
pub mod Turns
pub mod Jobs
pub mod Workers
pub mod Deletion
pub mod Idle
pub mod Plugins
pub mod Install
pub mod Delete
mod Examples
mod Installs
use ana.Base.{
  ℕ, ◌+◌, ◌-◌, ◌*◌, Bool, true, false, not, ◌||◌, Option, none, some, List, [], ◌∷◌, ◌++◌, Text,
  Text-discrete, Map, lookup, insert, erase, ite, ltb, ◌==◌, if◌then◌else◌, Result, ok, err, ◌>>◌,
  reject_if,
}
use ana.Workspace.{Workspace}
use ana.Workspace.Value.{Object, clone_map_any}
use ana.Workspace.Clone.{clone_workspace}
use ana.Workspace.Failure.{ContextState, live, cancelled, expired}
use ana.Scheduler.Lifecycle.{second}

pub data ControllerError : Type 0 where
  nil_repo nil_plugin_storage nil_agent_specs nil_factories : ControllerError
  controller_shutdown context_canceled deadline_exceeded : ControllerError

-- Durations and sizes that are not positive are 0, as the code treats all of these alike.
pub record ControllerConfig : Type 0 where
  pub has_repo : Bool
  pub has_plugin_storage : Bool
  pub has_agent_specs : Bool
  pub has_factories : Bool
  pub install_timeout : ℕ
  pub install_workers : ℕ
  pub max_plugin_size : ℕ
  pub probe_timeout : ℕ

abbrev positive_or : ℕ → ℕ → ℕ
positive_or x d = if x == 0 then d else x

unfoldable pub configured : ControllerConfig → Result ControllerError ControllerConfig
configured cfg = do
  reject_if (not cfg.has_repo) nil_repo
  reject_if (not cfg.has_plugin_storage) nil_plugin_storage
  reject_if (not cfg.has_agent_specs) nil_agent_specs
  reject_if (not cfg.has_factories) nil_factories
  ok (record cfg {
    install_timeout = positive_or cfg.install_timeout (600 * second);
    install_workers = positive_or cfg.install_workers 4;
    max_plugin_size = positive_or cfg.max_plugin_size 268435456;
    probe_timeout = positive_or cfg.probe_timeout (5 * second);
  })

-- `agent.InstallParams`; the plugins of its summary are those of the workspace, by their first fields.
pub record InstallParams : Type 0 where
  pub workspace : Text × Text × Text × Text × Text
  pub plugins : Option (List (Text × Text × Text))
  pub user_params : Object

-- `slices.Clone` keeps nil and the elements.
unfoldable pub clone_install_params : InstallParams → InstallParams
clone_install_params p = record p { user_params = clone_map_any p.user_params }

pub record InstallJob : Type 0 where
  pub workspace : Workspace
  pub params : InstallParams

-- A job that a worker runs: its context, its workspace, and whether the context was cancelled.
pub record ActiveJob : Type 0 where
  pub ctx : ℕ
  pub id : Text
  pub is_cancelled : Bool

-- `idle` counts the workers that are in `dequeue`; `install_cancel` holds the context that the cancel
-- function of a workspace cancels; `is_root_cancelled` says whether `installCtx` is.
pub record Controller : Type 0 where
  pub install_workers : ℕ
  pub started : Bool
  pub stopped : Bool
  pub is_root_cancelled : Bool
  pub queue : List InstallJob
  pub install_cancel : Map Text ℕ
  pub install_running : Map Text ℕ
  pub next_ctx : ℕ
  pub active : List ActiveJob
  pub idle : ℕ
  pub workers_remaining : ℕ
  pub workers_done : Bool

abbrev pub new_controller : ℕ → Controller
new_controller install_workers = record {
  install_workers = install_workers;
  started = false;
  stopped = false;
  is_root_cancelled = false;
  queue = [];
  install_cancel = [];
  install_running = [];
  next_ctx = 0;
  active = [];
  idle = 0;
  workers_remaining = 0;
  workers_done = false;
}

unfoldable pub start : Controller → Result ControllerError Controller
start s =
    if s.stopped
    then err controller_shutdown
    else if s.started
    then ok s
    else ok (record s {
      started = true;
      workers_remaining = s.install_workers;
      idle = s.install_workers;
      workers_done = false;
    })

abbrev check_context : ContextState → Result ControllerError Unit
check_context live = ok tt
check_context cancelled = err context_canceled
check_context expired = err deadline_exceeded

unfoldable pub submit :
    ContextState → Workspace → InstallParams → Controller → Result ControllerError Controller
submit ctx w params s = do
  check_context ctx
  reject_if (not s.started || s.stopped) controller_shutdown
  ok (record s {
    queue =
        s.queue
        ++ (record { workspace = clone_workspace w; params = clone_install_params params }) ∷ [];
  })

-- A context is cancelled: the job that has it, if it still runs, can see so.
unfoldable pub cancel_context : ℕ → List ActiveJob → List ActiveJob
cancel_context n [] = []
cancel_context n (a ∷ jobs) =
    (if a.ctx == n then record a { is_cancelled = true } else a) ∷ cancel_context n jobs

unfoldable pub cancel_all : List ActiveJob → List ActiveJob
cancel_all [] = []
cancel_all (a ∷ jobs) = record a { is_cancelled = true } ∷ cancel_all jobs

-- `if prev := c.installCancel[id]; prev != nil { prev() }`
unfoldable pub cancel_if_some : Option ℕ → List ActiveJob → List ActiveJob
unfolding cancel_context
cancel_if_some none jobs = jobs
cancel_if_some (some n) jobs = cancel_context n jobs

-- `c.installRunning[id]`, 0 for an id that is not there
unfoldable pub running_of : Text → Map Text ℕ → ℕ
running_of id m = elim (lookup Text-discrete id m) [ none ↦ 0 | some n ↦ n ]

-- What a call of `dequeue` does: it waits on, its worker exits, or its worker takes a job.
pub data Dequeued : Type 0 where
  waits exits : Dequeued
  takes : InstallJob → List InstallJob → Dequeued

unfoldable pub dequeue : Controller → Dequeued
dequeue s = elim s.queue [ [] ↦ if s.stopped then exits else waits | job ∷ rest ↦ takes job rest ]

-- The rest of `dequeue`, once it has a job. A context of a cancelled parent is born cancelled.
unfoldable pub track : InstallJob → List InstallJob → Controller → Controller
unfolding cancel_if_some running_of
track job rest s =
    let id = job.workspace.id in
    record s {
      queue = rest;
      next_ctx = s.next_ctx + 1;
      install_cancel = insert Text-discrete id s.next_ctx s.install_cancel;
      install_running =
          insert Text-discrete id (running_of id s.install_running + 1) s.install_running;
      active =
          (record { ctx = s.next_ctx; id = id; is_cancelled = s.is_root_cancelled })
          ∷ cancel_if_some (lookup Text-discrete id s.install_cancel) s.active;
      idle = s.idle - 1;
    }

-- The deferred lines of `worker`.
unfoldable pub exit_worker : Controller → Controller
exit_worker s = record s {
  idle = s.idle - 1;
  workers_remaining = s.workers_remaining - 1;
  workers_done = if s.workers_remaining - 1 == 0 then true else s.workers_done;
}

-- A turn of the loop of `worker`, up to where it runs the job; nothing, if no worker is idle.
unfoldable pub poll : Controller → Controller
unfolding dequeue track exit_worker
poll s =
    if s.idle == 0
    then s
    else elim (dequeue s) [ waits ↦ s | exits ↦ exit_worker s | takes job rest ↦ track job rest s ]

unfoldable pub finish_tracked_install : Text → Controller → Controller
finish_tracked_install id s =
    let left = running_of id s.install_running - 1 in
    if left == 0
    then record s {
      install_running = erase Text-discrete id s.install_running;
      install_cancel = erase Text-discrete id s.install_cancel;
    }
    else record s { install_running = insert Text-discrete id left s.install_running }

unfoldable pub find_active : ℕ → List ActiveJob → Option ActiveJob
find_active n [] = none
find_active n (a ∷ jobs) = let rest = find_active n jobs in if a.ctx == n then some a else rest

unfoldable pub remove_active : ℕ → List ActiveJob → List ActiveJob
remove_active n [] = []
remove_active n (a ∷ jobs) =
    let rest = remove_active n jobs in if a.ctx == n then jobs else a ∷ rest

-- The deferred lines of `runOneInstall`: the worker that ran the job with this context is idle again.
unfoldable pub finish : ℕ → Controller → Controller
unfolding finish_tracked_install find_active remove_active
finish n s = elim (find_active n s.active) [
  | none ↦ s
  | some a ↦ record (finish_tracked_install a.id s) {
    active = remove_active n s.active;
    idle = s.idle + 1;
  }
]

unfoldable pub without_id : Text → List InstallJob → List InstallJob
without_id id [] = []
without_id id (j ∷ js) =
    ite (Text-discrete j.workspace.id id) (without_id id js) (j ∷ without_id id js)

-- The new state and the context that the returned function cancels.
unfoldable pub take_and_cancel_queued_installs : Text → Controller → Controller × Option ℕ
unfolding without_id
take_and_cancel_queued_installs id s =
    (record s { queue = without_id id s.queue }, lookup Text-discrete id s.install_cancel)

-- The critical section of `Stop`; it cancels `installCtx` after that, in a step of its own.
unfoldable pub mark_stopped : Controller → Controller
mark_stopped s = record s { stopped = true }

unfoldable pub cancel_root : Controller → Controller
unfolding cancel_all
cancel_root s =
    if s.started then record s { is_root_cancelled = true; active = cancel_all s.active } else s

-- The loop condition of `waitInstallIdle`.
unfoldable pub is_install_idle : Text → Controller → Bool
unfolding running_of
is_install_idle id s = if ltb 0 (running_of id s.install_running) then false else true
