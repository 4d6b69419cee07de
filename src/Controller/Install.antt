-- ===== src/Controller/Install.antt =====
-- pkg/manager/workspace/controller.go: `runInstall`. What the outside does in an install (the factory, the
-- infra, the agent spec, the plugins, the contexts, the clock, and the calls that others make of the
-- repository) is a record of what the code observes. The infra itself has no other state here.
pub mod Settles
pub mod Outcome
use ana.Base.{
  ℕ, ◌+◌, Bool, true, false, not, Option, none, some, List, [], ◌∷◌, ◌++◌, Text, codes,
  Text-discrete, ne_text, ite, if◌then◌else◌, Result, ok, err, ◌>>=◌, ◌>>◌, reject_if, or_fail,
}
use ana.Workspace.{
  Status, init, healthy, failed, Status-discrete, controller, AttachedPlugin, Workspace,
  WorkspaceError, RepoError, status_precondition_failed, RepoError-discrete,
}
use ana.Workspace.Failure.{
  GoError, infra_type_unknown, agent_type_unknown, wrap, failure_from_error, failure_for_shutdown,
  ProbeResult, failure_from_probe_result, ContextState, classify_failure,
}
use ana.Storage.WorkspaceRepo.{WorkspaceRepository, get, update, update_status_cas}
use ana.Storage.WorkspaceRepo.Calls.{Call, run}
use ana.Scheduler.{is_done}
use ana.Controller.{InstallJob}
use ana.Controller.Plugins.{PluginRun, attach_plugins}

-- A wait of the backoff: it elapses, with the calls of others meanwhile and the instant of the next
-- attempt, or the repository's context is done first.
pub data Wait : Type 0 where
  elapses : List Call → ℕ → Wait
  ends : ContextState → Wait

pub data WriteError : Type 0 where
  write_failed : RepoError → WriteError
  write_ended : ContextState → WriteError

unfoldable pub retry_after :
    (ℕ → WorkspaceRepository → Result RepoError WorkspaceRepository)
    → List Wait
    → WorkspaceRepository
    → RepoError
    → WorkspaceRepository × Option WriteError
retry_after write [] r e = (r, some (write_failed e))
retry_after write (ends ctx ∷ waits) r e = (r, some (write_ended ctx))
retry_after write (elapses calls now ∷ waits) r e = elim (write now (run r calls)) [
  | ok s ↦ (s, none)
  | err f ↦ retry_after write waits (run r calls) f
]

-- `retryRepoWrite`, for an attempt at an instant and the waits of the two entries of `repoRetryBackoff`
unfoldable pub retry_repo_write :
    (ℕ → WorkspaceRepository → Result RepoError WorkspaceRepository)
    → ℕ
    → Wait × Wait
    → WorkspaceRepository
    → WorkspaceRepository × Option WriteError
unfolding retry_after
retry_repo_write write now (first, second) r = elim (write now r) [
  | ok s ↦ (s, none)
  | err e ↦ retry_after write (first ∷ second ∷ []) r e
]

-- `if errors.Is(err, ErrStatusPreconditionFailed) { return nil }`
abbrev pub ignore_precondition :
    WorkspaceRepository
    → Result RepoError WorkspaceRepository
    → Result RepoError WorkspaceRepository
ignore_precondition r (ok s) = ok s
ignore_precondition r (err e) = ite (RepoError-discrete e status_precondition_failed) (ok r) (err e)

-- The status write that is retried: from `init`, by the controller.
unfoldable pub settle :
    Text
    → Status
    → Option WorkspaceError
    → ℕ
    → ℕ
    → WorkspaceRepository
    → Result RepoError WorkspaceRepository
settle id next status_error probed_at now r =
    ignore_precondition r (update_status_cas r id controller init next status_error probed_at now)

-- What an install observes. The clock is read for an error at most once.
pub record InstallRun : Type 0 where
  pub parent_ctx : ContextState
  pub factory : Option (Option GoError)
  pub built_ctx : ContextState
  pub initialised : Option GoError
  pub initialised_ctx : ContextState
  pub has_spec : Bool
  pub has_directory_keys : Bool
  pub plugins : ℕ → PluginRun
  pub attached_ctx : ContextState
  pub installed : Option GoError
  pub installed_ctx : ContextState
  pub probe : Result GoError ProbeResult
  pub probe_ctx : ContextState
  pub probed_at : ℕ
  pub failed_at : ℕ
  pub updated_at : ℕ
  pub repo_now : ℕ
  pub waits : Wait × Wait
  pub failure_waits : Wait × Wait
  pub settle_waits : Wait × Wait
  pub meanwhile : List Call
  pub before_update : List Call
  pub before_settle : List Call
  pub before_failure : List Call

-- The error of a failed install, and the instant of its probe (0 if it failed earlier).
abbrev pub Failure : Type 0
Failure = WorkspaceError × ℕ

-- `if err != nil { fail with classifyFailure(ctx, "install", err) }`
abbrev pub stage : ℕ → ContextState → Option GoError → Result Failure Unit
stage now ctx none = ok tt
stage now ctx (some e) = err (classify_failure now ctx (codes "install") e, 0)

abbrev pub stage_result : {A : Type 0} → ℕ → ContextState → Result GoError A → Result Failure A
stage_result now ctx (ok a) = ok a
stage_result now ctx (err e) = err (classify_failure now ctx (codes "install") e, 0)

abbrev pub confirm_probe : InstallRun → Result GoError ProbeResult → Result Failure Unit
confirm_probe p (err e) =
    err (classify_failure p.failed_at p.probe_ctx (codes "probe") e, p.probed_at)
confirm_probe p (ok result) =
    reject_if (not result.healthy) (failure_from_probe_result p.failed_at result, p.probed_at)

-- `runInstall` up to the probe, and the plugins that it attached.
unfoldable pub install_effects :
    InstallRun → InstallJob → Result Failure (Option (List AttachedPlugin))
unfolding attach_plugins
install_effects p job = do
  reject_if (is_done p.parent_ctx) (failure_for_shutdown p.failed_at, 0)
  built ← or_fail p.factory (
    failure_from_error p.failed_at (codes "install")
        (wrap infra_type_unknown job.workspace.infra_type),
    0,
  )
  stage p.failed_at p.built_ctx built
  stage p.failed_at p.initialised_ctx p.initialised
  reject_if (not p.has_spec) (
    failure_from_error p.failed_at (codes "install")
        (wrap agent_type_unknown job.workspace.agent_type),
    0,
  )
  attached ←
      stage_result p.failed_at p.attached_ctx
        (attach_plugins p.has_directory_keys p.plugins job.workspace.plugins)
  stage p.failed_at p.installed_ctx p.installed
  confirm_probe p p.probe
  ok attached

-- `transitionToFailed`: an error that remains is logged only.
unfoldable pub transition_to_failed :
    InstallRun → Text → WorkspaceError → ℕ → WorkspaceRepository → WorkspaceRepository
unfolding settle
transition_to_failed p id status_error probed_at r =
    (retry_repo_write (settle id failed (some status_error) probed_at) p.repo_now p.failure_waits
      (run r p.before_failure)).0

-- An error of the repository, wrapped in a message.
abbrev pub wrapped : Text → GoError
wrapped message = record { message = message; is = λ s. false }

-- The repository afterwards, and whether the infra was cleared.
abbrev pub Installed : Type 0
Installed = WorkspaceRepository × Bool

abbrev pub fail_install : InstallRun → Text → Text → Text → WorkspaceRepository → Installed
fail_install p id phase message r =
    (transition_to_failed p id (failure_from_error p.failed_at phase (wrapped message)) 0 r, false)

abbrev pub is_timeout : Option WorkspaceError → Bool
is_timeout none = false
is_timeout (some e) = ite (Text-discrete e.code (codes "install.timeout")) true false

-- The row left `init` meanwhile: its directory is kept after a timeout, and cleared otherwise.
unfoldable pub clears_stale : Workspace → Bool
clears_stale latest =
    ite (Status-discrete latest.status failed) (not (is_timeout latest.status_error)) true

unfoldable pub settled : InstallRun → Text → WorkspaceRepository × Option WriteError → Installed
settled p id (r, none) = (r, false)
settled p id (r, some e) = fail_install p id (codes "status") (codes "mark healthy after install") r

unfoldable pub mark_healthy :
    InstallRun → Text → Workspace → WorkspaceRepository × Option WriteError → Installed
mark_healthy p id latest (r, some e) =
    fail_install p id (codes "install") (codes "persist attached plugins") r
mark_healthy p id latest (r, none) = settled p id (
    retry_repo_write (settle latest.id healthy none p.probed_at) p.repo_now p.settle_waits
      (run r p.before_settle))

unfoldable pub finalize :
    InstallRun
    → Text
    → Option (List AttachedPlugin)
    → WorkspaceRepository
    → Result RepoError Workspace
    → Installed
unfolding mark_healthy
finalize p id attached r (err e) =
    fail_install p id (codes "install") (codes "reload before finalize") r
finalize p id attached r (ok latest) =
    let updated = record latest { plugins = attached; updated_at = p.updated_at } in
    ite (Status-discrete latest.status init)
      (mark_healthy p id latest
        (retry_repo_write (λ now s. update s updated) p.repo_now p.waits (run r p.before_update)))
      (r, clears_stale latest)

unfoldable pub complete :
    InstallRun
    → Text
    → WorkspaceRepository
    → Result Failure (Option (List AttachedPlugin))
    → Installed
unfolding finalize
complete p id r (err (status_error, probed_at)) =
    (transition_to_failed p id status_error probed_at r, false)
complete p id r (ok attached) = finalize p id attached r (get r id)

-- `runInstall`
unfoldable pub run_install : InstallRun → InstallJob → WorkspaceRepository → Installed
unfolding complete
run_install p job r = complete p job.workspace.id (run r p.meanwhile) (install_effects p job)
