-- ===== src/Scheduler.antt =====
-- pkg/manager/workspace/scheduler.go: the periodic health probes. What the outside does in a probe (the
-- infra factory, the infra, the agent spec, the contexts, the clock, and the calls that other goroutines
-- make of the repository meanwhile) is a record of what the code observes, in the order in which it does.
pub mod ListAll
pub mod Lifecycle
pub mod Tick
pub mod Probe
mod Examples
use ana.Base.{
  ℕ, ◌+◌, Bool, true, false, ◌&&◌, Option, none, some, List, [], ◌∷◌, Text, codes, ite,
  if◌then◌else◌, Result, ok, err, after,
}
use ana.Workspace.{
  Status, init, healthy, failed, Status-discrete, scheduler, Workspace, WorkspaceError, RepoError,
}
use ana.Workspace.Clone.{clone_workspace, clone_error}
use ana.Workspace.Failure.{
  GoError, canceled, infra_type_unknown, agent_type_unknown, wrap, failure_from_error, ProbeResult,
  failure_from_probe_result, ContextState, live, cancelled, expired, is_cancelled,
}
use ana.Storage.WorkspaceRepo.{WorkspaceRepository, get, update, update_status_cas}
use ana.Storage.WorkspaceRepo.Calls.{Call, run}

-- The counters, of 64 bits: they are left unbounded, since each grows by one a probe or a tick.
pub record ProbeStats : Type 0 where
  pub ticks_run : ℕ
  pub probes_attempted : ℕ
  pub probes_healthy : ℕ
  pub probes_failed : ℕ

-- What one probe observes. A factory is `none` if its type is not registered; it, and `Open`, give an
-- error or nothing; a context is asked for its error after each.
pub record ProbeRun : Type 0 where
  pub factory : Option (Option GoError)
  pub built_ctx : ContextState × ContextState
  pub opened : Option GoError
  pub opened_ctx : ContextState × ContextState
  pub has_spec : Bool
  pub probe : Result GoError ProbeResult
  pub probed_ctx : ContextState × ContextState
  pub probed_at : ℕ
  pub failed_at : ℕ
  pub updated_at : ℕ
  pub repo_now : ℕ
  pub meanwhile : List Call
  pub between : List Call

-- `ctx.Err() != nil`
abbrev pub is_done : ContextState → Bool
is_done live = false
is_done _ = true

pub data Outcome : Type 0 where
  -- The probe returned early, because a context was done.
  dropped : Outcome
  recorded : Status → Option WorkspaceError → ℕ → Outcome

abbrev probe_failed : ProbeRun → GoError → Outcome
probe_failed p e =
    recorded failed (some (failure_from_error p.failed_at (codes "probe") e)) p.failed_at

-- `probeCtx.Err() != nil && ctx.Err() != nil`; a pair holds the probe's context and then the tick's
abbrev both_done : ContextState × ContextState → Bool
both_done (probe_ctx, ctx) = is_done probe_ctx && is_done ctx

after_probe : ProbeRun → Result GoError ProbeResult → Outcome
after_probe p (err e) =
    if is_cancelled p.probed_ctx.0
    then dropped
    else if e.is canceled && is_done p.probed_ctx.1
    then dropped
    else recorded failed (some (failure_from_error p.failed_at (codes "probe") e)) p.probed_at
after_probe p (ok result) =
    if is_cancelled p.probed_ctx.0
    then dropped
    else if result.healthy
    then recorded healthy none p.probed_at
    else recorded failed (some (failure_from_probe_result p.failed_at result)) p.probed_at

after_open : ProbeRun → Workspace → Option GoError → Outcome
unfolding after_probe
after_open p row (some e) = if both_done p.opened_ctx then dropped else probe_failed p e
after_open p row none =
    if p.has_spec
    then after_probe p p.probe
    else probe_failed p (wrap agent_type_unknown row.agent_type)

after_factory : ProbeRun → Workspace → Option (Option GoError) → Outcome
unfolding after_open
after_factory p row none = probe_failed p (wrap infra_type_unknown row.infra_type)
after_factory p row (some (some e)) = if both_done p.built_ctx then dropped else probe_failed p e
after_factory p row (some none) = after_open p row p.opened

-- The part of `probeOne` before it records.
unfoldable pub probe_outcome : ProbeRun → Workspace → Outcome
unfolding after_factory
probe_outcome p row = after_factory p row p.factory

-- `recordProbeOutcome`: a change of status is a compare-and-swap from the status that the tick listed;
-- otherwise the row is read again, and written back with new probe data if its status is still the same.
-- `between` is what others call between this read and this write.
module _ (r : WorkspaceRepository) (new_status : Status) (status_error : Option WorkspaceError)
    (probed_at updated_at : ℕ) (between : List Call) where
  unfoldable pub refresh_with : Workspace → WorkspaceRepository
  refresh_with latest =
      let s = run r between in
      after s (
        update s (record (clone_workspace latest) {
          last_probe_at = probed_at;
          updated_at = updated_at;
          status_error = ite (Status-discrete new_status healthy) none (clone_error status_error);
        }))

  unfoldable pub refresh : Result RepoError Workspace → WorkspaceRepository
  unfolding refresh_with
  refresh (err e) = r
  refresh (ok latest) = ite (Status-discrete latest.status new_status) (refresh_with latest) r

unfoldable pub record_probe_outcome :
    WorkspaceRepository
    → Workspace
    → Status
    → Option WorkspaceError
    → ℕ
    → ℕ
    → ℕ
    → List Call
    → WorkspaceRepository
record_probe_outcome r row new_status status_error probed_at updated_at repo_now between =
    ite (Status-discrete row.status new_status)
      (refresh r new_status status_error probed_at updated_at between (get r row.id))
      (after r (
        update_status_cas r row.id scheduler row.status new_status status_error probed_at repo_now))

pub record ProbeState : Type 0 where
  pub repo : WorkspaceRepository
  pub stats : ProbeStats

unfoldable pub count_outcome : Status → ProbeStats → ProbeStats
count_outcome healthy stats = record stats { probes_healthy = stats.probes_healthy + 1 }
count_outcome _ stats = record stats { probes_failed = stats.probes_failed + 1 }

unfoldable pub finish_probe : ProbeRun → Workspace → ProbeState → Outcome → ProbeState
unfolding count_outcome
finish_probe p row s dropped = s
finish_probe p row s (recorded status status_error probed_at) = record {
  repo =
      record_probe_outcome s.repo row status status_error probed_at p.updated_at p.repo_now
        p.between;
  stats = count_outcome status s.stats;
}

-- `probeOne`: others may call the repository while the probe runs.
unfoldable pub probe_one : ProbeRun → Workspace → ProbeState → ProbeState
unfolding finish_probe
probe_one p row s =
    let attempted = record s {
      repo = run s.repo p.meanwhile;
      stats = record s.stats { probes_attempted = s.stats.probes_attempted + 1 };
    } in
    finish_probe p row attempted (probe_outcome p row)
