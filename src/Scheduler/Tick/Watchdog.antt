-- ===== src/Scheduler/Tick/Watchdog.antt =====
-- pkg/manager/workspace/scheduler.go: the install watchdog of a tick.
use ana.Base.{ℕ, ◌-◌, ◌<◌, ◌≡◌, ◌≢◌, refl, true, false, some, [], codes, arith}
use ana.Workspace.{init, failed, scheduler, Workspace, WorkspaceError}
use ana.Workspace.Failure.{failure_from_error}
use ana.Storage.WorkspaceRepo.{
  WorkspaceRepository, find_row, update_status_cas, store_row, with_status,
}
use ana.Storage.WorkspaceRepo.Invariant.{IsConsistent}
use ana.Storage.WorkspaceRepo.Effects.{timed_out}
use ana.Storage.WorkspaceRepo.Calls.{run, step, swaps_status, step-IsConsistent}
use ana.Storage.WorkspaceRepo.Statuses.{update_status_cas-ok_iff}
use ana.Scheduler.Probe.{Stored, get_of_store, with_status-Reports}
use ana.Scheduler.Tick.{TickRun, install_timed_out, time_out, timeout_error, look_at}

abbrev pub watchdog_error : TickRun → WorkspaceError
watchdog_error t = failure_from_error t.now (codes "install") timeout_error

module _ (timeout : ℕ) (t : TickRun) (row current : Workspace) (r : WorkspaceRepository)
    (c : IsConsistent r) (opened : r.closed ≡ false)
    (found : find_row row.id r ≡ some current) where
  late :
      0 < timeout
      → row.status ≡ init
      → timeout < t.now - row.created_at
      → install_timed_out timeout t.now row ≡ true
  unfolding install_timed_out
  late h e k = ground arith

  time_out-IsConsistent : IsConsistent (time_out t row r)
  time_out-IsConsistent =
      unfold step time_out in
      step-IsConsistent r
        (swaps_status row.id scheduler init failed (some (watchdog_error t)) 0 t.repo_now) c

  time_out_init :
      current.status ≡ init → Stored (time_out t row r) row.id failed (some (watchdog_error t)) 0
  time_out_init e = record {
    row = new;
    read = rw written (get_of_store r row.id new (rw written at time_out-IsConsistent) opened);
    reports = with_status-Reports current failed (some (watchdog_error t)) 0 t.repo_now;
  }
    where
      new : Workspace
      new = with_status current failed (some (watchdog_error t)) 0 t.repo_now

      written : time_out t row r ≡ store_row r row.id new
      written =
          unfold time_out in
          rw (
            (update_status_cas-ok_iff r row.id scheduler init failed (some (watchdog_error t)) 0
                t.repo_now _).1
              (opened, current, found, e, timed_out, refl))

  -- The watchdog, in an open, consistent repository that nobody else calls just before it: a row that
  -- was listed in `init`, longer ago than a positive timeout, and that is in `init` yet is failed with the
  -- timeout error.
  pub look_at_late :
      t.before row.id ≡ []
      → 0 < timeout
      → row.status ≡ init
      → timeout < t.now - row.created_at
      → current.status ≡ init
      → Stored (look_at timeout t row r) row.id failed (some (watchdog_error t)) 0
  unfolding look_at run
  look_at_late alone h e k still = rw (alone, late h e k) (time_out_init still)

  -- A row that has left `init` since it was listed is left alone, however late it was.
  pub look_at_moved : t.before row.id ≡ [] → current.status ≢ init → look_at timeout t row r ≡ r
  unfolding look_at run time_out update_status_cas
  look_at_moved alone moved = rw alone (ground arith)
