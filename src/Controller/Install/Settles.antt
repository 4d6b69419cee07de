-- ===== src/Controller/Install/Settles.antt =====
-- pkg/manager/workspace/controller.go: the status in which `runInstall` leaves its workspace.
use ana.Base.{
  ℕ, ◌≡◌, ◌≢◌, refl, subst, ◌∙◌, false, Option, none, some, List, [], Text, arith, Result, ok, err,
  Result-cases, ap,
}
use ana.Workspace.{
  Status, init, failed, controller, AttachedPlugin, Workspace, WorkspaceError, RepoError,
}
use ana.Storage.WorkspaceRepo.{
  WorkspaceRepository, find_row, get, update_status_cas, store_row, with_status,
}
use ana.Storage.WorkspaceRepo.Invariant.{IsConsistent}
use ana.Storage.WorkspaceRepo.Effects.{Allowed, install_failed}
use ana.Storage.WorkspaceRepo.Calls.{Call, run, step, swaps_status, step-IsConsistent}
use ana.Storage.WorkspaceRepo.Statuses.{update_status_cas-ok_iff}
use ana.Storage.WorkspaceRepo.Reads.{row_of_get}
use ana.Scheduler.Probe.{Stored, get_of_store, with_status-Reports}
use ana.Controller.{InstallJob}
use ana.Controller.Install.{
  InstallRun, Wait, retry_repo_write, settle, install_effects, transition_to_failed, finalize,
  complete, run_install, clears_stale,
}

-- Nobody else calls the repository from the install's first access to its last.
pub record IsUndisturbed (p : InstallRun) : Type 0 where
  pub quiet_effects : p.meanwhile ≡ []
  pub quiet_update : p.before_update ≡ []
  pub quiet_settle : p.before_settle ≡ []
  pub quiet_failure : p.before_failure ≡ []

-- A write that succeeds at once is not retried.
pub retry_at_once :
    (write : ℕ → WorkspaceRepository → Result RepoError WorkspaceRepository) (now : ℕ)
    (waits : Wait × Wait) (r s : WorkspaceRepository)
    → write now r ≡ ok s
    → retry_repo_write write now waits r ≡ (s, none)
unfolding retry_repo_write
retry_at_once write now waits r s e = ground arith

pub run_none : (r : WorkspaceRepository) (calls : List Call) → calls ≡ [] → run r calls ≡ r
unfolding run
run_none r calls e = rw e

module _ (r : WorkspaceRepository) (id : Text) (row : Workspace) (opened : r.closed ≡ false)
    (found : find_row id r ≡ some row) (next : Status) (error : Option WorkspaceError)
    (probed now : ℕ) where
  cas_from_init :
      row.status ≡ init
      → Allowed controller init next
      → update_status_cas r id controller init next error probed now
        ≡ ok (store_row r id (with_status row next error probed now))
  cas_from_init same a =
      (update_status_cas-ok_iff r id controller init next error probed now _).1
        (opened, row, found, same, a, refl)

  pub settle_from_init :
      row.status ≡ init
      → Allowed controller init next
      → settle id next error probed now r
        ≡ ok (store_row r id (with_status row next error probed now))
  unfolding settle
  settle_from_init same a = rw (cas_from_init same a)

  settle_elsewhere : row.status ≢ init → settle id next error probed now r ≡ ok r
  unfolding settle update_status_cas
  settle_elsewhere other = ground arith

  step_from_init :
      row.status ≡ init
      → Allowed controller init next
      → step r (swaps_status id controller init next error probed now)
        ≡ store_row r id (with_status row next error probed now)
  unfolding step
  step_from_init same a = rw (cas_from_init same a)

  pub settled-IsConsistent :
      IsConsistent r
      → row.status ≡ init
      → Allowed controller init next
      → IsConsistent (store_row r id (with_status row next error probed now))
  settled-IsConsistent c same a =
      subst IsConsistent (step_from_init same a)
        (step-IsConsistent r (swaps_status id controller init next error probed now) c)

  pub settled-Stored :
      IsConsistent r
      → row.status ≡ init
      → Allowed controller init next
      → Stored (store_row r id (with_status row next error probed now)) id next error probed
  settled-Stored c same a = record {
    row = with_status row next error probed now;
    read =
        get_of_store r id (with_status row next error probed now) (settled-IsConsistent c same a)
          opened;
    reports = with_status-Reports row next error probed now;
  }

pub transition_from_init :
    (p : InstallRun) (r : WorkspaceRepository) (id : Text) (row : Workspace)
    (error : WorkspaceError) (probed : ℕ)
    → IsUndisturbed p
    → IsConsistent r
    → r.closed ≡ false
    → find_row id r ≡ some row
    → row.status ≡ init
    → Stored (transition_to_failed p id error probed r) id failed (some error) probed
unfolding transition_to_failed
transition_from_init p r id row error probed quiet c opened found same =
    rw
      (
        transition_to_failed,
        run_none r p.before_failure quiet.quiet_failure,
        retry_at_once (settle id failed (some error) probed) p.repo_now p.failure_waits r _ (
            settle_from_init r id row opened found failed (some error) probed p.repo_now same
              install_failed),
      )
      (settled-Stored r id row opened found failed (some error) probed p.repo_now c same
        install_failed)

transition_elsewhere :
    (p : InstallRun) (r : WorkspaceRepository) (id : Text) (row : Workspace)
    (error : WorkspaceError) (probed : ℕ)
    → IsUndisturbed p
    → r.closed ≡ false
    → find_row id r ≡ some row
    → row.status ≢ init
    → transition_to_failed p id error probed r ≡ r
unfolding transition_to_failed
transition_elsewhere p r id row error probed quiet opened found other =
    rw
      (
        transition_to_failed,
        run_none r p.before_failure quiet.quiet_failure,
        retry_at_once (settle id failed (some error) probed) p.repo_now p.failure_waits r r
            (settle_elsewhere r id row opened found failed (some error) probed p.repo_now other),
      )
      refl

-- An undisturbed install, by what its effects gave.
pub run_install_failed :
    (p : InstallRun) (job : InstallJob) (r : WorkspaceRepository) (error : WorkspaceError)
    (probed : ℕ)
    → IsUndisturbed p
    → install_effects p job ≡ err (error, probed)
    → (run_install p job r).0 ≡ transition_to_failed p job.workspace.id error probed r
unfolding run_install complete
run_install_failed p job r error probed quiet e = rw (run_none r p.meanwhile quiet.quiet_effects, e)

pub run_install_effected :
    (p : InstallRun) (job : InstallJob) (r : WorkspaceRepository)
    (attached : Option (List AttachedPlugin)) (row : Workspace)
    → IsUndisturbed p
    → install_effects p job ≡ ok attached
    → get r job.workspace.id ≡ ok row
    → run_install p job r ≡ finalize p job.workspace.id attached r (ok row)
unfolding run_install complete
run_install_effected p job r attached row quiet e read =
    rw (run_none r p.meanwhile quiet.quiet_effects, e, read)

pub finalize_stale :
    (p : InstallRun) (id : Text) (attached : Option (List AttachedPlugin)) (r : WorkspaceRepository)
    (row : Workspace)
    → row.status ≢ init
    → finalize p id attached r (ok row) ≡ (r, clears_stale row)
unfolding finalize
finalize_stale p id attached r row other = ground arith

-- An install that nobody disturbs changes nothing in an open, consistent repository in which its
-- workspace is no longer in `init`.
pub run_install_elsewhere :
    (p : InstallRun) (job : InstallJob) (r : WorkspaceRepository) (row : Workspace)
    → IsUndisturbed p
    → IsConsistent r
    → r.closed ≡ false
    → get r job.workspace.id ≡ ok row
    → row.status ≢ init
    → (run_install p job r).0 ≡ r
run_install_elsewhere p job r row quiet c opened read other =
    Result-cases (λ e. install_effects p job ≡ e → (run_install p job r).0 ≡ r)
      (install_effects p job)
      (λ attached _ e.
        ap (λ x. x.0) (run_install_effected p job r attached row quiet e read)
        ∙ ap (λ x. x.0) (finalize_stale p job.workspace.id attached r row other))
      (λ f _ e.
        run_install_failed p job r f.0 f.1 quiet e
        ∙ transition_elsewhere p r job.workspace.id row f.0 f.1 quiet opened
            (row_of_get r job.workspace.id row c read).1 other)
      refl
