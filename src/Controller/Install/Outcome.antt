-- ===== src/Controller/Install/Outcome.antt =====
-- pkg/manager/workspace/controller.go: what `runInstall` leaves in the repository.
use ana.Base.{
  ◌≡◌, refl, subst, ◌∙◌, false, Option, none, some, List, Text, arith, Result, ok, err,
  Result-cases, ap,
}
use ana.Workspace.{init, healthy, failed, AttachedPlugin, Workspace}
use ana.Workspace.Clone.{clone_workspace, clone_attached_plugins}
use ana.Storage.WorkspaceRepo.{
  WorkspaceRepository, find_row, get, update, store_row, with_status, validate_known_status,
}
use ana.Storage.WorkspaceRepo.Invariant.{IsConsistent, find_row-store_row}
use ana.Storage.WorkspaceRepo.Effects.{installed}
use ana.Storage.WorkspaceRepo.Calls.{run, step, updates, step-IsConsistent}
use ana.Storage.WorkspaceRepo.Reads.{row_of_get}
use ana.Scheduler.Probe.{Stored, Reports, get_of_store, with_status-Reports, update_succeeds}
use ana.Controller.{InstallJob}
use ana.Controller.Install.{
  InstallRun, retry_repo_write, settle, Failure, install_effects, mark_healthy, finalize,
  run_install, settled,
}
use ana.Controller.Install.Settles.{
  IsUndisturbed, retry_at_once, run_none, settle_from_init, settled-IsConsistent,
  transition_from_init, run_install_failed, run_install_effected,
}

update-step :
    (r : WorkspaceRepository) (w : Workspace) (s : WorkspaceRepository)
    → update r w ≡ ok s
    → step r (updates w) ≡ s
unfolding step
update-step r w s e = rw e

module _ (p : InstallRun) (r : WorkspaceRepository) (id : Text) (row : Workspace)
    (attached : Option (List AttachedPlugin)) (quiet : IsUndisturbed p) (c : IsConsistent r)
    (opened : r.closed ≡ false) (found : find_row id r ≡ some row) (same : row.status ≡ init) where
  abbrev updated : Workspace
  updated = record row { plugins = attached; updated_at = p.updated_at }

  abbrev stored : WorkspaceRepository
  stored = store_row r row.id (clone_workspace updated)

  update_stores : update r updated ≡ ok stored
  unfolding validate_known_status
  update_stores =
      update_succeeds r row updated opened (cc (found, c.keyed id row found)) (ground arith) refl
        refl refl refl refl refl refl

  stored-IsConsistent : IsConsistent stored
  stored-IsConsistent =
      subst IsConsistent (update-step r updated stored update_stores)
        (step-IsConsistent r (updates updated) c)

  stored_found : find_row row.id stored ≡ some (clone_workspace updated)
  stored_found = ground (arith, find_row-store_row r row.id row.id (clone_workspace updated))

  stored_init : (clone_workspace updated).status ≡ init
  unfolding clone_workspace
  stored_init = same

  abbrev healthy_row : Workspace
  healthy_row = with_status (clone_workspace updated) healthy none p.probed_at p.repo_now

  update_once :
      retry_repo_write (λ now s. update s updated) p.repo_now p.waits (run r p.before_update)
      ≡ (stored, none)
  update_once =
      ap (retry_repo_write (λ now s. update s updated) p.repo_now p.waits)
        (run_none r p.before_update quiet.quiet_update)
      ∙ retry_at_once (λ now s. update s updated) p.repo_now p.waits r stored update_stores

  settle_once :
      retry_repo_write
        (settle row.id healthy none p.probed_at)
        p.repo_now
        p.settle_waits
        (run stored p.before_settle)
      ≡ (store_row stored row.id healthy_row, none)
  settle_once =
      ap (retry_repo_write (settle row.id healthy none p.probed_at) p.repo_now p.settle_waits)
        (run_none stored p.before_settle quiet.quiet_settle)
      ∙ retry_at_once (settle row.id healthy none p.probed_at) p.repo_now p.settle_waits stored _ (
          settle_from_init stored row.id (clone_workspace updated) opened stored_found healthy none
            p.probed_at p.repo_now stored_init installed)

  finalize_updates : finalize p id attached r (ok row) ≡ mark_healthy p id row (stored, none)
  unfolding finalize
  finalize_updates = ground (arith, update_once, same)

  mark_healthy_once :
      mark_healthy p id row (stored, none) ≡ (store_row stored row.id healthy_row, false)
  unfolding mark_healthy settled
  mark_healthy_once = ground (arith, settle_once)

  healthy_read : get (finalize p id attached r (ok row)).0 id ≡ ok healthy_row
  healthy_read =
      subst (λ i. get (finalize p id attached r (ok row)).0 i ≡ ok healthy_row)
        (c.keyed id row found)
        (rw (finalize_updates, mark_healthy_once)
          (get_of_store stored row.id healthy_row
            (settled-IsConsistent stored row.id (clone_workspace updated) opened stored_found
              healthy none p.probed_at p.repo_now stored-IsConsistent stored_init installed)
            opened))

  healthy_plugins : healthy_row.plugins ≡ clone_attached_plugins attached
  unfolding with_status clone_workspace
  healthy_plugins = refl

-- What an install leaves, by what its effects gave: the failure, or the attached plugins in good health.
abbrev pub Settles :
    InstallRun → Text → WorkspaceRepository → Result Failure (Option (List AttachedPlugin)) → Type 0
Settles p id r (err (error, probed_at)) = Stored r id failed (some error) probed_at
Settles p id r (ok attached) =
    (row : Workspace) × (get r id ≡ ok row)
    × Reports healthy none p.probed_at row
    × (row.plugins ≡ clone_attached_plugins attached)

healthy-Settles :
    (p : InstallRun) (r : WorkspaceRepository) (id : Text) (row : Workspace)
    (attached : Option (List AttachedPlugin))
    → IsUndisturbed p
    → IsConsistent r
    → r.closed ≡ false
    → find_row id r ≡ some row
    → row.status ≡ init
    → Settles p id (finalize p id attached r (ok row)).0 (ok attached)
healthy-Settles p r id row attached quiet c opened found same =
    let new = healthy_row p r id row attached quiet c opened found same in
    (
      new,
      healthy_read p r id row attached quiet c opened found same,
      with_status-Reports _ healthy none p.probed_at p.repo_now,
      healthy_plugins p r id row attached quiet c opened found same,
    )

-- An install that nobody disturbs, of a workspace in `init` in an open, consistent repository, leaves its
-- row out of `init`: if some stage of it failed, the row is failed with this failure and the instant of
-- the probe, and otherwise it is healthy, with the attached plugins, no error and the instant of the probe.
pub run_install-Settles :
    (p : InstallRun) (job : InstallJob) (r : WorkspaceRepository) (row : Workspace)
    → IsUndisturbed p
    → IsConsistent r
    → r.closed ≡ false
    → get r job.workspace.id ≡ ok row
    → row.status ≡ init
    → Settles p job.workspace.id (run_install p job r).0 (install_effects p job)
run_install-Settles p job r row quiet c opened read same =
    let found = (row_of_get r job.workspace.id row c read).1 in
    Result-cases
      (λ e. install_effects p job ≡ e → Settles p job.workspace.id (run_install p job r).0 e)
      (install_effects p job)
      (λ attached _ e.
        rw (run_install_effected p job r attached row quiet e read)
          (healthy-Settles p r job.workspace.id row attached quiet c opened found same))
      (λ f _ e.
        rw (run_install_failed p job r f.0 f.1 quiet e)
          (transition_from_init p r job.workspace.id row f.0 f.1 quiet c opened found same))
      refl
