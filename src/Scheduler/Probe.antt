-- ===== src/Scheduler/Probe.antt =====
-- pkg/manager/workspace/scheduler.go: what a probe leaves in the repository.
use ana.Base.{
  ℕ, ◌≡◌, refl, ap, subst, ◌∙◌, ◌≢◌, ◌⊎◌, false, Option, none, some, List, [], Text, ite, if_pos,
  if_neg, arith, Result, ok, err, after,
}
use ana.Workspace.{
  Status, init, healthy, failed, other, Status-discrete, scheduler, Workspace, WorkspaceError,
  RepoError,
}
use ana.Workspace.Clone.{clone_workspace, clone_error, clone_error_lem}
use ana.Storage.WorkspaceRepo.{
  WorkspaceRepository, find_row, get, update, update_status_cas, store_row, with_status,
  validate_known_status,
}
use ana.Storage.WorkspaceRepo.Invariant.{IsConsistent, find_row-store_row}
use ana.Storage.WorkspaceRepo.Effects.{Allowed, went_down, came_up}
use ana.Storage.WorkspaceRepo.Calls.{
  Call, run, step, updates, swaps_status, run-IsConsistent, step-IsConsistent,
}
use ana.Storage.WorkspaceRepo.Statuses.{update_status_cas-ok_iff}
use ana.Storage.WorkspaceRepo.Reads.{get_of_row}
use ana.Scheduler.{record_probe_outcome, refresh, refresh_with}

-- The row's own fields and its status kept, the rest anew.
pub update_succeeds :
    (r : WorkspaceRepository) (old w : Workspace)
    → r.closed ≡ false
    → find_row w.id r ≡ some old
    → validate_known_status w.status ≡ ok tt
    → w.status ≡ old.status
    → w.id ≡ old.id
    → w.namespace ≡ old.namespace
    → w.alias ≡ old.alias
    → w.agent_type ≡ old.agent_type
    → w.infra_type ≡ old.infra_type
    → w.created_at ≡ old.created_at
    → update r w ≡ ok (store_row r w.id (clone_workspace w))
unfolding update
update_succeeds r old w opened found known status id namespace alias agent infra created =
    ground arith

-- A workspace is the one that a probe reports.
pub record Reports (status : Status) (error : Option WorkspaceError) (probed_at : ℕ) (w : Workspace)
    : Type 0 where
  pub status_is : w.status ≡ status
  pub error_is : w.status_error ≡ ite (Status-discrete status healthy) none error
  pub probed_is : w.last_probe_at ≡ probed_at

abbrev pub IsProbed : Status → Type 0
IsProbed s = (s ≡ healthy) ⊎ (s ≡ failed)

module _ (r : WorkspaceRepository) (row : Workspace) (new_status : Status)
    (error : Option WorkspaceError) (probed_at updated_at repo_now : ℕ) (c : IsConsistent r) where
  refresh_with-IsConsistent :
      (between : List Call) (latest : Workspace)
      → IsConsistent (refresh_with r new_status error probed_at updated_at between latest)
  refresh_with-IsConsistent between latest =
      unfold refresh_with step in
      step-IsConsistent (run r between) (updates _) (run-IsConsistent r between c)

  -- What a probe records keeps the repository consistent, whatever others call meanwhile.
  pub record_probe_outcome-IsConsistent :
      (between : List Call)
      → IsConsistent
          (record_probe_outcome r row new_status error probed_at updated_at repo_now between)
  unfolding record_probe_outcome refresh
  record_probe_outcome-IsConsistent between = elim (Status-discrete row.status new_status) [
    | yes same ↦ rw (if_pos _ same) (refreshed (get r row.id))
    | no ne ↦ rw (if_neg _ ne) (
        unfold step in
        step-IsConsistent r
          (swaps_status row.id scheduler row.status new_status error probed_at repo_now) c)
  ]
    where
      refreshed :
          (found : Result RepoError Workspace)
          → IsConsistent (refresh r new_status error probed_at updated_at between found)
      refreshed (err e) = c
      refreshed (ok latest) = elim (Status-discrete latest.status new_status) [
        | yes same ↦ rw (if_pos _ same) (refresh_with-IsConsistent between latest)
        | no ne ↦ rw (if_neg _ ne) c
      ]

-- The scheduler may move a probed status to the other one.
Allowed-of_IsProbed :
    (from to : Status) → IsProbed from → IsProbed to → from ≢ to → Allowed scheduler from to
Allowed-of_IsProbed healthy failed p q ne = went_down
Allowed-of_IsProbed failed healthy p q ne = came_up
Allowed-of_IsProbed healthy healthy p q ne = absurd (ne refl)
Allowed-of_IsProbed failed failed p q ne = absurd (ne refl)
Allowed-of_IsProbed init to p q ne = ground arith
Allowed-of_IsProbed (other s) to p q ne = ground arith
Allowed-of_IsProbed healthy init p q ne = ground arith
Allowed-of_IsProbed healthy (other s) p q ne = ground arith
Allowed-of_IsProbed failed init p q ne = ground arith
Allowed-of_IsProbed failed (other s) p q ne = ground arith

validate_of_IsProbed : (s : Status) → IsProbed s → validate_known_status s ≡ ok tt
unfolding validate_known_status
validate_of_IsProbed init p = refl
validate_of_IsProbed healthy p = refl
validate_of_IsProbed failed p = refl
validate_of_IsProbed (other s) p = ground arith

pub with_status-Reports :
    (current : Workspace) (new_status : Status) (error : Option WorkspaceError) (probed_at now : ℕ)
    → Reports new_status error probed_at (with_status current new_status error probed_at now)
unfolding with_status
with_status-Reports current new_status error probed_at now = record {
  status_is = refl;
  error_is = rw (clone_error_lem error);
  probed_is = refl;
}

-- A stored row that reports what a probe found.
pub record Stored (r : WorkspaceRepository) (id : Text) (status : Status)
    (error : Option WorkspaceError) (probed_at : ℕ) : Type 0 where
  pub row : Workspace
  pub read : get r id ≡ ok row
  pub reports : Reports status error probed_at row

pub get_of_store :
    (r : WorkspaceRepository) (id : Text) (new : Workspace)
    → IsConsistent (store_row r id new)
    → r.closed ≡ false
    → get (store_row r id new) id ≡ ok new
get_of_store r id new c opened =
    get_of_row (store_row r id new) id new c opened (ground (arith, find_row-store_row r id id new))

module _ (r : WorkspaceRepository) (row current : Workspace) (new_status : Status)
    (error : Option WorkspaceError) (probed_at updated_at repo_now : ℕ) (c : IsConsistent r)
    (opened : r.closed ≡ false) (found : find_row row.id r ≡ some current) where
  abbrev outcome : List Call → WorkspaceRepository
  outcome = record_probe_outcome r row new_status error probed_at updated_at repo_now

  -- A probe of a row whose status somebody has changed since the tick listed it writes nothing.
  pub stale_probe_writes_nothing :
      (between : List Call) → current.status ≢ row.status → outcome between ≡ r
  unfolding record_probe_outcome update_status_cas refresh
  stale_probe_writes_nothing between stale = elim (Status-discrete row.status new_status) [
    | yes same ↦ rw (if_pos _ same, get_of_row r row.id current c opened found) (ground arith)
    | no ne ↦ rw (if_neg _ ne) (ground arith)
  ]

  Stored-by_cas :
      current.status ≡ row.status
      → IsProbed row.status
      → IsProbed new_status
      → row.status ≢ new_status
      → Stored (outcome []) row.id new_status error probed_at
  Stored-by_cas same p q ne = record {
    row = new;
    read = rw written (
        get_of_store r row.id new
          (rw written at (
            record_probe_outcome-IsConsistent r row new_status error probed_at updated_at repo_now c
              []))
          opened);
    reports = with_status-Reports current new_status error probed_at repo_now;
  }
    where
      new : Workspace
      new = with_status current new_status error probed_at repo_now

      written : outcome [] ≡ store_row r row.id new
      written =
          unfold record_probe_outcome in
          rw (
            if_neg _ ne,
            (update_status_cas-ok_iff r row.id scheduler row.status new_status error probed_at
                  repo_now _).1
                (
                  opened,
                  current,
                  found,
                  same,
                  Allowed-of_IsProbed row.status new_status p q ne,
                  refl,
                ),
          )

  refreshed : Workspace
  refreshed = record (clone_workspace current) {
    last_probe_at = probed_at;
    updated_at = updated_at;
    status_error = ite (Status-discrete new_status healthy) none (clone_error error);
  }

  refreshed_id : refreshed.id ≡ row.id
  unfolding refreshed clone_workspace
  refreshed_id = c.keyed row.id current found

  update-refreshed :
      current.status ≡ new_status
      → IsProbed new_status
      → update r refreshed ≡ ok (store_row r refreshed.id (clone_workspace refreshed))
  unfolding refreshed clone_workspace
  update-refreshed same q =
      update_succeeds r current refreshed opened (cc (found, c.keyed row.id current found))
        (rw same (validate_of_IsProbed new_status q)) refl refl refl refl refl refl refl

  written_by_refresh :
      current.status ≡ new_status
      → IsProbed new_status
      → row.status ≡ new_status
      → outcome [] ≡ store_row r refreshed.id (clone_workspace refreshed)
  unfolding record_probe_outcome refresh run refreshed
  written_by_refresh same q e =
      rw (if_pos _ e, get_of_row r row.id current c opened found)
        (rw (if_pos _ same) (ap (after r) (update-refreshed same q)))

  refreshed-Reports :
      current.status ≡ new_status → Reports new_status error probed_at (clone_workspace refreshed)
  unfolding refreshed clone_workspace
  refreshed-Reports same = record {
    status_is = same;
    error_is = rw (clone_error_lem error) (clone_error_lem _);
    probed_is = refl;
  }

  Stored-by_refresh :
      current.status ≡ new_status
      → IsProbed new_status
      → row.status ≡ new_status
      → Stored (outcome []) row.id new_status error probed_at
  Stored-by_refresh same q e = record {
    row = clone_workspace refreshed;
    read =
        let written = written_by_refresh same q e in
        rw written (
          subst
            (λ id.
              get (store_row r refreshed.id (clone_workspace refreshed)) id
              ≡ ok (clone_workspace refreshed))
            refreshed_id
            (get_of_store r refreshed.id (clone_workspace refreshed)
              (rw written at (
                record_probe_outcome-IsConsistent r row new_status error probed_at updated_at
                  repo_now c []))
              opened));
    reports = refreshed-Reports same;
  }

  -- In an open, consistent repository where the probed row still has the status that the tick listed, and
  -- if nobody writes between the scheduler's last read and its write, the row afterwards has the status
  -- and the instant that the probe found, and its error, or none where it found the workspace healthy.
  pub record_probe_outcome-Stored :
      current.status ≡ row.status
      → IsProbed row.status
      → IsProbed new_status
      → Stored (outcome []) row.id new_status error probed_at
  record_probe_outcome-Stored same p q = elim (Status-discrete row.status new_status) [
    | yes e ↦ Stored-by_refresh (same ∙ e) q e
    | no ne ↦ Stored-by_cas same p q ne
  ]
