-- ===== src/Controller/Delete.antt =====
-- pkg/manager/workspace/controller.go: `Delete`, after it has taken the queued jobs away. What the infra
-- and its factory answer, and what others call of the repository, is a record.
use ana.Base.{
  ◌≡◌, ◌≢◌, refl, Bool, false, Option, none, some, List, [], ◌∷◌, Text, Result, ok, err, arith,
  if◌then◌else◌,
}
use ana.Workspace.{Workspace, RepoError, workspace_not_found}
use ana.Workspace.Failure.{GoError, ContextState}
use ana.Storage.WorkspaceRepo.{WorkspaceRepository, get, find_row, delete, get_by_alias}
use ana.Storage.WorkspaceRepo.Invariant.{IsConsistent, drop_row}
use ana.Storage.WorkspaceRepo.Calls.{Call, run}
use ana.Storage.WorkspaceRepo.Reads.{row_of_get, delete_reads}

-- `waited` is the error of the context if it was done before the install was idle.
pub record DeleteRun : Type 0 where
  pub is_stopped : Bool
  pub waited : Option ContextState
  pub factory : Option (Option GoError)
  pub has_spec : Bool
  pub opened : Option GoError
  pub before_get : List Call
  pub before_delete : List Call

pub data InfraCall : Type 0 where
  opens uninstalls clears : InfraCall

pub data DeleteError : Type 0 where
  stopped_controller : DeleteError
  wait_ended : ContextState → DeleteError
  repo_failed : RepoError → DeleteError

-- An infra that cannot be opened is not asked to uninstall; it is cleared in any case. The errors of
-- `Uninstall` and `Clear` are logged only.
unfoldable pub infra_calls : DeleteRun → List InfraCall
infra_calls d = elim d.factory [
  | none ↦ []
  | some (some e) ↦ []
  | some none ↦ elim d.opened [
    | some e ↦ opens ∷ clears ∷ []
    | none ↦ if d.has_spec then opens ∷ uninstalls ∷ clears ∷ [] else opens ∷ clears ∷ []
  ]
]

-- The repository afterwards, the calls of the infra, and the error that `Delete` returns.
pub record Deleted : Type 0 where
  pub repo : WorkspaceRepository
  pub calls : List InfraCall
  pub error : Option DeleteError

unfoldable pub delete_row : DeleteRun → Text → WorkspaceRepository → Deleted
unfolding infra_calls
delete_row d id r = elim (delete r id) [
  | ok s ↦ record { repo = s; calls = infra_calls d; error = none }
  | err e ↦ record { repo = r; calls = infra_calls d; error = some (repo_failed e) }
]

unfoldable pub delete_found :
    DeleteRun → Text → WorkspaceRepository → Result RepoError Workspace → Deleted
unfolding delete_row
delete_found d id r (err e) = record { repo = r; calls = []; error = some (repo_failed e) }
delete_found d id r (ok row) = delete_row d id (run r d.before_delete)

unfoldable pub delete_workspace : DeleteRun → Text → WorkspaceRepository → Deleted
unfolding delete_found
delete_workspace d id r =
    if d.is_stopped
    then record { repo = r; calls = []; error = some stopped_controller }
    else elim d.waited [
      | some ctx ↦ record { repo = r; calls = []; error = some (wait_ended ctx) }
      | none ↦ delete_found d id (run r d.before_get) (get (run r d.before_get) id)
    ]

delete_succeeds :
    (r : WorkspaceRepository) (id : Text) (row : Workspace)
    → r.closed ≡ false
    → find_row id r ≡ some row
    → delete r id ≡ ok (drop_row r id row)
unfolding delete
delete_succeeds r id row opened found = ground arith

run_quiet : (r : WorkspaceRepository) (calls : List Call) → calls ≡ [] → run r calls ≡ r
unfolding run
run_quiet r calls e = rw e

delete_workspace_eq :
    (d : DeleteRun) (id : Text) (r s : WorkspaceRepository) (row : Workspace)
    → d.is_stopped ≡ false
    → d.waited ≡ none
    → d.before_get ≡ []
    → d.before_delete ≡ []
    → get r id ≡ ok row
    → delete r id ≡ ok s
    → delete_workspace d id r ≡ record { repo = s; calls = infra_calls d; error = none }
unfolding delete_workspace run
delete_workspace_eq d id r s row running waited quiet_get quiet_delete read deleted = ground arith

-- A deletion that is not refused, of a workspace that an open, consistent repository holds and that
-- nobody else writes to, returns no error and removes the row, whatever the factory and the infra answer:
-- the id and the alias are no longer found, and every other id reads as before.
pub delete_workspace_lem :
    (d : DeleteRun) (id : Text) (r : WorkspaceRepository) (row : Workspace)
    → IsConsistent r
    → d.is_stopped ≡ false
    → d.waited ≡ none
    → d.before_get ≡ []
    → d.before_delete ≡ []
    → get r id ≡ ok row
    → ((delete_workspace d id r).error ≡ none)
      × (get (delete_workspace d id r).repo id ≡ err workspace_not_found)
      × (get_by_alias (delete_workspace d id r).repo row.namespace row.alias
          ≡ err workspace_not_found)
      × ((j : Text) → j ≢ id → get (delete_workspace d id r).repo j ≡ get r j)
delete_workspace_lem d id r row c running waited quiet_get quiet_delete read =
    let (opened, found) = row_of_get r id row c read in
    let deleted = delete_succeeds r id row opened found in
    let reads = delete_reads r (drop_row r id row) id row read c deleted in
    rw
      (delete_workspace_eq d id r (drop_row r id row) row running waited quiet_get quiet_delete read
        deleted)
      (refl, reads.0, reads.1, reads.2)
