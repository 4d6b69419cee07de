-- ===== src/Storage/WorkspaceRepo/Calls.antt =====
-- pkg/storage/memory/workspace_repo.go: histories. The mutex makes each method one step, so the calls
-- of several goroutines are a list of calls in the order in which they got the mutex.
use ana.Base.{ℕ, ◌≡◌, refl, Option, some, List, [], ◌∷◌, Text, arith, Result, ok, err, after}
use ana.Workspace.{Status, StatusWriter, Workspace, WorkspaceError, RepoError}
use ana.Workspace.Clone.{clone_workspace, clone_workspace-IsCopy, IsCopy, clone_error_lem}
use ana.Storage.WorkspaceRepo.{
  WorkspaceRepository, new_workspace_repository, find_row, find_id, insert_workspace, update,
  update_status, update_status_cas, delete, close, with_status,
}
use ana.Storage.WorkspaceRepo.Invariant.{
  IsConsistent, new-IsConsistent, store_row-IsConsistent, add_row-IsConsistent,
  drop_row-IsConsistent,
}
use ana.Storage.WorkspaceRepo.Effects.{
  Restatused, insert_workspace_effect, update_effect, update_status_effect,
  update_status_cas_effect, delete_effect, IsKnown-of_validate,
}

-- A call of a method that writes, with the instant at which `time.Now()` is read.
pub data Call : Type 0 where
  inserts updates : Workspace → Call
  sets_status : Text → Status → Option WorkspaceError → ℕ → ℕ → Call
  swaps_status : Text → StatusWriter → Status → Status → Option WorkspaceError → ℕ → ℕ → Call
  deletes : Text → Call
  closes : Call

unfoldable pub step : WorkspaceRepository → Call → WorkspaceRepository
step r (inserts w) = after r (insert_workspace r w)
step r (updates w) = after r (update r w)
step r (sets_status id next error probed now) = after r (update_status r id next error probed now)
step r (swaps_status id writer expect next error probed now) =
    after r (update_status_cas r id writer expect next error probed now)
step r (deletes id) = after r (delete r id)
step r closes = close r

unfoldable pub run : WorkspaceRepository → List Call → WorkspaceRepository
run r [] = r
run r (c ∷ cs) = run (step r c) cs

-- What holds before a call, and after it wherever it succeeds, holds after it.
pub after_cases :
    (P : WorkspaceRepository → Type 0) (r : WorkspaceRepository)
    (result : Result RepoError WorkspaceRepository)
    → P r
    → ((s : WorkspaceRepository) → result ≡ ok s → P s)
    → P (after r result)
after_cases P r (ok s) before good = good s refl
after_cases P r (err e) before good = before

with_status-IsCopy :
    (row : Workspace) (next : Status) (error : Option WorkspaceError) (probed now : ℕ)
    → IsCopy row
    → IsCopy (with_status row next error probed now)
unfolding with_status clone_workspace
with_status-IsCopy row next error probed now h = record {
  copied =
      ground
        (arith, h.copied, clone_error_lem (with_status row next error probed now).status_error);
}

Restatused-IsConsistent :
    {r s : WorkspaceRepository} {id : Text} {next : Status} {error : Option WorkspaceError}
    {probed now : ℕ}
    → IsConsistent r
    → Restatused r s id next error probed now
    → IsConsistent s
unfolding with_status
Restatused-IsConsistent {r} {s} {id} {next} {error} {probed} {now} h u = rw (u.written) (
    store_row-IsConsistent r h id u.row (with_status u.row next error probed now) u.found refl refl
      u.known (with_status-IsCopy u.row next error probed now (h.copied id u.row u.found)))

pub insert_workspace-IsConsistent :
    (r s : WorkspaceRepository) (w : Workspace)
    → IsConsistent r
    → insert_workspace r w ≡ ok s
    → IsConsistent s
insert_workspace-IsConsistent r s w h e =
    let effect = insert_workspace_effect r s w e in
    rw (effect.3) (
      add_row-IsConsistent r h (clone_workspace w) (unfold clone_workspace in effect.0)
        (unfold clone_workspace in effect.1)
        (unfold clone_workspace in IsKnown-of_validate w.status effect.2)
        (clone_workspace-IsCopy w))

update-IsConsistent :
    (r s : WorkspaceRepository) (w : Workspace)
    → IsConsistent r
    → update r w ≡ ok s
    → IsConsistent s
update-IsConsistent r s w h e =
    let (old, found, same_status, same_key, written) = update_effect r s w e in
    let kept : Workspace = record w { id = old.id; created_at = old.created_at } in
    let found' : find_row old.id r ≡ some old = cc (found, h.keyed w.id old found) in
    rw written (
      store_row-IsConsistent r h old.id old (clone_workspace kept) found'
        (unfold clone_workspace in refl) (unfold clone_workspace in same_key)
        (unfold clone_workspace in rw same_status (h.known w.id old found))
        (clone_workspace-IsCopy kept))

pub delete-IsConsistent :
    (r s : WorkspaceRepository) (id : Text) → IsConsistent r → delete r id ≡ ok s → IsConsistent s
delete-IsConsistent r s id h e =
    let (row, found, written) = delete_effect r s id e in
    rw written (drop_row-IsConsistent r h id row found)

close-IsConsistent : (r : WorkspaceRepository) → IsConsistent r → IsConsistent (close r)
unfolding close find_row find_id
close-IsConsistent r h = record {
  functional = h.functional;
  keyed = h.keyed;
  indexed = h.indexed;
  backed = h.backed;
  known = h.known;
  copied = h.copied;
}

pub step-IsConsistent :
    (r : WorkspaceRepository) (c : Call) → IsConsistent r → IsConsistent (step r c)
unfolding step
step-IsConsistent r (inserts w) h =
    after_cases IsConsistent r (insert_workspace r w) h λ s. insert_workspace-IsConsistent r s w h
step-IsConsistent r (updates w) h =
    after_cases IsConsistent r (update r w) h λ s. update-IsConsistent r s w h
step-IsConsistent r (sets_status id next error probed now) h =
    after_cases IsConsistent r (update_status r id next error probed now) h
      λ s e. Restatused-IsConsistent h (update_status_effect r s id next error probed now e).0
step-IsConsistent r (swaps_status id writer expect next error probed now) h =
    after_cases IsConsistent r (update_status_cas r id writer expect next error probed now) h λ s e.
      Restatused-IsConsistent h
        (update_status_cas_effect r s id writer expect next error probed now e).0
step-IsConsistent r (deletes id) h =
    after_cases IsConsistent r (delete r id) h λ s. delete-IsConsistent r s id h
step-IsConsistent r closes h = close-IsConsistent r h

pub run-IsConsistent :
    (r : WorkspaceRepository) (cs : List Call) → IsConsistent r → IsConsistent (run r cs)
unfolding run
run-IsConsistent r [] h = h
run-IsConsistent r (c ∷ cs) h = run-IsConsistent (step r c) cs (step-IsConsistent r c h)

-- Whatever the calls, and whichever of them fail, the two maps of a repository that began empty agree:
-- rows stand under their id, each row's namespace and alias lead to its id, each entry of the alias map
-- leads to a row with that namespace and alias, no id has two rows, and each row has a known status and
-- is in the form of a copy.
pub run_new-IsConsistent : (cs : List Call) → IsConsistent (run new_workspace_repository cs)
run_new-IsConsistent cs = run-IsConsistent new_workspace_repository cs new-IsConsistent
