-- ===== src/Storage/Examples/Methods.antt =====
-- The theorems on the repository's methods, at two rows.
use ana.Base.{
  ◌≡◌, ◌≢◌, refl, none, List, [], ◌∷◌, codes, arith, ok, err, lookup, insert, erase, Text-discrete,
}
use ana.Workspace.{
  repository_closed, init, healthy, failed, controller, scheduler, Workspace, workspace_not_found,
  alias_conflict, status_precondition_failed,
}
use ana.Workspace.Clone.{clone_workspace}
use ana.Storage.Cursor.{encode_cursor, parse_workspace_cursor, parse_workspace_cursor-encode_cursor}
use ana.Storage.WorkspaceRepo.{
  AliasKey-discrete, WorkspaceRepository, find_row, find_id, insert_workspace, get, get_by_alias,
  update_status_cas, delete, close, store_row, with_status, validate_known_status,
}
use ana.Storage.WorkspaceRepo.Invariant.{IsConsistent, add_row, drop_row}
use ana.Storage.WorkspaceRepo.Effects.{timed_out}
use ana.Storage.WorkspaceRepo.Calls.{
  Call, inserts, swaps_status, deletes, step, run, run_new-IsConsistent,
}
use ana.Storage.WorkspaceRepo.Statuses.{
  update_status_cas-ok_iff, CasEffect, update_status_cas_lem, cas_excludes, HasLeftInit,
  run-HasLeftInit,
}
use ana.Storage.WorkspaceRepo.Reads.{
  insert_workspace_reads, get_by_alias_iff, get_of_row, delete_reads,
  insert_workspace-alias_conflict_iff, run_closed,
}
use ana.Storage.Examples.Data.{
  first, second, third, insertions, repo, repo-IsConsistent, repo_open, repo_first, repo_second,
  repo_third,
}

run_new-IsConsistent_example : IsConsistent repo
run_new-IsConsistent_example = run_new-IsConsistent insertions

abbrev swapped : WorkspaceRepository
swapped = store_row repo (codes "w2") (with_status (clone_workspace second) failed none 0 9)

second_init : (clone_workspace second).status ≡ init
unfolding clone_workspace
second_init = refl

swap_happens : update_status_cas repo (codes "w2") scheduler init failed none 0 9 ≡ ok swapped
swap_happens =
    (update_status_cas-ok_iff repo (codes "w2") scheduler init failed none 0 9 swapped).1
      (repo_open, clone_workspace second, repo_second, second_init, timed_out, refl)

update_status_cas_lem_example : CasEffect repo (codes "w2") scheduler init failed none 0 9 swapped
update_status_cas_lem_example =
    (update_status_cas_lem repo (codes "w2") scheduler init failed none 0 9).1 swapped swap_happens

cas_excludes_example :
    update_status_cas swapped (codes "w2") controller init healthy none 8 10
    ≡ err status_precondition_failed
cas_excludes_example =
    cas_excludes repo swapped (codes "w2") scheduler controller init failed healthy none none 0 9 8
      10 swap_happens

first-HasLeftInit : HasLeftInit (codes "w1") repo
unfolding clone_workspace
first-HasLeftInit row e = ground (arith, repo_first, e)

abbrev later : List Call
later =
    swaps_status (codes "w1") scheduler healthy failed none 7 8
    ∷ inserts third
    ∷ deletes (codes "w2")
    ∷ []

third_ne : third.id ≢ codes "w1"
third_ne e = ground arith

run-HasLeftInit_example : HasLeftInit (codes "w1") (run repo later)
run-HasLeftInit_example =
    run-HasLeftInit (codes "w1") repo later repo-IsConsistent (tt, (third_ne, (tt, tt)))
      first-HasLeftInit

insert_third : insert_workspace repo third ≡ ok (add_row repo (clone_workspace third))
unfolding insert_workspace run step find_row find_id lookup validate_known_status Text-discrete
    AliasKey-discrete insert erase clone_workspace
insert_third = refl

insert_workspace_reads_example :
    get (add_row repo (clone_workspace third)) (codes "w3") ≡ ok (clone_workspace third)
insert_workspace_reads_example =
    (insert_workspace_reads repo (add_row repo (clone_workspace third)) third insert_third).0

get-first : get repo (codes "w1") ≡ ok (clone_workspace first)
get-first =
    get_of_row repo (codes "w1") (clone_workspace first) repo-IsConsistent repo_open repo_first

get_by_alias_iff_example : get_by_alias repo (codes "ns") (codes "a") ≡ ok (clone_workspace first)
unfolding clone_workspace
get_by_alias_iff_example =
    (get_by_alias_iff repo (codes "ns") (codes "a") (clone_workspace first) repo-IsConsistent).1
      (get-first, refl)

delete-first : delete repo (codes "w1") ≡ ok (drop_row repo (codes "w1") (clone_workspace first))
unfolding delete run step insert_workspace find_row find_id lookup validate_known_status
    Text-discrete AliasKey-discrete insert erase
delete-first = refl

delete_reads_example :
    get (drop_row repo (codes "w1") (clone_workspace first)) (codes "w1") ≡ err workspace_not_found
delete_reads_example =
    (delete_reads repo (drop_row repo (codes "w1") (clone_workspace first)) (codes "w1")
      (clone_workspace first) get-first repo-IsConsistent delete-first).0

-- A fresh id under the alias of the first row.
abbrev clash : Workspace
clash = record third { alias = codes "a" }

insert_workspace-alias_conflict_iff_example : insert_workspace repo clash ≡ err alias_conflict
unfolding clone_workspace validate_known_status
insert_workspace-alias_conflict_iff_example =
    (insert_workspace-alias_conflict_iff repo clash repo-IsConsistent repo_open repo_third refl).1
      (clone_workspace first, get-first, refl)

run_closed_example :
    get_by_alias (run (close repo) later) (codes "ns") (codes "a") ≡ err repository_closed
unfolding close
run_closed_example = (run_closed (close repo) later refl).2 (codes "ns") (codes "a")

parse_workspace_cursor-encode_cursor_example :
    parse_workspace_cursor (encode_cursor (codes "ns") (codes "b")) ≡ ok (codes "ns", codes "b")
parse_workspace_cursor-encode_cursor_example =
    parse_workspace_cursor-encode_cursor (codes "ns") (codes "b") (omega arith) (omega arith)
      (omega arith)
