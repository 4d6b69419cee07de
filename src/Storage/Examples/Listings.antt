-- ===== src/Storage/Examples/Listings.antt =====
-- The theorems on listings, at two rows.
use ana.Base.{◌≡◌, refl, [], ◌∷◌, Text, Text-discrete, lookup, insert, erase, arith}
use ana.Workspace.{no_options}
use ana.Storage.WorkspaceRepo.{
  AliasKey-discrete, WorkspaceRepository, new_workspace_repository, find_row, find_id,
  insert_workspace, validate_known_status,
}
use ana.Storage.WorkspaceRepo.Calls.{inserts, run, step, run_new-IsConsistent}
use ana.Storage.WorkspaceRepo.Listing.{list}
use ana.Storage.WorkspaceRepo.Listing.Pages.{list_order_free}
use ana.Storage.Examples.Data.{first, second, repo, repo-IsConsistent}

-- The rows of `repo`, inserted the other way round: its map is in another order.
abbrev swapped_repo : WorkspaceRepository
swapped_repo = run new_workspace_repository (inserts first ∷ inserts second ∷ [])

same_rows : (id : Text) → find_row id repo ≡ find_row id swapped_repo
unfolding run step insert_workspace find_row find_id lookup validate_known_status Text-discrete
    AliasKey-discrete insert erase
same_rows id = ground arith

both_open : repo.closed ≡ swapped_repo.closed
unfolding run step insert_workspace find_row find_id lookup validate_known_status Text-discrete
    AliasKey-discrete insert erase
both_open = refl

list_order_free_example : list repo no_options ≡ list swapped_repo no_options
list_order_free_example =
    list_order_free repo swapped_repo no_options repo-IsConsistent
      (run_new-IsConsistent (inserts first ∷ inserts second ∷ [])) both_open same_rows
