-- ===== src/Manager/Workspaces/Dirs.antt =====
-- pkg/manager/manager.go: ensureWorkspaceInfraUniqueness, and what CreateWorkspace keeps.
use mathlib.Core.List.{Memᴰ}
use ana.Base.{
  ℕ, zero, suc, ◌<◌, ◌≡◌, ◌≢◌, refl, ap, ◌∙◌, inl, inr, true, false, ◌||◌, Option, none, some, List,
  [], ◌∷◌, ◌++◌, length, Text, arith, Bool-cases, if◌then◌else◌, ok, err,
}
use ana.Workspace.{Workspace, ListOptions}
use mathlib.Core.Option
use ana.Workspace.Value.{
  Object, Value, null, opaque, text, nil_list, list, object, member, clone_map_any, deep_clone_any,
  member-clone_map_any,
}
use ana.Storage.WorkspaceRepo.{WorkspaceRepository, workspace_alias_key, find_row}
use ana.Storage.WorkspaceRepo.Invariant.{IsConsistent, add_row, find_row-add_row}
use ana.Storage.WorkspaceRepo.Listing
use ana.Storage.WorkspaceRepo.Listing.{matches_options}
use ana.Storage.WorkspaceRepo.Listing.Rows.{kept_rows}
use ana.Storage.WorkspaceRepo.Listing.Cursors.{IsEncodable, at_cursor}
use ana.Scheduler.ListAll.{collect_pages, collect_pages_lem, is_empty}
use ana.Manager.Packages.{Result-split}
use ana.Manager.Workspaces.{
  localdir_infra_type, infra_option_dir, localdir_dir_option, dir_of_value, same_dir, has_conflict,
  check_pages, localdir_rows,
}
use ana.Manager.Validation.{dir_conflict}

local_matches :
    (w : Workspace) → w.infra_type ≡ localdir_infra_type → matches_options localdir_rows w ≡ true
unfolding matches_options
local_matches w local = ground arith

module _ (clean : Text → Text) (want : Text) where
  has_conflict-append :
      (xs ys : List Workspace)
      → has_conflict clean want (xs ++ ys)
        ≡ (has_conflict clean want xs || has_conflict clean want ys)
  unfolding has_conflict
  has_conflict-append [] ys = refl
  has_conflict-append (x ∷ xs) ys = ground (arith, has_conflict-append xs ys)

  -- What was collected before a round is collected in the end.
  collect_pages_conflict :
      (fuel : ℕ) (r : WorkspaceRepository) (opts : ListOptions) (done all : List Workspace)
      → collect_pages fuel r opts done ≡ some (ok all)
      → has_conflict clean want done ≡ true
      → has_conflict clean want all ≡ true
  unfolding collect_pages
  collect_pages_conflict zero r opts done all e h = cc
  collect_pages_conflict (suc fuel) r opts done all e h =
      elim (Result-split (Listing.list r opts)) [
        | inr (x, failed) ↦ absurd (ground (arith, failed))
        | inl ((page, next), listed) ↦ elim (Bool-cases (is_empty next)) [
          | inl last ↦ ground (arith, listed, last, has_conflict-append done page)
          | inr more ↦
              collect_pages_conflict fuel r (at_cursor opts next) (done ++ page) all
                (ground (arith, listed, more)) (ground (arith, has_conflict-append done page))
        ]
      ]

  -- The check that stops at a conflict, and the listing of all pages.
  check_pages_lem :
      (fuel : ℕ) (r : WorkspaceRepository) (opts : ListOptions) (done all : List Workspace)
      → collect_pages fuel r opts done ≡ some (ok all)
      → has_conflict clean want done ≡ false
      → check_pages clean fuel r opts want
        ≡ some (if has_conflict clean want all then err dir_conflict else ok tt)
  unfolding collect_pages check_pages
  check_pages_lem zero r opts done all e h = cc
  check_pages_lem (suc fuel) r opts done all e h = elim (Result-split (Listing.list r opts)) [
    | inr (x, failed) ↦ absurd (ground (arith, failed))
    | inl ((page, next), listed) ↦ elim (Bool-cases (has_conflict clean want page)) [
      | inl conflict ↦ elim (Bool-cases (is_empty next)) [
        | inl last ↦ ground (arith, listed, last, conflict, has_conflict-append done page)
        | inr more ↦ ground (
          arith,
          listed,
          more,
          conflict,
          collect_pages_conflict fuel r (at_cursor opts next) (done ++ page) all,
          has_conflict-append done page,
        )
      ]
      | inr fine ↦ elim (Bool-cases (is_empty next)) [
        | inl last ↦ ground (arith, listed, last, fine, has_conflict-append done page)
        | inr more ↦ ground (
          arith,
          listed,
          more,
          fine,
          check_pages_lem fuel r (at_cursor opts next) (done ++ page) all,
          has_conflict-append done page,
        )
      ]
    ]
  ]

  has_conflict-Mem :
      (rows : List Workspace) (w : Workspace)
      → Memᴰ w rows
      → same_dir want (localdir_dir_option clean w.infra_options) ≡ true
      → has_conflict clean want rows ≡ true
  unfolding has_conflict
  has_conflict-Mem [] w m e = elim m [ ]
  has_conflict-Mem (x ∷ rows) w (Memᴰ.head same) e = ground (arith, same, e)
  has_conflict-Mem (x ∷ rows) w (Memᴰ.tail m) e = ground (arith, has_conflict-Mem rows w m e)

  -- A check that passes has seen every row of the infrastructure.
  module _ (r : WorkspaceRepository) (c : IsConsistent r) (unshut : r.closed ≡ false)
      (encodable : (id : Text) (w : Workspace)
        → find_row id r ≡ some w
        → IsEncodable (workspace_alias_key w))
      (fuel : ℕ) (enough : length (kept_rows (matches_options localdir_rows) r) < fuel) where
    pub check_pages_ends :
        check_pages clean fuel r localdir_rows want
        ≡ some (
            if has_conflict clean want (kept_rows (matches_options localdir_rows) r)
            then err dir_conflict
            else ok tt)
    check_pages_ends =
        check_pages_lem fuel r localdir_rows [] (kept_rows (matches_options localdir_rows) r)
          (collect_pages_lem fuel r localdir_rows c unshut encodable enough).0
          (unfold has_conflict in refl)

    pub check_pages_sound :
        check_pages clean fuel r localdir_rows want ≡ some (ok tt)
        → (id : Text) (w : Workspace) → find_row id r ≡ some w
        → w.infra_type ≡ localdir_infra_type
        → same_dir want (localdir_dir_option clean w.infra_options) ≡ false
    check_pages_sound passed id w found local =
        let (walked, sorted, sound, complete) =
          collect_pages_lem fuel r localdir_rows c unshut encodable enough in
        let listed = complete id w found (local_matches w local) in
        elim (Bool-cases (same_dir want (localdir_dir_option clean w.infra_options))) [
          | inr differs ↦ differs
          | inl same ↦ ground (
            arith,
            check_pages_ends,
            has_conflict-Mem (kept_rows (matches_options localdir_rows) r) w listed same,
          )
        ]

module _ (clean : Text → Text) where
  -- No two workspaces on local directories have the same directory.
  pub record HasOwnDirs (r : WorkspaceRepository) : Type 0 where
    pub own :
        (i j : Text) (v w : Workspace) (dir : Text)
        → find_row i r ≡ some v
        → find_row j r ≡ some w
        → v.infra_type ≡ localdir_infra_type
        → w.infra_type ≡ localdir_infra_type
        → localdir_dir_option clean v.infra_options ≡ some dir
        → localdir_dir_option clean w.infra_options ≡ some dir
        → i ≡ j

  -- The directory of the row, if it is on a local directory, is that of no row.
  pub record IsFreeDir (r : WorkspaceRepository) (row : Workspace) : Type 0 where
    pub free :
        (j : Text) (w : Workspace) (dir : Text)
        → find_row j r ≡ some w
        → row.infra_type ≡ localdir_infra_type
        → w.infra_type ≡ localdir_infra_type
        → localdir_dir_option clean row.infra_options ≡ some dir
        → localdir_dir_option clean w.infra_options ≢ some dir

  dir-clone_value :
      (v : Option Value) → dir_of_value clean (Option.map deep_clone_any v) ≡ dir_of_value clean v
  unfolding dir_of_value deep_clone_any
  dir-clone_value none = refl
  dir-clone_value (some null) = refl
  dir-clone_value (some (opaque n)) = refl
  dir-clone_value (some (text [])) = refl
  dir-clone_value (some (text (c ∷ s))) = refl
  dir-clone_value (some nil_list) = refl
  dir-clone_value (some (list xs)) = refl
  dir-clone_value (some (object o)) = refl

  -- A copy of the options names the same directory.
  pub dir-clone_map_any :
      (o : Object) → localdir_dir_option clean (clone_map_any o) ≡ localdir_dir_option clean o
  unfolding localdir_dir_option
  dir-clone_map_any o =
      ap (dir_of_value clean) (member-clone_map_any infra_option_dir o)
      ∙ dir-clone_value (member infra_option_dir o)

  pub add_row-HasOwnDirs :
      (r : WorkspaceRepository) (row : Workspace)
      → HasOwnDirs r
      → IsFreeDir r row
      → HasOwnDirs (add_row r row)
  add_row-HasOwnDirs r row h free = record {
    own = λ i j v w dir fv fw lv lw dv dw. ground (
      arith,
      find_row-add_row r row i,
      find_row-add_row r row j,
      h.own i j v w dir,
      free.free i v dir,
      free.free j w dir,
    );
  }
