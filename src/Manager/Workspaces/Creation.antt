-- ===== src/Manager/Workspaces/Creation.antt =====
-- pkg/manager/manager.go: CreateWorkspace as a whole, with its check of the directory.
use ana.Base.{
  ℕ, ◌<◌, ◌≡◌, refl, sym, ap, ◌∙◌, inl, inr, false, Option, some, List, length, Text, Text-discrete,
  arith, Option-cases, if◌then◌else◌, Result, ok, err,
}
use ana.Workspace.{Workspace, AttachedPlugin}
use ana.Storage.WorkspaceRepo.{WorkspaceRepository, workspace_alias_key, find_row}
use ana.Storage.WorkspaceRepo.Invariant.{IsConsistent}
use ana.Storage.WorkspaceRepo.Listing.{matches_options}
use ana.Storage.WorkspaceRepo.Listing.Rows.{kept_rows}
use ana.Storage.WorkspaceRepo.Listing.Cursors.{IsEncodable}
use ana.Manager.Packages.{Result-split}
use ana.Manager.Workspaces.{
  Facade, CreateWorkspaceRequest, WorkspaceMoment, localdir_infra_type, localdir_dir_option,
  localdir_rows, same_dir, has_conflict, ensure_workspace_infra_uniqueness, check_workspace_request,
  new_workspace_row, create_checked, create_workspace, resolve_attached_plugins,
}
use ana.Manager.Workspaces.Dirs.{
  HasOwnDirs, IsFreeDir, dir-clone_map_any, check_pages_ends, check_pages_sound,
}
use ana.Manager.Validation.{ManagerError, dir_conflict}
use ana.Manager.Workspaces.Branches.{Kept, unchanged, insert_and_submit-Kept}

module _ (clean : Text → Text) (r : WorkspaceRepository) (c : IsConsistent r)
    (unshut : r.closed ≡ false)
    (encodable : (id : Text) (w : Workspace)
      → find_row id r ≡ some w
      → IsEncodable (workspace_alias_key w))
    (fuel : ℕ) (enough : length (kept_rows (matches_options localdir_rows) r) < fuel) where
  -- The check of the directory ends, and where it passes the directory is free.
  pub record Checked (req : CreateWorkspaceRequest) : Type 0 where
    pub verdict : Result ManagerError Unit
    pub ends : ensure_workspace_infra_uniqueness clean fuel r req ≡ some verdict
    pub frees :
        verdict ≡ ok tt
        → (row : Workspace) → row.infra_type ≡ req.infra_type
        → localdir_dir_option clean row.infra_options ≡ localdir_dir_option clean req.infra_options
        → IsFreeDir clean r row

  Checked-dir :
      (req : CreateWorkspaceRequest) (want : Text)
      → req.infra_type ≡ localdir_infra_type
      → localdir_dir_option clean req.infra_options ≡ some want
      → Checked req
  Checked-dir req want local has = record {
    verdict =
        if has_conflict clean want (kept_rows (matches_options localdir_rows) r)
        then err dir_conflict
        else ok tt;
    ends =
        unfold ensure_workspace_infra_uniqueness in
        ground (arith, check_pages_ends clean want r c unshut encodable fuel enough, local, has);
    frees = λ passed row same_infra same_dir_option. record {
      free = λ j w dir found lr lw dr dw.
          let apart =
            check_pages_sound clean want r c unshut encodable fuel enough
              (check_pages_ends clean want r c unshut encodable fuel enough ∙ ap some passed) j w
              found lw in
          unfold same_dir in ground arith;
    };
  }

  check_request_dir : (req : CreateWorkspaceRequest) → Checked req
  check_request_dir req = elim (Text-discrete req.infra_type localdir_infra_type) [
    | no other ↦ record {
      verdict = ok tt;
      ends = unfold ensure_workspace_infra_uniqueness in ground arith;
      frees = λ passed row same_infra same_dir_option. record {
        free = λ j w dir found lr lw dr dw. other (sym same_infra ∙ lr);
      };
    }
    | yes local ↦ elim (Option-cases (localdir_dir_option clean req.infra_options)) [
      | inr (want, has) ↦ Checked-dir req want local has
      | inl none_given ↦ record {
        verdict = ok tt;
        ends = unfold ensure_workspace_infra_uniqueness in ground (arith, none_given);
        frees = λ passed row same_infra same_dir_option. record {
          free = λ j w dir found lr lw dr dw. cc;
        };
      }
    ]
  ]

module _ (clean : Text → Text) (m : Facade) (c : IsConsistent m.workspaces)
    (h : HasOwnDirs clean m.workspaces) (unshut : m.workspaces.closed ≡ false)
    (encodable : (id : Text) (w : Workspace)
      → find_row id m.workspaces ≡ some w
      → IsEncodable (workspace_alias_key w))
    (fuel : ℕ)
    (enough : length (kept_rows (matches_options localdir_rows) m.workspaces) < fuel) where
  create_checked-Kept :
      (req : CreateWorkspaceRequest) (t : WorkspaceMoment)
      (attached : Result ManagerError (Option (List AttachedPlugin)))
      → ((row : Workspace)
          → row.infra_type ≡ req.infra_type
          → localdir_dir_option clean row.infra_options
            ≡ localdir_dir_option clean req.infra_options
          → IsFreeDir clean m.workspaces row)
      → Kept clean m (create_checked m req t attached).0 (create_checked m req t attached).1
  unfolding create_checked
  create_checked-Kept req t (err e) free = unchanged clean m c h e
  create_checked-Kept req t (ok attached) free =
      insert_and_submit-Kept clean m c h req (new_workspace_row req t attached) unshut
        (free (new_workspace_row req t attached) refl (dir-clone_map_any clean req.infra_options))

  -- CreateWorkspace in an open, consistent repository, with workspaces whose namespaces and aliases a
  -- cursor can carry and fuel above the number of those on local directories, ends. Whatever its
  -- result, the repository is consistent afterwards and no two workspaces on local directories have the
  -- same directory, if none had before; and if it fails, for whatever reason, each row is as it was.
  pub create_workspace_lem :
      (req : CreateWorkspaceRequest) (t : WorkspaceMoment)
      → (n : Facade) × (result : Result ManagerError Workspace) × (create_workspace clean fuel m req
            t
          ≡ some (n, result))
        × Kept clean m n result
  create_workspace_lem req t = elim (Result-split (check_workspace_request m req t)) [
    | inr (e, failed) ↦
        (m, err e, unfold create_workspace in ground (arith, failed), unchanged clean m c h e)
    | inl (u, fine) ↦
        let checked = check_request_dir clean m.workspaces c unshut encodable fuel enough req in
        elim (Result-split checked.verdict) [
          | inr (e, refused) ↦ (
            m,
            err e,
            unfold create_workspace in ground (arith, fine, checked.ends, refused),
            unchanged clean m c h e,
          )
          | inl (v, passed) ↦
              let attached = resolve_attached_plugins m.core.plugins req.plugins in
              let made = create_checked m req t attached in
              (
                made.0,
                made.1,
                unfold create_workspace in ground (arith, fine, checked.ends, passed),
                create_checked-Kept req t attached (checked.frees passed),
              )
        ]
  ]
