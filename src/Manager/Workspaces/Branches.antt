-- ===== src/Manager/Workspaces/Branches.antt =====
-- pkg/manager/manager.go: the part of CreateWorkspace that writes, on all its branches.
use ana.Base.{
  ◌≡◌, refl, sym, ◌∙◌, inl, inr, ite, false, some, Text, Text-discrete, arith, Result, ok, err,
}
use ana.Workspace.{Workspace}
use ana.Workspace.Clone.{clone_workspace}
use ana.Storage.WorkspaceRepo.{WorkspaceRepository, find_row, insert_workspace, delete}
use ana.Storage.WorkspaceRepo.Invariant.{
  IsConsistent, find_row-add_row, drop_row, find_row-drop_row,
}
use ana.Storage.WorkspaceRepo.Effects.{insert_workspace_effect}
use ana.Storage.WorkspaceRepo.Calls.{insert_workspace-IsConsistent, delete-IsConsistent}
use ana.Controller.{ControllerError, submit}
use ana.Workspace.Failure.{live}
use ana.Manager.Packages.{Result-split}
use ana.Manager.Workspaces.{
  Facade, CreateWorkspaceRequest, install_params_of, undo_workspace, submit_workspace,
  insert_and_submit, workspace_from_row,
}
use ana.Manager.Workspaces.Dirs.{HasOwnDirs, IsFreeDir, add_row-HasOwnDirs, dir-clone_map_any}
use ana.Manager.Validation.{ManagerError, of_workspaces, of_controller}

-- What CreateWorkspace keeps of the repository, and what its failure leaves.
pub record Kept (clean : Text → Text) (m n : Facade) (result : Result ManagerError Workspace)
    : Type 0 where
  pub consistent : IsConsistent n.workspaces
  pub own_dirs : HasOwnDirs clean n.workspaces
  pub undone :
      (e : ManagerError)
      → result ≡ err e
      → (id : Text) → find_row id n.workspaces ≡ find_row id m.workspaces

Kept-as :
    (clean : Text → Text) (m n : Facade) (result : Result ManagerError Workspace)
    (made : Facade × Result ManagerError Workspace)
    → made ≡ (n, result)
    → Kept clean m n result
    → Kept clean m made.0 made.1
Kept-as clean m n result made e k = rw e k

HasOwnDirs-same :
    (clean : Text → Text) (r s : WorkspaceRepository)
    → ((id : Text) → find_row id s ≡ find_row id r)
    → HasOwnDirs clean r
    → HasOwnDirs clean s
HasOwnDirs-same clean r s same h = record {
  own = λ i j v w dir fv fw. h.own i j v w dir (sym (same i) ∙ fv) (sym (same j) ∙ fw);
}

IsFreeDir-clone_workspace :
    (clean : Text → Text) (r : WorkspaceRepository) (row : Workspace)
    → IsFreeDir clean r row
    → IsFreeDir clean r (clone_workspace row)
unfolding clone_workspace
IsFreeDir-clone_workspace clean r row h = record {
  free = λ j w dir found lr lw dr.
      h.free j w dir found lr lw (sym (dir-clone_map_any clean row.infra_options) ∙ dr);
}

module _ (clean : Text → Text) (m : Facade) (c : IsConsistent m.workspaces)
    (h : HasOwnDirs clean m.workspaces) where
  pub unchanged : (e : ManagerError) → Kept clean m m (err e)
  unchanged e = record { consistent = c; own_dirs = h; undone = λ f same id. refl }

  module _ (unshut : m.workspaces.closed ≡ false) (req : CreateWorkspaceRequest) (row : Workspace)
      (free : IsFreeDir clean m.workspaces row) (r : WorkspaceRepository)
      (inserted : insert_workspace m.workspaces row ≡ ok r) where
    abbrev grown : Facade
    grown = record m { workspaces = r }

    grown-HasOwnDirs : HasOwnDirs clean r
    grown-HasOwnDirs =
        let effect = insert_workspace_effect m.workspaces r row inserted in
        rw (effect.3) (
          add_row-HasOwnDirs clean m.workspaces (clone_workspace row) h
            (IsFreeDir-clone_workspace clean m.workspaces row free))

    found_grown :
        (j : Text)
        → find_row j r
          ≡ ite (Text-discrete row.id j) (some (clone_workspace row)) (find_row j m.workspaces)
    unfolding clone_workspace
    found_grown j = ground (
      arith,
      insert_workspace_effect m.workspaces r row inserted,
      find_row-add_row m.workspaces (clone_workspace row) j,
    )

    still_unshut : r.closed ≡ false
    still_unshut = ground (arith, insert_workspace_effect m.workspaces r row inserted, unshut)

    abbrev shrunk : WorkspaceRepository
    shrunk = drop_row r row.id (clone_workspace row)

    deletes_again : delete r row.id ≡ ok shrunk
    unfolding delete
    deletes_again = ground (arith, still_unshut, found_grown row.id)

    same_again : (j : Text) → find_row j shrunk ≡ find_row j m.workspaces
    same_again j = ground (
      arith,
      find_row-drop_row r row.id j (clone_workspace row),
      found_grown j,
      insert_workspace_effect m.workspaces r row inserted,
    )

    undo-Kept :
        (e : ControllerError)
        → Kept clean m (undo_workspace grown row.id e).0 (undo_workspace grown row.id e).1
    undo-Kept e =
        Kept-as clean m (record m { workspaces = shrunk }) (err (of_controller e))
          (undo_workspace grown row.id e) (unfold undo_workspace in ground (arith, deletes_again))
          (record {
            consistent =
                delete-IsConsistent r shrunk row.id
                  (insert_workspace-IsConsistent m.workspaces r row c inserted) deletes_again;
            own_dirs = HasOwnDirs-same clean m.workspaces shrunk same_again h;
            undone = λ f same id. same_again id;
          })

    submit-Kept : Kept clean m (submit_workspace grown req row).0 (submit_workspace grown req row).1
    submit-Kept = elim (Result-split (submit live row (install_params_of req row) m.installs)) [
      | inr (e, failed) ↦
          Kept-as clean m (undo_workspace grown row.id e).0 (undo_workspace grown row.id e).1
            (submit_workspace grown req row) (unfold submit_workspace in ground (arith, failed))
            (undo-Kept e)
      | inl (installs, queued) ↦
          Kept-as clean m (record m { workspaces = r; installs = installs })
            (ok (workspace_from_row row)) (submit_workspace grown req row)
            (unfold submit_workspace in ground (arith, queued))
            (record {
              consistent = insert_workspace-IsConsistent m.workspaces r row c inserted;
              own_dirs = grown-HasOwnDirs;
              undone = λ f same id. absurd (cc);
            })
    ]

  pub insert_and_submit-Kept :
      (req : CreateWorkspaceRequest) (row : Workspace)
      → m.workspaces.closed ≡ false
      → IsFreeDir clean m.workspaces row
      → Kept clean m (insert_and_submit m req row).0 (insert_and_submit m req row).1
  insert_and_submit-Kept req row unshut free =
      elim (Result-split (insert_workspace m.workspaces row)) [
        | inr (e, failed) ↦
            Kept-as clean m m (err (of_workspaces e)) (insert_and_submit m req row)
              (unfold insert_and_submit in ground (arith, failed)) (unchanged (of_workspaces e))
        | inl (r, inserted) ↦
            Kept-as clean m (submit_workspace (record m { workspaces = r }) req row).0
              (submit_workspace (record m { workspaces = r }) req row).1
              (insert_and_submit m req row) (unfold insert_and_submit in ground (arith, inserted))
              (submit-Kept unshut req row free r inserted)
      ]
