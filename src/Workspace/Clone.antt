-- ===== src/Workspace/Clone.antt =====
-- pkg/storage/memory/workspace_repo.go and pkg/manager/workspace/clone.go: `cloneWorkspace`
use ana.Base.{Text, ◌≡◌, refl, List, [], ◌∷◌, Option, none, some, arith, Map}
use ana.Workspace.{AttachedPlugin, Workspace, WorkspaceError}
use ana.Workspace.Value.{clone_map_any, clone_map_any_idem}

-- `slices.Clone(in.PlacedPaths)` keeps nil and the elements, so a copied entry equals its original;
-- `len(in) == 0` gives nil
unfoldable pub clone_attached_plugins : Option (List AttachedPlugin) → Option (List AttachedPlugin)
clone_attached_plugins none = none
clone_attached_plugins (some []) = none
clone_attached_plugins (some (p ∷ ps)) = some (p ∷ ps)

unfoldable pub clone_error : Option WorkspaceError → Option WorkspaceError
clone_error none = none
clone_error (some e) = some e

unfoldable pub clone_labels : Option (Map Text Text) → Option (Map Text Text)
clone_labels none = none
clone_labels (some []) = none
clone_labels (some (l ∷ ls)) = some (l ∷ ls)

unfoldable pub clone_workspace : Workspace → Workspace
clone_workspace w = record w {
  infra_options = clone_map_any w.infra_options;
  install_params = clone_map_any w.install_params;
  plugins = clone_attached_plugins w.plugins;
  status_error = clone_error w.status_error;
  labels = clone_labels w.labels;
}

pub clone_error_lem : (e : Option WorkspaceError) → clone_error e ≡ e
unfolding clone_error
clone_error_lem none = refl
clone_error_lem (some e) = refl

clone_attached_plugins_idem :
    (ps : Option (List AttachedPlugin))
    → clone_attached_plugins (clone_attached_plugins ps) ≡ clone_attached_plugins ps
unfolding clone_attached_plugins
clone_attached_plugins_idem none = refl
clone_attached_plugins_idem (some []) = refl
clone_attached_plugins_idem (some (p ∷ ps)) = refl

clone_labels_idem : (m : Option (Map Text Text)) → clone_labels (clone_labels m) ≡ clone_labels m
unfolding clone_labels
clone_labels_idem none = refl
clone_labels_idem (some []) = refl
clone_labels_idem (some (l ∷ ls)) = refl

-- What a row holds is already in the form of a copy.
pub record IsCopy (w : Workspace) : Type 0 where
  pub copied : clone_workspace w ≡ w

pub clone_workspace-IsCopy : (w : Workspace) → IsCopy (clone_workspace w)
unfolding clone_workspace
clone_workspace-IsCopy w = record {
  copied = ground (
    arith,
    clone_map_any_idem w.infra_options,
    clone_map_any_idem w.install_params,
    clone_attached_plugins_idem w.plugins,
    clone_error_lem (clone_error w.status_error),
    clone_labels_idem w.labels,
  );
}

pub id-clone_workspace : (w : Workspace) → (clone_workspace w).id ≡ w.id
unfolding clone_workspace
id-clone_workspace w = refl
