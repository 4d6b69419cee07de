-- ===== src/Storage/WorkspaceRepo/Listing/Rows.antt =====
-- pkg/storage/memory/workspace_repo.go: which rows a listing is made of, whatever the order in which
-- `range r.byID` meets them.
use ana.Base.{
  ◌≡◌, sym, ap, subst, ◌≢◌, Bool, true, Option, none, some, List, [], ◌∷◌, map, All, Text,
  Text-discrete, Map, lookup, values, IsFunctional, arith, Ordering,
}
use mathlib.Core.List.{Memᴰ}
use ana.Base.Sorting.{select}
use ana.Base.Sorting.Strict.{
  StrictlySorted, HasDistinctKeys, AllNe, All-select, All-sort, All-imp, sort-StrictlySorted,
  select-HasDistinctKeys,
}
use ana.Base.Sorting.Members.{mem-select, select-holds, mem-map, mem-sort}
use ana.Workspace.{Workspace}
use ana.Workspace.Clone.{clone_workspace, IsCopy}
use ana.Storage.WorkspaceRepo.{
  AliasKey, WorkspaceRepository, workspace_alias_key, find_row, find_id,
}
use ana.Storage.WorkspaceRepo.Invariant.{IsConsistent}
use ana.Storage.WorkspaceRepo.Listing.{compare_namespace_alias, sort_rows}
use ana.Storage.WorkspaceRepo.Listing.Order.{compare_namespace_alias-IsOrder}

-- The rows that `keep` lets through, copied and sorted.
abbrev pub kept_rows : (Workspace → Bool) → WorkspaceRepository → List Workspace
kept_rows keep r = sort_rows (map clone_workspace (select keep (values r.by_id)))

-- Each value of a map stands under some key.
values-found :
    {V : Type 0} (m : Map Text V)
    → IsFunctional Text-discrete m
    → All (λ v. (k : Text) × (lookup Text-discrete k m ≡ some v)) (values m)
unfolding lookup
values-found [] f = tt
values-found ((k, v) ∷ m) f =
    ((k, ground arith), All-imp (λ w (j, e). (j, ground arith)) (values m) (values-found m f.1))

mem-values :
    {V : Type 0} (k : Text) (v : V) (m : Map Text V)
    → lookup Text-discrete k m ≡ some v
    → Memᴰ v (values m)
unfolding lookup
mem-values k v [] e = absurd (cc)
mem-values k v ((j, w) ∷ m) e = elim (Text-discrete j k) [
  | yes p ↦ Memᴰ.head (ground arith)
  | no p ↦ Memᴰ.tail (mem-values k v m (ground arith))
]

module _ (find : AliasKey → Option Text) where
  distinct_from :
      (k : Text) (row : Workspace) (m : Map Text Workspace)
      → lookup Text-discrete k m ≡ none
      → find (workspace_alias_key row) ≡ some k
      → (w : Workspace)
      → (j : Text) × (lookup Text-discrete j m ≡ some w) × (find (workspace_alias_key w) ≡ some j)
      → compare_namespace_alias (workspace_alias_key row) (workspace_alias_key w) ≢ Ordering.eq
  distinct_from k row m free here w (j, e, there) same =
      let keys =
        compare_namespace_alias-IsOrder.eq_of_cmp (workspace_alias_key row) (workspace_alias_key w)
          same in
      ground (arith, ap find keys)

  values-HasDistinctKeys :
      (m : Map Text Workspace)
      → IsFunctional Text-discrete m
      → ((j : Text) (w : Workspace)
          → lookup Text-discrete j m ≡ some w
          → find (workspace_alias_key w) ≡ some j)
      → HasDistinctKeys workspace_alias_key compare_namespace_alias (values m)
  unfolding lookup
  values-HasDistinctKeys [] f h = tt
  values-HasDistinctKeys ((k, row) ∷ m) f h =
      let later : (j : Text) (w : Workspace)
          → lookup Text-discrete j m ≡ some w
          → find (workspace_alias_key w) ≡ some j =
        λ j w e. h j w (ground arith) in
      (
        All-imp
            (λ w (j, e). distinct_from k row m f.0 (h k row (ground arith)) w (j, e, later j w e))
            (values m) (values-found m f.1),
        values-HasDistinctKeys m f.1 later,
      )

clone-AllNe :
    (k : AliasKey) (xs : List Workspace)
    → AllNe workspace_alias_key compare_namespace_alias k xs
    → AllNe workspace_alias_key compare_namespace_alias k (map clone_workspace xs)
unfolding clone_workspace
clone-AllNe k [] h = tt
clone-AllNe k (x ∷ xs) h = (h.0, clone-AllNe k xs h.1)

clone-HasDistinctKeys :
    (xs : List Workspace)
    → HasDistinctKeys workspace_alias_key compare_namespace_alias xs
    → HasDistinctKeys workspace_alias_key compare_namespace_alias (map clone_workspace xs)
unfolding clone_workspace
clone-HasDistinctKeys [] h = tt
clone-HasDistinctKeys (x ∷ xs) h =
    (clone-AllNe (workspace_alias_key x) xs h.0, clone-HasDistinctKeys xs h.1)

All-zip_clone :
    (P Q : Workspace → Type 0) (xs : List Workspace)
    → All (λ w. P w × IsCopy w) xs
    → All Q xs
    → All (λ w. P w × Q w) (map clone_workspace xs)
All-zip_clone P Q [] h k = tt
All-zip_clone P Q (x ∷ xs) h k =
    (subst (λ w. P w × Q w) (sym (h.0.1.copied)) (h.0.0, k.0), All-zip_clone P Q xs h.1 k.1)

module _ (keep : Workspace → Bool) (r : WorkspaceRepository) (c : IsConsistent r) where
  pub kept-HasDistinctKeys :
      HasDistinctKeys workspace_alias_key compare_namespace_alias
        (map clone_workspace (select keep (values r.by_id)))
  kept-HasDistinctKeys = clone-HasDistinctKeys _ (
      select-HasDistinctKeys workspace_alias_key compare_namespace_alias keep (values r.by_id) (
        values-HasDistinctKeys (λ key. find_id key r) r.by_id c.functional
          (unfold find_row in c.indexed)))

  pub kept_rows-StrictlySorted :
      StrictlySorted workspace_alias_key compare_namespace_alias (kept_rows keep r)
  kept_rows-StrictlySorted =
      sort-StrictlySorted workspace_alias_key compare_namespace_alias
        compare_namespace_alias-IsOrder _ kept-HasDistinctKeys

  stored : All (λ w. (find_row w.id r ≡ some w) × IsCopy w) (values r.by_id)
  stored =
      All-imp
        (λ w (j, e).
          let found : find_row j r ≡ some w = unfold find_row in e in
          (cc (found, c.keyed j w found), c.copied j w found))
        (values r.by_id) (values-found r.by_id c.functional)

  -- Each row of the listing is stored, and let through.
  pub kept_rows_sound : All (λ w. (find_row w.id r ≡ some w) × (keep w ≡ true)) (kept_rows keep r)
  kept_rows_sound =
      All-sort workspace_alias_key compare_namespace_alias compare_namespace_alias-IsOrder _ _ (
        All-zip_clone (λ w. find_row w.id r ≡ some w) (λ w. keep w ≡ true) _
          (All-select _ keep (values r.by_id) stored) (select-holds keep (values r.by_id)))

  -- Each stored row that is let through is in the listing.
  pub kept_rows-complete :
      (id : Text) (w : Workspace)
      → find_row id r ≡ some w
      → keep w ≡ true
      → Memᴰ w (kept_rows keep r)
  kept_rows-complete id w e k =
      let stored_here = mem-values id w r.by_id (unfold find_row in e) in
      let here = mem-map clone_workspace w _ (mem-select keep w (values r.by_id) k stored_here) in
      mem-sort workspace_alias_key compare_namespace_alias w _ (
        subst (λ v. Memᴰ v (map clone_workspace (select keep (values r.by_id))))
          (c.copied id w e).copied here)
