-- ===== src/Storage/WorkspaceRepo/Invariant.antt =====
-- pkg/storage/memory/workspace_repo.go: what every method keeps true of the two maps.
use ana.Base.{
  ◌≡◌, refl, ite, none, some, Text, Text-discrete, lookup, insert, erase, lookup-insert,
  lookup-erase, IsFunctional, insert-IsFunctional, erase-IsFunctional, arith,
}
use ana.Workspace.{Status, other, Workspace}
use ana.Workspace.Clone.{IsCopy}
use ana.Storage.WorkspaceRepo.{
  AliasKey, AliasKey-discrete, WorkspaceRepository, new_workspace_repository, workspace_alias_key,
  find_row, find_id, store_row,
}

abbrev pub IsKnown : Status → Type 0
IsKnown (other s) = ⊥
IsKnown _ = Unit

-- A row stands under its own id and under its alias key, an alias key leads to its row, and rows
-- have a known status and are copies.
pub record IsConsistent (r : WorkspaceRepository) : Type 0 where
  pub functional : IsFunctional Text-discrete r.by_id
  pub keyed : (id : Text) (row : Workspace) → find_row id r ≡ some row → row.id ≡ id
  pub indexed :
      (id : Text) (row : Workspace)
      → find_row id r ≡ some row
      → find_id (workspace_alias_key row) r ≡ some id
  pub backed :
      (key : AliasKey) (id : Text)
      → find_id key r ≡ some id
      → (row : Workspace) × (find_row id r ≡ some row) × (workspace_alias_key row ≡ key)
  pub known : (id : Text) (row : Workspace) → find_row id r ≡ some row → IsKnown row.status
  pub copied : (id : Text) (row : Workspace) → find_row id r ≡ some row → IsCopy row

pub new-IsConsistent : IsConsistent new_workspace_repository
unfolding find_row find_id lookup
new-IsConsistent = record {
  functional = tt;
  keyed = λ id row e. cc;
  indexed = λ id row e. cc;
  backed = λ key id e. absurd (cc);
  known = λ id row e. absurd (cc);
  copied = λ id row e. absurd (cc);
}

pub find_row-store_row :
    (r : WorkspaceRepository) (id j : Text) (row : Workspace)
    → find_row j (store_row r id row) ≡ ite (Text-discrete id j) (some row) (find_row j r)
unfolding find_row
find_row-store_row r id j row = lookup-insert Text-discrete id j row r.by_id

pub find_id-store_row :
    (r : WorkspaceRepository) (id : Text) (row : Workspace) (key : AliasKey)
    → find_id key (store_row r id row) ≡ find_id key r
unfolding find_id
find_id-store_row r id row key = refl

module _ (r : WorkspaceRepository) (h : IsConsistent r) (id : Text) (old row : Workspace)
    (found : find_row id r ≡ some old) (same_id : row.id ≡ old.id)
    (same_key : workspace_alias_key row ≡ workspace_alias_key old) (is_known : IsKnown row.status)
    (is_copy : IsCopy row) where
  store_row-backed :
      (key : AliasKey) (i : Text)
      → find_id key r ≡ some i
      → (w : Workspace) × (find_row i (store_row r id row) ≡ some w) × (workspace_alias_key w ≡ key)
  store_row-backed key i e = elim (Text-discrete id i) [
    | yes p ↦ (row, ground (arith, find_row-store_row r id i row), ground (arith, h.backed key i e))
    | no p ↦ (
      (h.backed key i e).0,
      ground (arith, find_row-store_row r id i row, h.backed key i e),
      (h.backed key i e).2,
    )
  ]

  -- Writing a row again under its id, with its alias key.
  pub store_row-IsConsistent : IsConsistent (store_row r id row)
  store_row-IsConsistent = record {
    functional = insert-IsFunctional Text-discrete id row r.by_id h.functional;
    keyed =
        λ j w e. ground (arith, find_row-store_row r id j row, h.keyed j w, h.keyed id old found);
    indexed = λ j w e.
        rw (find_id-store_row r id row)
          (ground (arith, find_row-store_row r id j row, h.indexed j w, h.indexed id old found));
    backed = λ key i e. store_row-backed key i (rw (find_id-store_row r id row) at e);
    known = λ j w e. ground (arith, find_row-store_row r id j row, h.known j w);
    copied = λ j w e. ground (arith, find_row-store_row r id j row, h.copied j w);
  }

abbrev pub add_row : WorkspaceRepository → Workspace → WorkspaceRepository
add_row r row = record r {
  by_id = insert Text-discrete row.id row r.by_id;
  id_by_alias_key = insert AliasKey-discrete (workspace_alias_key row) row.id r.id_by_alias_key;
}

pub find_row-add_row :
    (r : WorkspaceRepository) (row : Workspace) (j : Text)
    → find_row j (add_row r row) ≡ ite (Text-discrete row.id j) (some row) (find_row j r)
unfolding find_row
find_row-add_row r row j = lookup-insert Text-discrete row.id j row r.by_id

pub find_id-add_row :
    (r : WorkspaceRepository) (row : Workspace) (key : AliasKey)
    → find_id key (add_row r row)
      ≡ ite (AliasKey-discrete (workspace_alias_key row) key) (some row.id) (find_id key r)
unfolding find_id
find_id-add_row r row key =
    lookup-insert AliasKey-discrete (workspace_alias_key row) key row.id r.id_by_alias_key

module _ (r : WorkspaceRepository) (h : IsConsistent r) (row : Workspace)
    (fresh_id : find_row row.id r ≡ none) (fresh_key : find_id (workspace_alias_key row) r ≡ none)
    (is_known : IsKnown row.status) (is_copy : IsCopy row) where
  add_row-indexed :
      (j : Text) (w : Workspace)
      → find_row j (add_row r row) ≡ some w
      → find_id (workspace_alias_key w) (add_row r row) ≡ some j
  add_row-indexed j w e = ground (
    arith,
    find_row-add_row r row j,
    find_id-add_row r row (workspace_alias_key w),
    h.indexed j w,
  )

  add_row-backed :
      (key : AliasKey) (i : Text)
      → find_id key (add_row r row) ≡ some i
      → (w : Workspace) × (find_row i (add_row r row) ≡ some w) × (workspace_alias_key w ≡ key)
  add_row-backed key i e = elim (AliasKey-discrete (workspace_alias_key row) key) [
    | yes p ↦ (row, ground (arith, find_row-add_row r row i, find_id-add_row r row key), p)
    | no p ↦
        let old = h.backed key i (ground (arith, find_id-add_row r row key)) in
        (old.0, ground (arith, find_row-add_row r row i, old.1), old.2)
  ]

  -- A new row under a free id and a free alias key.
  pub add_row-IsConsistent : IsConsistent (add_row r row)
  add_row-IsConsistent = record {
    functional = insert-IsFunctional Text-discrete row.id row r.by_id h.functional;
    keyed = λ j w e. ground (arith, find_row-add_row r row j, h.keyed j w);
    indexed = add_row-indexed;
    backed = add_row-backed;
    known = λ j w e. ground (arith, find_row-add_row r row j, h.known j w);
    copied = λ j w e. ground (arith, find_row-add_row r row j, h.copied j w);
  }

abbrev pub drop_row : WorkspaceRepository → Text → Workspace → WorkspaceRepository
drop_row r id row = record r {
  by_id = erase Text-discrete id r.by_id;
  id_by_alias_key = erase AliasKey-discrete (workspace_alias_key row) r.id_by_alias_key;
}

pub find_row-drop_row :
    (r : WorkspaceRepository) (id j : Text) (row : Workspace)
    → find_row j (drop_row r id row) ≡ ite (Text-discrete id j) none (find_row j r)
unfolding find_row
find_row-drop_row r id j row = lookup-erase Text-discrete id j r.by_id

pub find_id-drop_row :
    (r : WorkspaceRepository) (id : Text) (row : Workspace) (key : AliasKey)
    → find_id key (drop_row r id row)
      ≡ ite (AliasKey-discrete (workspace_alias_key row) key) none (find_id key r)
unfolding find_id
find_id-drop_row r id row key =
    lookup-erase AliasKey-discrete (workspace_alias_key row) key r.id_by_alias_key

module _ (r : WorkspaceRepository) (h : IsConsistent r) (id : Text) (row : Workspace)
    (found : find_row id r ≡ some row) where
  drop_row-indexed :
      (j : Text) (w : Workspace)
      → find_row j (drop_row r id row) ≡ some w
      → find_id (workspace_alias_key w) (drop_row r id row) ≡ some j
  drop_row-indexed j w e = ground (
    arith,
    find_row-drop_row r id j row,
    find_id-drop_row r id row (workspace_alias_key w),
    h.indexed j w,
    h.indexed id row found,
  )

  drop_row-backed :
      (key : AliasKey) (i : Text)
      → find_id key (drop_row r id row) ≡ some i
      → (w : Workspace) × (find_row i (drop_row r id row) ≡ some w) × (workspace_alias_key w ≡ key)
  drop_row-backed key i e =
      let old = h.backed key i (ground (arith, find_id-drop_row r id row key)) in
      (
        old.0,
        ground (arith, find_row-drop_row r id i row, find_id-drop_row r id row key, old.1, old.2),
        old.2,
      )

  -- A row and its alias key taken out together.
  pub drop_row-IsConsistent : IsConsistent (drop_row r id row)
  drop_row-IsConsistent = record {
    functional = erase-IsFunctional Text-discrete id r.by_id h.functional;
    keyed = λ j w e. ground (arith, find_row-drop_row r id j row, h.keyed j w);
    indexed = drop_row-indexed;
    backed = drop_row-backed;
    known = λ j w e. ground (arith, find_row-drop_row r id j row, h.known j w);
    copied = λ j w e. ground (arith, find_row-drop_row r id j row, h.copied j w);
  }
