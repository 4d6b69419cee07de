-- ===== src/Storage/WorkspaceRepo/Reads.antt =====
-- pkg/storage/memory/workspace_repo.go: what `Get` and `GetByAlias` return, before and after a write.
use ana.Base.{
  ◌≡◌, refl, subst, inl, inr, ◌≢◌, ◌↔◌, true, false, none, some, List, [], ◌∷◌, Text, arith, ok,
  err, Option-cases,
}
use ana.Storage.WorkspaceRepo.Listing
use ana.Workspace.{Workspace, ListOptions, workspace_not_found, alias_conflict, repository_closed}
use ana.Workspace.Clone.{clone_workspace, id-clone_workspace, clone_workspace-IsCopy}
use ana.Storage.WorkspaceRepo.{
  WorkspaceRepository, find_row, find_id, workspace_alias_key, insert_workspace, get, get_by_alias,
  update, update_status, update_status_cas, delete, close, validate_known_status,
}
use ana.Storage.WorkspaceRepo.Invariant.{
  IsConsistent, find_row-add_row, find_id-add_row, find_row-drop_row, find_id-drop_row, drop_row,
}
use ana.Storage.WorkspaceRepo.Effects.{insert_workspace_effect, delete_effect}
use ana.Storage.WorkspaceRepo.Calls.{
  Call, inserts, updates, sets_status, swaps_status, deletes, closes, step, run,
}

alias_key-clone_workspace :
    (w : Workspace) → workspace_alias_key (clone_workspace w) ≡ workspace_alias_key w
unfolding clone_workspace
alias_key-clone_workspace w = refl

open_of_insert :
    (r s : WorkspaceRepository) (w : Workspace)
    → insert_workspace r w ≡ ok s
    → (r.closed ≡ false) × (s.closed ≡ false)
unfolding insert_workspace
open_of_insert r s w e = (ground arith, ground arith)

-- After an insertion, the row is read back as the copy that was stored, by its id and by its namespace
-- and alias, and every other id reads as before.
pub insert_workspace_reads :
    (r s : WorkspaceRepository) (w : Workspace)
    → insert_workspace r w ≡ ok s
    → (get s w.id ≡ ok (clone_workspace w))
      × (get_by_alias s w.namespace w.alias ≡ ok (clone_workspace w))
      × ((id : Text) → id ≢ w.id → get s id ≡ get r id)
insert_workspace_reads r s w e = (by_id, by_alias, others)
  where
    found : find_row w.id s ≡ some (clone_workspace w)
    found = ground (
      arith,
      (insert_workspace_effect r s w e).3,
      find_row-add_row r (clone_workspace w) w.id,
      id-clone_workspace w,
    )

    by_id : get s w.id ≡ ok (clone_workspace w)
    by_id =
        unfold get in
        ground (arith, found, (open_of_insert r s w e).1, (clone_workspace-IsCopy w).copied)

    indexed : find_id (w.namespace, w.alias) s ≡ some w.id
    indexed = ground (
      arith,
      (insert_workspace_effect r s w e).3,
      find_id-add_row r (clone_workspace w) (w.namespace, w.alias),
      id-clone_workspace w,
      alias_key-clone_workspace w,
    )

    by_alias : get_by_alias s w.namespace w.alias ≡ ok (clone_workspace w)
    by_alias =
        unfold get_by_alias in
        ground
          (arith, found, indexed, (open_of_insert r s w e).1, (clone_workspace-IsCopy w).copied)

    others : (id : Text) → id ≢ w.id → get s id ≡ get r id
    others id ne =
        unfold get in
        ground (
          arith,
          (insert_workspace_effect r s w e).3,
          open_of_insert r s w e,
          find_row-add_row r (clone_workspace w) id,
          id-clone_workspace w,
        )

pub get_of_row :
    (r : WorkspaceRepository) (id : Text) (row : Workspace)
    → IsConsistent r
    → r.closed ≡ false
    → find_row id r ≡ some row
    → get r id ≡ ok row
unfolding get
get_of_row r id row k opened found = ground (arith, (k.copied id row found).copied)

pub row_of_get :
    (r : WorkspaceRepository) (id : Text) (w : Workspace)
    → IsConsistent r
    → get r id ≡ ok w
    → (r.closed ≡ false) × (find_row id r ≡ some w)
unfolding get
row_of_get r id w k e = elim (Option-cases (find_row id r)) [
  | inl missing ↦ absurd (ground arith)
  | inr (row, found) ↦ (ground arith, ground (arith, (k.copied id row found).copied))
]

row_of_get_by_alias :
    (r : WorkspaceRepository) (namespace alias : Text) (w : Workspace)
    → IsConsistent r
    → get_by_alias r namespace alias ≡ ok w
    → (r.closed ≡ false) × (find_row w.id r ≡ some w) × (workspace_alias_key w ≡ (namespace, alias))
unfolding get_by_alias
row_of_get_by_alias r namespace alias w k e = elim (Option-cases (find_id (namespace, alias) r)) [
  | inl missing ↦ absurd (ground arith)
  | inr (id, listed) ↦
      let (row, found, key) = k.backed (namespace, alias) id listed in
      let same : row ≡ w = ground (arith, (k.copied id row found).copied) in
      (ground arith, rw (← same) (cc (found, k.keyed id row found)), rw (← same) key)
]

-- In a consistent repository, a workspace is read by a namespace and an alias exactly when it is the one
-- that its own id reads, and has this namespace and alias.
pub get_by_alias_iff :
    (r : WorkspaceRepository) (namespace alias : Text) (w : Workspace)
    → IsConsistent r
    → (get_by_alias r namespace alias ≡ ok w)
      ↔ ((get r w.id ≡ ok w) × (workspace_alias_key w ≡ (namespace, alias)))
get_by_alias_iff r namespace alias w k = (
  λ e.
      let (opened, found, key) = row_of_get_by_alias r namespace alias w k e in
      (get_of_row r w.id w k opened found, key),
  λ p.
      let (opened, found) = row_of_get r w.id w k p.0 in
      let listed : find_id (namespace, alias) r ≡ some w.id =
        subst (λ key. find_id key r ≡ some w.id) p.1 (k.indexed w.id w found) in
      unfold get_by_alias in ground (arith, (k.copied w.id w found).copied),
)

-- After a deletion, neither the id nor the deleted row's namespace and alias is found, and every other id
-- reads as before.
pub delete_reads :
    (r s : WorkspaceRepository) (id : Text) (row : Workspace)
    → get r id ≡ ok row
    → IsConsistent r
    → delete r id ≡ ok s
    → (get s id ≡ err workspace_not_found)
      × (get_by_alias s row.namespace row.alias ≡ err workspace_not_found)
      × ((j : Text) → j ≢ id → get s j ≡ get r j)
delete_reads r s id row e k d = (gone, unlisted, others)
  where
    effect : (old : Workspace) × (find_row id r ≡ some old) × (s ≡ drop_row r id old)
    effect = delete_effect r s id d

    written : s ≡ drop_row r id row
    written = ground (arith, effect.1, effect.2, (row_of_get r id row k e).1)

    opened : s.closed ≡ false
    opened = ground (arith, written, (row_of_get r id row k e).0)

    gone : get s id ≡ err workspace_not_found
    gone = unfold get in ground (arith, written, opened, find_row-drop_row r id id row)

    unlisted : get_by_alias s row.namespace row.alias ≡ err workspace_not_found
    unlisted =
        unfold get_by_alias in
        ground (arith, written, opened, find_id-drop_row r id row (workspace_alias_key row))

    others : (j : Text) → j ≢ id → get s j ≡ get r j
    others j ne =
        unfold get in
        ground (arith, written, opened, (row_of_get r id row k e).0, find_row-drop_row r id j row)

-- An insertion into an open, consistent repository, of a row with a known status and a free id, reports
-- an alias conflict exactly when some row has the namespace and the alias of the new one.
pub insert_workspace-alias_conflict_iff :
    (r : WorkspaceRepository) (w : Workspace)
    → IsConsistent r
    → r.closed ≡ false
    → find_row w.id r ≡ none
    → validate_known_status w.status ≡ ok tt
    → (insert_workspace r w ≡ err alias_conflict) ↔ (
        (row : Workspace) × (get r row.id ≡ ok row)
        × (workspace_alias_key row ≡ workspace_alias_key w))
unfolding insert_workspace
insert_workspace-alias_conflict_iff r w k opened free known = (
  λ e. elim (Option-cases (find_id (workspace_alias_key w) r)) [
    | inl unused ↦ absurd (ground arith)
    | inr (id, listed) ↦
        let (row, found, key) = k.backed (workspace_alias_key w) id listed in
        (row, get_of_row r row.id row k opened (cc (found, k.keyed id row found)), key)
  ],
  λ p.
      let (row, e, key) = p in
      let listed : find_id (workspace_alias_key w) r ≡ some row.id =
        subst (λ j. find_id j r ≡ some row.id) key
          (k.indexed row.id row (row_of_get r row.id row k e).1) in
      ground arith,
)

closed_step : (r : WorkspaceRepository) (c : Call) → r.closed ≡ true → step r c ≡ r
unfolding step insert_workspace update update_status update_status_cas delete close
closed_step r (inserts w) h = ground arith
closed_step r (updates w) h = ground arith
closed_step r (sets_status id next error probed now) h = ground arith
closed_step r (swaps_status id writer expect next error probed now) h = ground arith
closed_step r (deletes id) h = ground arith
closed_step r closes h = ground arith

-- A closed repository refuses Get, GetByAlias and List, and no calls change it again.
pub run_closed :
    (r : WorkspaceRepository) (cs : List Call)
    → r.closed ≡ true
    → (run r cs ≡ r)
      × ((id : Text) → get (run r cs) id ≡ err repository_closed)
      × ((namespace alias : Text) → get_by_alias (run r cs) namespace alias ≡ err repository_closed)
      × ((opts : ListOptions) → Listing.list (run r cs) opts ≡ err repository_closed)
unfolding run
run_closed r [] h = (
  refl,
  λ id. unfold get in ground arith,
  λ namespace alias. unfold get_by_alias in ground arith,
  λ opts. unfold Listing.list in ground arith,
)
run_closed r (c ∷ cs) h = rw (closed_step r c h) (run_closed r cs h)
