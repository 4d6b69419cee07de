-- ===== src/Storage/WorkspaceRepo/Effects.antt =====
-- pkg/storage/memory/workspace_repo.go: what a method that succeeds has found and written.
use ana.Base.{ℕ, ◌≡◌, refl, inl, inr, Option, none, some, Text, arith, Option-cases, ok}
use ana.Workspace.{
  Status, init, healthy, failed, other, StatusWriter, controller, scheduler, Workspace,
  WorkspaceError,
}
use ana.Workspace.Clone.{clone_workspace}
use ana.Storage.WorkspaceRepo.{
  WorkspaceRepository, workspace_alias_key, find_row, find_id, insert_workspace, update,
  update_status, update_status_cas, delete, store_row, with_status, validate_known_status,
  validate_status_transition, validate_transition_by_writer,
}
use ana.Storage.WorkspaceRepo.Invariant.{IsKnown, add_row, drop_row}

-- Who may move a status where.
pub data Allowed : StatusWriter → Status → Status → Type 0 where
  installed : Allowed controller init healthy
  install_failed : Allowed controller init failed
  timed_out : Allowed scheduler init failed
  went_down : Allowed scheduler healthy failed
  came_up : Allowed scheduler failed healthy

-- The status of `row` replaced, all that identifies the row kept.
pub record Restatused (r s : WorkspaceRepository) (id : Text) (next : Status)
    (error : Option WorkspaceError) (probed now : ℕ) : Type 0 where
  pub row : Workspace
  pub found : find_row id r ≡ some row
  pub known : IsKnown next
  pub written : s ≡ store_row r id (with_status row next error probed now)

-- What `UpdateStatus`, which names no writer, lets through.
pub data Moves : Status → Status → Type 0 where
  stays : Moves init init
  settles : Moves init healthy
  fails : Moves init failed
  drops : Moves healthy failed
  recovers : Moves failed healthy

pub Allowed-of_validate :
    (writer : StatusWriter) (from to : Status)
    → validate_transition_by_writer writer from to ≡ ok tt
    → Allowed writer from to
unfolding validate_transition_by_writer
Allowed-of_validate controller init healthy e = installed
Allowed-of_validate controller init failed e = install_failed
Allowed-of_validate scheduler init failed e = timed_out
Allowed-of_validate scheduler healthy failed e = went_down
Allowed-of_validate scheduler failed healthy e = came_up
Allowed-of_validate _ _ _ e = cc

pub validate_of_Allowed :
    {writer : StatusWriter} {from to : Status}
    → Allowed writer from to
    → validate_transition_by_writer writer from to ≡ ok tt
unfolding validate_transition_by_writer
validate_of_Allowed installed = refl
validate_of_Allowed install_failed = refl
validate_of_Allowed timed_out = refl
validate_of_Allowed went_down = refl
validate_of_Allowed came_up = refl

pub Moves-of_validate :
    (from to : Status) → validate_status_transition from to ≡ ok tt → Moves from to
unfolding validate_status_transition
Moves-of_validate init init e = stays
Moves-of_validate init healthy e = settles
Moves-of_validate init failed e = fails
Moves-of_validate healthy failed e = drops
Moves-of_validate failed healthy e = recovers
Moves-of_validate _ _ e = cc

pub IsKnown-of_validate : (status : Status) → validate_known_status status ≡ ok tt → IsKnown status
unfolding validate_known_status
IsKnown-of_validate (other s) e = cc
IsKnown-of_validate _ e = tt

module _ (r s : WorkspaceRepository) where
  pub insert_workspace_effect :
      (w : Workspace)
      → insert_workspace r w ≡ ok s
      → (find_row w.id r ≡ none)
        × (find_id (workspace_alias_key w) r ≡ none)
        × (validate_known_status w.status ≡ ok tt)
        × (s ≡ add_row r (clone_workspace w))
  unfolding insert_workspace clone_workspace
  insert_workspace_effect w e = ground arith

  pub update_effect :
      (w : Workspace)
      → update r w ≡ ok s
      → (old : Workspace) × (find_row w.id r ≡ some old)
        × (w.status ≡ old.status)
        × (workspace_alias_key w ≡ workspace_alias_key old)
        × (s
            ≡ store_row r old.id
                (clone_workspace (record w { id = old.id; created_at = old.created_at })))
  unfolding update
  update_effect w e = elim (Option-cases (find_row w.id r)) [
    | inl missing ↦ absurd (ground arith)
    | inr (old, found) ↦ (old, found, ground arith, ground arith, ground arith)
  ]

  pub update_status_effect :
      (id : Text) (next : Status) (error : Option WorkspaceError) (probed now : ℕ)
      → update_status r id next error probed now ≡ ok s
      → (u : Restatused r s id next error probed now) × Moves u.row.status next
  unfolding update_status
  update_status_effect id next error probed now e = elim (Option-cases (find_row id r)) [
    | inl missing ↦ absurd (ground arith)
    | inr (row, found) ↦ (
      record {
        row = row;
        found = found;
        known = IsKnown-of_validate next (ground arith);
        written = ground arith;
      },
      Moves-of_validate row.status next (ground arith),
    )
  ]

  pub update_status_cas_effect :
      (id : Text) (writer : StatusWriter) (expect next : Status) (error : Option WorkspaceError)
      (probed now : ℕ)
      → update_status_cas r id writer expect next error probed now ≡ ok s
      → (u : Restatused r s id next error probed now) × (u.row.status ≡ expect)
        × Allowed writer expect next
  unfolding update_status_cas
  update_status_cas_effect id writer expect next error probed now e =
      elim (Option-cases (find_row id r)) [
        | inl missing ↦ absurd (ground arith)
        | inr (row, found) ↦ (
          record {
            row = row;
            found = found;
            known = IsKnown-of_validate next (ground arith);
            written = ground arith;
          },
          ground arith,
          Allowed-of_validate writer expect next (ground arith),
        )
      ]

  pub delete_effect :
      (id : Text)
      → delete r id ≡ ok s
      → (row : Workspace) × (find_row id r ≡ some row) × (s ≡ drop_row r id row)
  unfolding delete
  delete_effect id e = elim (Option-cases (find_row id r)) [
    | inl missing ↦ absurd (ground arith)
    | inr (row, found) ↦ (row, found, ground arith)
  ]
