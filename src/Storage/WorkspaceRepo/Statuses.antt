-- ===== src/Storage/WorkspaceRepo/Statuses.antt =====
-- pkg/storage/memory/workspace_repo.go: the life of a status under the writers that race for it.
use ana.Base.{
  ℕ, ◌≡◌, refl, ◌≢◌, ◌↔◌, false, Option, none, some, List, [], ◌∷◌, Text, Text-discrete, arith, ok,
  err,
}
use ana.Workspace.{
  Status, init, healthy, StatusWriter, Workspace, WorkspaceError, status_precondition_failed,
}
use ana.Workspace.Clone.{clone_workspace, id-clone_workspace, clone_error_lem}
use ana.Storage.WorkspaceRepo.{
  AliasKey, workspace_alias_key, find_id, WorkspaceRepository, find_row, insert_workspace, update,
  update_status, update_status_cas, delete, close, with_status, store_row, validate_known_status,
}
use ana.Storage.WorkspaceRepo.Invariant.{
  find_row-store_row, find_id-store_row, find_row-add_row, find_row-drop_row, IsConsistent,
}
use ana.Storage.WorkspaceRepo.Effects.{
  Allowed, installed, install_failed, timed_out, went_down, came_up, Moves, stays, settles, fails,
  drops, recovers, Restatused, validate_of_Allowed, insert_workspace_effect, update_effect,
  update_status_effect, update_status_cas_effect, delete_effect,
}
use ana.Storage.WorkspaceRepo.Calls.{
  Call, inserts, updates, sets_status, swaps_status, deletes, closes, step, run, after_cases,
  step-IsConsistent,
}

validate_known_of_Allowed :
    {writer : StatusWriter} {from to : Status}
    → Allowed writer from to
    → validate_known_status to ≡ ok tt
unfolding validate_known_status
validate_known_of_Allowed installed = refl
validate_known_of_Allowed install_failed = refl
validate_known_of_Allowed timed_out = refl
validate_known_of_Allowed went_down = refl
validate_known_of_Allowed came_up = refl

Allowed-ne : {writer : StatusWriter} {from to : Status} → Allowed writer from to → from ≢ to
Allowed-ne installed = λ e. cc
Allowed-ne install_failed = λ e. cc
Allowed-ne timed_out = λ e. cc
Allowed-ne went_down = λ e. cc
Allowed-ne came_up = λ e. cc

Allowed-ne_init : {writer : StatusWriter} {from to : Status} → Allowed writer from to → to ≢ init
Allowed-ne_init installed = λ e. cc
Allowed-ne_init install_failed = λ e. cc
Allowed-ne_init timed_out = λ e. cc
Allowed-ne_init went_down = λ e. cc
Allowed-ne_init came_up = λ e. cc

Moves-ne_init : {from to : Status} → Moves from to → from ≢ init → to ≢ init
Moves-ne_init stays h = h
Moves-ne_init settles h = absurd (h refl)
Moves-ne_init fails h = absurd (h refl)
Moves-ne_init drops h = λ e. cc
Moves-ne_init recovers h = λ e. cc

module _ (r : WorkspaceRepository) (id : Text) (writer : StatusWriter) (expect next : Status)
    (error : Option WorkspaceError) (probed now : ℕ) where
  open_of_cas :
      (s : WorkspaceRepository)
      → update_status_cas r id writer expect next error probed now ≡ ok s
      → r.closed ≡ false
  unfolding update_status_cas
  open_of_cas s e = ground arith

  cas_succeeds :
      (row : Workspace)
      → r.closed ≡ false
      → find_row id r ≡ some row
      → row.status ≡ expect
      → Allowed writer expect next
      → update_status_cas r id writer expect next error probed now
        ≡ ok (store_row r id (with_status row next error probed now))
  unfolding update_status_cas
  cas_succeeds row opened found same a =
      ground (arith, validate_of_Allowed a, validate_known_of_Allowed a)

  pub update_status_cas-ok_iff :
      (s : WorkspaceRepository)
      → (update_status_cas r id writer expect next error probed now ≡ ok s) ↔ (
          (r.closed ≡ false)
          × (row : Workspace) × (find_row id r ≡ some row)
          × (row.status ≡ expect)
          × Allowed writer expect next
          × (s ≡ store_row r id (with_status row next error probed now)))
  update_status_cas-ok_iff s = (
    λ e.
        let (u, same, a) = update_status_cas_effect r s id writer expect next error probed now e in
        (open_of_cas s e, u.row, u.found, same, a, u.written),
    λ p.
        let (opened, row, found, same, a, written) = p in
        rw written (cas_succeeds row opened found same a),
  )

  -- The row of a swap, before and after, field by field.
  pub record Swapped (old new : Workspace) : Type 0 where
    pub next_status : new.status ≡ next
    pub no_error_if_healthy : next ≡ healthy → new.status_error ≡ none
    pub error_otherwise : next ≢ healthy → new.status_error ≡ error
    pub probed_at : new.last_probe_at ≡ probed
    pub updated_now : new.updated_at ≡ now
    pub same_id : new.id ≡ old.id
    pub same_key : workspace_alias_key new ≡ workspace_alias_key old
    pub same_types : (new.agent_type ≡ old.agent_type) × (new.infra_type ≡ old.infra_type)
    pub same_options :
        (new.infra_options ≡ old.infra_options) × (new.install_params ≡ old.install_params)
    pub same_plugins : new.plugins ≡ old.plugins
    pub same_texts : (new.description ≡ old.description) × (new.labels ≡ old.labels)
    pub same_creation : new.created_at ≡ old.created_at

  -- What a successful swap has found, and what the repository reads as afterwards.
  pub record CasEffect (s : WorkspaceRepository) : Type 0 where
    pub old : Workspace
    pub new : Workspace
    pub was_there : find_row id r ≡ some old
    pub is_there : find_row id s ≡ some new
    pub was_expected : old.status ≡ expect
    pub was_allowed : Allowed writer expect next
    pub swapped : Swapped old new
    pub others_kept : (j : Text) → id ≢ j → find_row j s ≡ find_row j r
    pub keys_kept : (key : AliasKey) → find_id key s ≡ find_id key r
    pub flag_kept : s.closed ≡ r.closed

  with_status-Swapped : (old : Workspace) → Swapped old (with_status old next error probed now)
  unfolding with_status
  with_status-Swapped old = record {
    next_status = refl;
    no_error_if_healthy = λ e. ground arith;
    error_otherwise = λ e. ground (arith, clone_error_lem error);
    probed_at = refl;
    updated_now = refl;
    same_id = refl;
    same_key = refl;
    same_types = (refl, refl);
    same_options = (refl, refl);
    same_plugins = refl;
    same_texts = (refl, refl);
    same_creation = refl;
  }

  cas_effect :
      (s : WorkspaceRepository)
      → update_status_cas r id writer expect next error probed now ≡ ok s
      → CasEffect s
  cas_effect s e =
      let (opened, old, found, same, a, written) = (update_status_cas-ok_iff s).0 e in
      let new : Workspace = with_status old next error probed now in
      record {
        old = old;
        new = new;
        was_there = found;
        is_there = rw written (ground (arith, find_row-store_row r id id new));
        was_expected = same;
        was_allowed = a;
        swapped = with_status-Swapped old;
        others_kept = λ j ne. rw written (ground (arith, find_row-store_row r id j new));
        keys_kept = λ key. rw written (find_id-store_row r id new key);
        flag_kept = rw written refl;
      }

  -- A compare-and-swap succeeds exactly when the repository is open, the row exists, its status is the
  -- expected one and the writer may make this transition. The row then has the new status, the instants
  -- of the probe and of the write, and the given error, or none if the new status is healthy; all its
  -- other fields, every other row, the index of aliases and the closed flag are as before.
  pub update_status_cas_lem :
      (((s : WorkspaceRepository) × (update_status_cas r id writer expect next error probed now
            ≡ ok s))
        ↔ ((r.closed ≡ false)
            × (row : Workspace) × (find_row id r ≡ some row)
            × (row.status ≡ expect)
            × Allowed writer expect next))
      × ((s : WorkspaceRepository)
          → update_status_cas r id writer expect next error probed now ≡ ok s
          → CasEffect s)
  update_status_cas_lem = (
    (
      λ done.
          let (opened, row, found, same, a, written) = (update_status_cas-ok_iff done.0).0 done.1 in
          (opened, row, found, same, a),
      λ p.
          let (opened, row, found, same, a) = p in
          (
            store_row r id (with_status row next error probed now),
            cas_succeeds row opened found same a,
          ),
    ),
    cas_effect,
  )

-- Directly after a compare-and-swap of a row has succeeded, another of this row that expects the same
-- status fails with the precondition error, whoever makes them.
pub cas_excludes :
    (r s : WorkspaceRepository) (id : Text) (first second : StatusWriter)
    (expect next later : Status) (error error' : Option WorkspaceError)
    (probed now probed' now' : ℕ)
    → update_status_cas r id first expect next error probed now ≡ ok s
    → update_status_cas s id second expect later error' probed' now'
      ≡ err status_precondition_failed
unfolding update_status_cas with_status
cas_excludes r s id first second expect next later error error' probed now probed' now' e =
    let (opened, row, found, same, a, written) =
      (update_status_cas-ok_iff r id first expect next error probed now s).0 e in
    rw written (
      ground (
        arith,
        find_row-store_row r id id (with_status row next error probed now),
        Allowed-ne a,
        opened,
      ))

-- The row of `id`, if there is one, has left `init`.
abbrev pub HasLeftInit : Text → WorkspaceRepository → Type 0
HasLeftInit id r = (row : Workspace) → find_row id r ≡ some row → row.status ≢ init

-- The call does not insert a row `id`.
abbrev pub IsNoInsert : Text → Call → Type 0
IsNoInsert id (inserts w) = w.id ≢ id
IsNoInsert id _ = Unit

abbrev pub AllNoInsert : Text → List Call → Type 0
AllNoInsert id [] = Unit
AllNoInsert id (c ∷ cs) = IsNoInsert id c × AllNoInsert id cs

store_row-HasLeftInit :
    (r : WorkspaceRepository) (i id : Text) (old new : Workspace)
    → find_row i r ≡ some old
    → (old.status ≢ init → new.status ≢ init)
    → HasLeftInit id r
    → HasLeftInit id (store_row r i new)
store_row-HasLeftInit r i id old new found moves h row e = elim (Text-discrete i id) [
  | yes p ↦
      let left : old.status ≢ init = h old (cc (found, p)) in
      ground (arith, find_row-store_row r i id new, moves left)
  | no p ↦ ground (arith, find_row-store_row r i id new, h row)
]

Restatused-HasLeftInit :
    {r s : WorkspaceRepository} {i : Text} {next : Status} {error : Option WorkspaceError}
    {probed now : ℕ} (id : Text) (u : Restatused r s i next error probed now)
    → (u.row.status ≢ init → next ≢ init)
    → HasLeftInit id r
    → HasLeftInit id s
unfolding with_status
Restatused-HasLeftInit {r} {s} {i} {next} {error} {probed} {now} id u moves h =
    rw (u.written)
      (store_row-HasLeftInit r i id u.row (with_status u.row next error probed now) u.found moves h)

step-HasLeftInit :
    (id : Text) (r : WorkspaceRepository) (c : Call)
    → IsConsistent r
    → IsNoInsert id c
    → HasLeftInit id r
    → HasLeftInit id (step r c)
unfolding step
step-HasLeftInit id r (inserts w) k other h =
    after_cases (HasLeftInit id) r (insert_workspace r w) h λ s e row f. ground (
      arith,
      (insert_workspace_effect r s w e).3,
      find_row-add_row r (clone_workspace w) id,
      id-clone_workspace w,
      h row,
    )
step-HasLeftInit id r (updates w) k other h = after_cases (HasLeftInit id) r (update r w) h λ s e.
    let (old, found, same, key, written) = update_effect r s w e in
    rw written (
      store_row-HasLeftInit r old.id id old _ (cc (found, k.keyed w.id old found))
        (unfold clone_workspace in λ left. rw same left) h)
step-HasLeftInit id r (sets_status i next error probed now) k other h =
    after_cases (HasLeftInit id) r (update_status r i next error probed now) h λ s e.
      let (u, moves) = update_status_effect r s i next error probed now e in
      Restatused-HasLeftInit id u (Moves-ne_init moves) h
step-HasLeftInit id r (swaps_status i writer expect next error probed now) k other h =
    after_cases (HasLeftInit id) r (update_status_cas r i writer expect next error probed now) h
      λ s e.
        let (u, same, a) = update_status_cas_effect r s i writer expect next error probed now e in
        Restatused-HasLeftInit id u (λ left. Allowed-ne_init a) h
step-HasLeftInit id r (deletes i) k other h =
    after_cases (HasLeftInit id) r (delete r i) h λ s e row f.
      let (old, found, written) = delete_effect r s i e in
      ground (arith, written, find_row-drop_row r i id old, h row)
step-HasLeftInit id r closes k other h = unfold close find_row in h

-- Once a row has left `init`, no calls but an insertion under its id bring it back there: after any
-- others, a row that still stands under this id is not in `init`.
pub run-HasLeftInit :
    (id : Text) (r : WorkspaceRepository) (cs : List Call)
    → IsConsistent r
    → AllNoInsert id cs
    → HasLeftInit id r
    → HasLeftInit id (run r cs)
unfolding run
run-HasLeftInit id r [] k others h = h
run-HasLeftInit id r (c ∷ cs) k others h =
    run-HasLeftInit id (step r c) cs (step-IsConsistent r c k) others.1
      (step-HasLeftInit id r c k others.0 h)
