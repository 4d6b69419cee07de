-- ===== src/Scheduler/Examples.antt =====
-- The scheduler's theorems at the repository of two rows.
use mathlib.Core.List.{Memᴰ}
use ana.Base.{
  take, length, ◌≡◌, ◌≢◌, ◌⊎◌, inl, inr, refl, subst, sym, true, none, some, List, [], ◌∷◌, All,
  Text, Text-discrete, codes, lookup, insert, erase, arith, ok, length, ◌<◌, compare_text,
}
use ana.Workspace.{init, healthy, failed, Workspace, WorkspaceError, no_options, repository_closed}
use ana.Workspace.Clone.{clone_workspace}
use ana.Workspace.Failure.{live}
use ana.Storage.WorkspaceRepo.{
  AliasKey-discrete, workspace_alias_key, find_row, find_id, insert_workspace,
  validate_known_status,
}
use ana.Storage.WorkspaceRepo.Calls.{step, run}
use ana.Base.Sorting.{sort, select, insert_sorted}
use ana.Storage.WorkspaceRepo.Listing.{matches_options, labels_match, compare_namespace_alias}
use ana.Storage.WorkspaceRepo.Listing.Rows.{kept_rows}
use ana.Storage.WorkspaceRepo.Listing.Cursors.{IsEncodable, at_cursor}
use ana.Storage.Examples.Data.{
  first, second, repo, repo-IsConsistent, repo_open, repo_first, repo_second,
}
use ana.Scheduler.{ProbeRun, ProbeState, record_probe_outcome}
use ana.Scheduler.ListAll.{collect_pages, collect_pages_lem}
use ana.Scheduler.Lifecycle.{
  LifecycleCall, starts, stops, Lifecycle, new_lifecycle, start, lifecycle_run, IsSound,
  lifecycle-IsSound, stopped_for_good, scheduler_shutdown,
}
use ana.Scheduler.Probe.{Stored, IsProbed, record_probe_outcome-Stored, stale_probe_writes_nothing}
use ana.Scheduler.Tick.{TickRun, look_at, scan, run_tick}
use ana.Scheduler.Tick.Rows.{scan_probes_once}
use ana.Scheduler.Tick.Counts.{Counted, run_tick_counts}
use ana.Scheduler.Tick.Watchdog.{look_at_late, look_at_moved, watchdog_error}

rows_of_repo :
    (id : Text) (w : Workspace)
    → find_row id repo ≡ some w
    → (w ≡ clone_workspace first) ⊎ (w ≡ clone_workspace second)
unfolding run step insert_workspace find_row find_id lookup validate_known_status Text-discrete
    AliasKey-discrete insert erase
rows_of_repo id w e = ground arith

first-IsEncodable : IsEncodable (workspace_alias_key (clone_workspace first))
unfolding clone_workspace
first-IsEncodable = record {
  namespace_bytes = omega arith;
  alias_bytes = omega arith;
  no_nul = omega arith;
}

second-IsEncodable : IsEncodable (workspace_alias_key (clone_workspace second))
unfolding clone_workspace
second-IsEncodable = record {
  namespace_bytes = omega arith;
  alias_bytes = omega arith;
  no_nul = omega arith;
}

repo-IsEncodable :
    (id : Text) (w : Workspace) → find_row id repo ≡ some w → IsEncodable (workspace_alias_key w)
repo-IsEncodable id w e = elim (rows_of_repo id w e) [
  | inl p ↦ subst (λ v. IsEncodable (workspace_alias_key v)) (sym p) first-IsEncodable
  | inr p ↦ subst (λ v. IsEncodable (workspace_alias_key v)) (sym p) second-IsEncodable
]

few_rows : length (kept_rows (matches_options no_options) repo) < 5
unfolding run step insert_workspace find_row find_id lookup validate_known_status Text-discrete
    AliasKey-discrete insert erase sort insert_sorted select matches_options labels_match
    compare_namespace_alias compare_text clone_workspace
few_rows = omega arith

collect_pages_lem_example :
    collect_pages 5 repo (at_cursor no_options []) []
    ≡ some (ok (kept_rows (matches_options no_options) repo))
collect_pages_lem_example =
    (collect_pages_lem 5 repo no_options repo-IsConsistent repo_open repo-IsEncodable few_rows).0

error : WorkspaceError
error = record { code = codes "probe.error"; message = []; phase = codes "probe"; recorded_at = 7 }

abbrev no_probe : ProbeRun
no_probe = record {
  factory = some none;
  built_ctx = (live, live);
  opened = none;
  opened_ctx = (live, live);
  has_spec = true;
  probe = ok (record { healthy = true; error = none });
  probed_ctx = (live, live);
  probed_at = 7;
  failed_at = 7;
  updated_at = 8;
  repo_now = 9;
  meanwhile = [];
  between = [];
}

first_healthy : (clone_workspace first).status ≡ first.status
unfolding clone_workspace
first_healthy = refl

record_probe_outcome-Stored_example :
    Stored
      (record_probe_outcome repo first failed (some error) 7 8 9 [])
      (codes "w1")
      failed
      (some error)
      7
record_probe_outcome-Stored_example =
    record_probe_outcome-Stored repo first (clone_workspace first) failed (some error) 7 8 9
      repo-IsConsistent repo_open repo_first first_healthy (inl refl) (inr refl)

-- The tick listed the first row as failed.
abbrev listed_failed : Workspace
listed_failed = record first { status = failed }

first_ne_failed : (clone_workspace first).status ≢ failed
unfolding clone_workspace
first_ne_failed e = cc

stale_probe_writes_nothing_example :
    record_probe_outcome repo listed_failed healthy none 7 8 9 [] ≡ repo
stale_probe_writes_nothing_example =
    stale_probe_writes_nothing repo listed_failed (clone_workspace first) healthy none 7 8 9
      repo-IsConsistent repo_open repo_first [] first_ne_failed

abbrev tick : TickRun
tick = record {
  now = 1000;
  repo_now = 1001;
  before = λ id. [];
  probes = λ id. no_probe;
  handed_out = 9;
}

abbrev state : ProbeState
state = record {
  repo = repo;
  stats = record { ticks_run = 0; probes_attempted = 0; probes_healthy = 0; probes_failed = 0 };
}

scan_probes_once_example :
    All
      (λ w. Memᴰ w (first ∷ second ∷ first ∷ []) × IsProbed w.status)
      (scan 600 tick [] repo (first ∷ second ∷ first ∷ [])).1
scan_probes_once_example = (scan_probes_once 600 tick repo (first ∷ second ∷ first ∷ [])).0

run_tick_counts_example :
    Counted tick.probes
      (take 9 (scan 600 tick [] repo (first ∷ second ∷ [])).1)
      state
      (run_tick 600 tick (ok (first ∷ second ∷ [])) state)
run_tick_counts_example = (run_tick_counts 600 tick (first ∷ second ∷ []) repository_closed state).0

second_init : (clone_workspace second).status ≡ init
unfolding clone_workspace
second_init = refl

look_at_late_example :
    Stored (look_at 600 tick second repo) (codes "w2") failed (some (watchdog_error tick)) 0
look_at_late_example =
    look_at_late 600 tick second (clone_workspace second) repo repo-IsConsistent repo_open
      repo_second refl (omega arith) refl (omega arith) second_init

-- The tick listed the first row in `init`.
abbrev listed_init : Workspace
listed_init = record first { status = init }

first_ne_init : (clone_workspace first).status ≢ init
unfolding clone_workspace
first_ne_init e = cc

look_at_moved_example : look_at 600 tick listed_init repo ≡ repo
look_at_moved_example =
    look_at_moved 600 tick listed_init (clone_workspace first) repo repo-IsConsistent repo_open
      repo_first refl first_ne_init

abbrev calls : List LifecycleCall
calls = starts ∷ stops true ∷ starts ∷ []

lifecycle-IsSound_example : IsSound (lifecycle_run new_lifecycle calls)
lifecycle-IsSound_example = lifecycle-IsSound calls

abbrev stopped : Lifecycle
stopped = record { started = true; stopped = true; loops = 1; is_cancelled = true }

stopped_for_good_example :
    start (lifecycle_run stopped calls) ≡ (lifecycle_run stopped calls, some scheduler_shutdown)
stopped_for_good_example = (stopped_for_good stopped calls refl).0
