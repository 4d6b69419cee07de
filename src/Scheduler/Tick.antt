-- ===== src/Scheduler/Tick.antt =====
-- pkg/manager/workspace/scheduler.go: `runTick`. The workers take the rows from one channel in the order
-- of the listing; how their probes interleave shows in what each probe observes others call meanwhile.
pub mod Rows
pub mod Counts
pub mod Watchdog
use ana.Base.{
  ℕ, suc, ◌+◌, ◌-◌, ◌≤◌, ◌<◌, ◌≡◌, refl, inl, inr, Bool, true, false, ◌&&◌, Option, none, some,
  List, [], ◌∷◌, All, length, take, Text, Text-discrete, codes, ite, ltb, arith, if◌then◌else◌,
  Bool-cases, Result, ok, err, after, ◌||◌,
}
use ana.Workspace.{Status, init, healthy, failed, Status-discrete, scheduler, Workspace, RepoError}
use ana.Workspace.Failure.{GoError, install_timeout, wrap, failure_from_error}
use ana.Storage.WorkspaceRepo.{WorkspaceRepository, update_status_cas}
use ana.Storage.WorkspaceRepo.Invariant.{IsConsistent}
use ana.Storage.WorkspaceRepo.Calls.{
  Call, run, step, swaps_status, run-IsConsistent, step-IsConsistent,
}
use ana.Scheduler.{ProbeRun, ProbeStats, ProbeState, Outcome, probe_outcome, probe_one}
use ana.Scheduler.Probe.{IsProbed}

-- What a tick observes: its instant, what others call before the row of an id is looked at, the probe of
-- each row, and how many rows are handed out before the context is done.
pub record TickRun : Type 0 where
  pub now : ℕ
  pub repo_now : ℕ
  pub before : Text → List Call
  pub probes : Text → ProbeRun
  pub handed_out : ℕ

abbrev pub has_status : Status → Workspace → Bool
has_status s row = ite (Status-discrete row.status s) true false

-- `installTimedOut`; an instant before the creation gives no positive difference
unfoldable pub install_timed_out : ℕ → ℕ → Workspace → Bool
install_timed_out timeout now row =
    has_status init row && ltb 0 timeout && ltb timeout (now - row.created_at)

abbrev pub timeout_error : GoError
timeout_error = wrap install_timeout (codes "workspace: install timeout")

-- The watchdog: `init` to `failed` by a compare-and-swap, whose failure is logged only.
unfoldable pub time_out : TickRun → Workspace → WorkspaceRepository → WorkspaceRepository
time_out t row r = after r (
    update_status_cas r row.id scheduler init failed
      (some (failure_from_error t.now (codes "install") timeout_error)) 0 t.repo_now)

-- The body of the loop over the listed rows, but for `seen`.
unfoldable pub look_at : ℕ → TickRun → Workspace → WorkspaceRepository → WorkspaceRepository
unfolding time_out install_timed_out
look_at timeout t row r =
    let s = run r (t.before row.id) in
    if install_timed_out timeout t.now row then time_out t row s else s

unfoldable pub mem_text : Text → List Text → Bool
mem_text a [] = false
mem_text a (b ∷ bs) = let rest = mem_text a bs in ite (Text-discrete a b) true rest

abbrev pub is_probed : Workspace → Bool
is_probed row = has_status healthy row || has_status failed row

-- The loop: the repository afterwards, and the rows to probe.
unfoldable pub scan :
    ℕ
    → TickRun
    → List Text
    → WorkspaceRepository
    → List Workspace
    → WorkspaceRepository × List Workspace
scan timeout t seen r [] = (r, [])
scan timeout t seen r (row ∷ rows) =
    let skipped = scan timeout t seen r rows in
    let (s, probe_rows) = scan timeout t (row.id ∷ seen) (look_at timeout t row r) rows in
    if mem_text row.id seen
    then skipped
    else if is_probed row
    then (s, row ∷ probe_rows)
    else (s, probe_rows)

unfoldable pub probe_all : (Text → ProbeRun) → List Workspace → ProbeState → ProbeState
probe_all probes [] s = s
probe_all probes (row ∷ rows) s = probe_all probes rows (probe_one (probes row.id) row s)

unfoldable pub count_tick : ProbeState → ProbeState
count_tick s = record s { stats = record s.stats { ticks_run = s.stats.ticks_run + 1 } }

-- `runTick`, given what `listAll` returned: an error ends the tick.
unfoldable pub run_tick : ℕ → TickRun → Result RepoError (List Workspace) → ProbeState → ProbeState
unfolding count_tick
run_tick timeout t (err e) s = count_tick s
run_tick timeout t (ok rows) s =
    let counted = count_tick s in
    let (r, probe_rows) = scan timeout t [] counted.repo rows in
    probe_all t.probes (take t.handed_out probe_rows) (record counted { repo = r })
