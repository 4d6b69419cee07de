-- ===== src/Scheduler/Tick/Counts.antt =====
-- pkg/manager/workspace/scheduler.go: what a tick counts.
use ana.Base.{
  ℕ, ◌+◌, ◌≡◌, refl, true, false, List, [], ◌∷◌, length, take, ite, Bool, if◌then◌else◌, Text,
  arith, ok, err,
}
use ana.Workspace.{init, healthy, failed, other, Status-discrete, Workspace, RepoError}
use ana.Storage.WorkspaceRepo.Calls.{run}
use ana.Scheduler.{
  ProbeRun, ProbeState, Outcome, dropped, recorded, probe_outcome, finish_probe, count_outcome,
  probe_one,
}
use ana.Scheduler.Tick.{TickRun, scan, probe_all, count_tick, run_tick}

-- What the observed outcome of a probe is counted as.
unfoldable pub is_healthy_outcome : Outcome → Bool
is_healthy_outcome dropped = false
is_healthy_outcome (recorded status error probed_at) =
    ite (Status-discrete status healthy) true false

unfoldable pub is_failed_outcome : Outcome → Bool
is_failed_outcome dropped = false
is_failed_outcome (recorded status error probed_at) =
    ite (Status-discrete status healthy) false true

-- The rows whose probe has an outcome that passes the test.
unfoldable pub count_rows : (Text → ProbeRun) → (Outcome → Bool) → List Workspace → ℕ
count_rows probes test [] = 0
count_rows probes test (row ∷ rows) =
    let rest = count_rows probes test rows in
    if test (probe_outcome (probes row.id) row) then rest + 1 else rest

-- The counters `next` after the probes of the rows, from the counters `s` before.
pub record Counted (probes : Text → ProbeRun) (rows : List Workspace) (s next : ProbeState)
    : Type 0 where
  pub attempts : next.stats.probes_attempted ≡ s.stats.probes_attempted + length rows
  pub healthy_outcomes :
      next.stats.probes_healthy ≡ s.stats.probes_healthy + count_rows probes is_healthy_outcome rows
  pub failed_outcomes :
      next.stats.probes_failed ≡ s.stats.probes_failed + count_rows probes is_failed_outcome rows

finish_probe_counts :
    (p : ProbeRun) (row : Workspace) (s : ProbeState) (o : Outcome)
    → ((finish_probe p row s o).stats.probes_attempted ≡ s.stats.probes_attempted)
      × ((finish_probe p row s o).stats.ticks_run ≡ s.stats.ticks_run)
      × ((finish_probe p row s o).stats.probes_healthy
          ≡ s.stats.probes_healthy + (if is_healthy_outcome o then 1 else 0))
      × ((finish_probe p row s o).stats.probes_failed
          ≡ s.stats.probes_failed + (if is_failed_outcome o then 1 else 0))
unfolding finish_probe count_outcome Status-discrete is_healthy_outcome is_failed_outcome
finish_probe_counts p row s dropped = (refl, refl, omega arith, omega arith)
finish_probe_counts p row s (recorded init error probed_at) = (refl, refl, omega arith, omega arith)
finish_probe_counts p row s (recorded healthy error probed_at) =
    (refl, refl, omega arith, omega arith)
finish_probe_counts p row s (recorded failed error probed_at) =
    (refl, refl, omega arith, omega arith)
finish_probe_counts p row s (recorded (other status) error probed_at) =
    (refl, refl, omega arith, omega arith)

probe_all_counts :
    (probes : Text → ProbeRun) (rows : List Workspace) (s : ProbeState)
    → Counted probes rows s (probe_all probes rows s)
      × ((probe_all probes rows s).stats.ticks_run ≡ s.stats.ticks_run)
unfolding probe_all probe_one count_rows
probe_all_counts probes [] s = (
  record { attempts = omega arith; healthy_outcomes = omega arith; failed_outcomes = omega arith },
  refl,
)
probe_all_counts probes (row ∷ rows) s =
    let p = probes row.id in
    let attempted : ProbeState = record s {
      repo = run s.repo p.meanwhile;
      stats = record s.stats { probes_attempted = s.stats.probes_attempted + 1 };
    } in
    let (attempts, ticks, healthy_one, failed_one) =
      finish_probe_counts p row attempted (probe_outcome p row) in
    let (all, ticks') = probe_all_counts probes rows (probe_one p row s) in
    (
      record {
        attempts = omega (arith, attempts, all.attempts);
        healthy_outcomes = ground (arith, healthy_one, all.healthy_outcomes);
        failed_outcomes = ground (arith, failed_one, all.failed_outcomes);
      },
      omega (arith, ticks, ticks'),
    )

-- From any counters, a tick counts itself once, one attempt for each row that it hands out, one
-- healthy outcome for each of these whose probe reports health, and one failed outcome for each whose
-- probe reports a failure; a probe that a done context ends has no outcome. A tick whose listing
-- failed counts itself only and changes nothing else.
pub run_tick_counts :
    (timeout : ℕ) (t : TickRun) (rows : List Workspace) (e : RepoError) (s : ProbeState)
    → Counted t.probes
        (take t.handed_out (scan timeout t [] s.repo rows).1)
        s
        (run_tick timeout t (ok rows) s)
      × ((run_tick timeout t (ok rows) s).stats.ticks_run ≡ s.stats.ticks_run + 1)
      × (run_tick timeout t (err e) s
          ≡ record s { stats = record s.stats { ticks_run = s.stats.ticks_run + 1 } })
unfolding run_tick count_tick
run_tick_counts timeout t rows e s =
    let (all, ticks) =
      probe_all_counts t.probes (take t.handed_out (scan timeout t [] s.repo rows).1)
        (record (count_tick s) { repo = (scan timeout t [] s.repo rows).0 }) in
    (
      record {
        attempts = all.attempts;
        healthy_outcomes = all.healthy_outcomes;
        failed_outcomes = all.failed_outcomes;
      },
      ticks,
      refl,
    )
