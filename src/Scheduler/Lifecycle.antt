-- ===== src/Scheduler/Lifecycle.antt =====
-- pkg/manager/workspace/scheduler.go: the defaults of a scheduler, `Start` and `Stop`.
use ana.Base.{
  ℕ, ◌+◌, ◌*◌, ◌≡◌, refl, Bool, true, false, Option, none, some, List, [], ◌∷◌, arith, ◌==◌,
  if◌then◌else◌, Result, ok, ◌>>◌, reject_if, not,
}

-- Durations are nanoseconds; one that is not positive is 0, as the code treats all of these alike.
abbrev pub second : ℕ
second = 1000000000

pub record ProbeSchedulerConfig : Type 0 where
  pub has_repo : Bool
  pub has_agent_specs : Bool
  pub has_factories : Bool
  pub interval : ℕ
  pub workers : ℕ
  pub timeout : ℕ
  pub install_timeout : ℕ

pub data SchedulerError : Type 0 where
  nil_repo nil_agent_specs nil_factories scheduler_shutdown context_done : SchedulerError

-- `if cfg.X <= 0 { cfg.X = defaultX }`
abbrev positive_or : ℕ → ℕ → ℕ
positive_or x d = if x == 0 then d else x

unfoldable pub new_probe_scheduler :
    ProbeSchedulerConfig → Result SchedulerError ProbeSchedulerConfig
new_probe_scheduler cfg = do
  reject_if (not cfg.has_repo) nil_repo
  reject_if (not cfg.has_agent_specs) nil_agent_specs
  reject_if (not cfg.has_factories) nil_factories
  ok (record cfg {
    interval = positive_or cfg.interval (30 * second);
    workers = positive_or cfg.workers 4;
    timeout = positive_or cfg.timeout (5 * second);
    install_timeout = positive_or cfg.install_timeout (600 * second);
  })

-- What the mutex guards, with the loops launched and whether the context of the loop is cancelled.
pub record Lifecycle : Type 0 where
  pub started : Bool
  pub stopped : Bool
  pub loops : ℕ
  pub is_cancelled : Bool

abbrev pub new_lifecycle : Lifecycle
new_lifecycle = record { started = false; stopped = false; loops = 0; is_cancelled = false }

unfoldable pub start : Lifecycle → Lifecycle × Option SchedulerError
start s =
    if s.stopped
    then (s, some scheduler_shutdown)
    else if s.started
    then (s, none)
    else (record s { started = true; loops = s.loops + 1; is_cancelled = false }, none)

-- The wait at the end of `Stop`: the loop exits first, or the caller's context is done first.
abbrev wait_loop : Bool → Option SchedulerError
wait_loop true = none
wait_loop false = some context_done

unfoldable pub stop : Bool → Lifecycle → Lifecycle × Option SchedulerError
stop loop_exits s =
    if s.stopped
    then (s, if s.started then wait_loop loop_exits else none)
    else if s.started
    then (record s { stopped = true; is_cancelled = true }, wait_loop loop_exits)
    else (record s { stopped = true }, none)

pub data LifecycleCall : Type 0 where
  starts : LifecycleCall
  stops : Bool → LifecycleCall

unfoldable pub lifecycle_step : Lifecycle → LifecycleCall → Lifecycle
unfolding start stop
lifecycle_step s starts = (start s).0
lifecycle_step s (stops loop_exits) = (stop loop_exits s).0

unfoldable pub lifecycle_run : Lifecycle → List LifecycleCall → Lifecycle
unfolding lifecycle_step
lifecycle_run s [] = s
lifecycle_run s (c ∷ cs) = lifecycle_run (lifecycle_step s c) cs

-- At most one loop is ever launched, it is there exactly if the scheduler was started, and it is
-- cancelled exactly if the scheduler was started and then stopped.
pub record IsSound (s : Lifecycle) : Type 0 where
  pub one_loop : s.loops ≡ (if s.started then 1 else 0)
  pub cancelled : s.is_cancelled ≡ (if s.started then s.stopped else false)

lifecycle_step-IsSound :
    (s : Lifecycle) (c : LifecycleCall) → IsSound s → IsSound (lifecycle_step s c)
unfolding lifecycle_step
lifecycle_step-IsSound s starts h = ground arith
lifecycle_step-IsSound s (stops loop_exits) h = ground arith

lifecycle_run-IsSound :
    (s : Lifecycle) (cs : List LifecycleCall) → IsSound s → IsSound (lifecycle_run s cs)
unfolding lifecycle_run
lifecycle_run-IsSound s [] h = h
lifecycle_run-IsSound s (c ∷ cs) h =
    lifecycle_run-IsSound (lifecycle_step s c) cs (lifecycle_step-IsSound s c h)

lifecycle_run_stopped :
    (s : Lifecycle) (cs : List LifecycleCall)
    → s.stopped ≡ true
    → ((lifecycle_run s cs).stopped ≡ true) × ((lifecycle_run s cs).loops ≡ s.loops)
unfolding lifecycle_run
lifecycle_run_stopped s [] h = (h, refl)
lifecycle_run_stopped s (starts ∷ cs) h =
    ground (arith, lifecycle_run_stopped (lifecycle_step s starts) cs)
lifecycle_run_stopped s (stops b ∷ cs) h =
    ground (arith, lifecycle_run_stopped (lifecycle_step s (stops b)) cs)

-- After any calls of `Start` and `Stop` of a new scheduler, one loop was launched if a start succeeded and
-- none otherwise, and its context is cancelled exactly if the scheduler was stopped after it.
pub lifecycle-IsSound : (cs : List LifecycleCall) → IsSound (lifecycle_run new_lifecycle cs)
lifecycle-IsSound cs =
    lifecycle_run-IsSound new_lifecycle cs (record { one_loop = refl; cancelled = refl })

-- A stopped scheduler stays so: after any further calls, `Start` fails with the shutdown error and changes
-- nothing, and no loop was launched meanwhile.
pub stopped_for_good :
    (s : Lifecycle) (cs : List LifecycleCall)
    → s.stopped ≡ true
    → (start (lifecycle_run s cs) ≡ (lifecycle_run s cs, some scheduler_shutdown))
      × ((lifecycle_run s cs).loops ≡ s.loops)
unfolding start
stopped_for_good s cs h = let (stopped, loops) = lifecycle_run_stopped s cs h in (rw stopped, loops)
