-- ===== src/Controller/Workers.antt =====
-- pkg/manager/workspace/controller.go: the workers, from `Start` to the end that `Stop` waits for.
use ana.Base.{
  ℕ, ◌+◌, ◌≡◌, refl, true, false, none, some, List, [], ◌∷◌, length, Text-discrete, lookup, arith,
  after, Bool-cases, Option-cases, inl, inr, subst, sym,
}
use ana.Workspace.{Workspace}
use ana.Workspace.Failure.{ContextState}
use ana.Controller.{
  Controller, new_controller, InstallParams, start, submit, ActiveJob, track, exit_worker, poll,
  finish_tracked_install, find_active, remove_active, finish, take_and_cancel_queued_installs,
  mark_stopped, cancel_root,
}
use ana.Controller.Tracking.{
  length-cancel_context, length-cancel_if_some, length-cancel_all, length-remove_active,
}
use ana.Controller.Turns.{
  Turn, starts, polls, marks_stopped, cancels_root, submits, finishes, cancels, clears, take_turn,
  take_turns, start_refused, start_again, launched, start_first, submit_outcome, Polled, idles,
  leaves, works, poll-Polled, cancel_root_started, cancel_root_new,
}
use ana.Controller.Jobs.{reached}

-- The workers are those that wait and those that run a job; before `Start` there are none, and the
-- channel of their end is closed only if the controller is stopped and nothing is left to do.
pub record IsStaffed (s : Controller) : Type 0 where
  pub staffed : s.workers_remaining ≡ s.idle + length s.active
  pub unstarted : s.started ≡ false → (s.queue ≡ []) × (s.workers_remaining ≡ 0)
  pub ended :
      s.workers_done ≡ true
      → (s.started ≡ true) × (s.stopped ≡ true) × (s.queue ≡ []) × (s.workers_remaining ≡ 0)

length_zero : (jobs : List ActiveJob) → length jobs ≡ 0 → jobs ≡ []
length_zero [] h = refl
length_zero (a ∷ jobs) h = absurd (omega arith)

new-IsStaffed : (n : ℕ) → IsStaffed (new_controller n)
new-IsStaffed n = record {
  staffed = refl;
  unstarted = λ e. (refl, refl);
  ended = λ e. absurd (ground arith);
}

pub finish_gone : (n : ℕ) (s : Controller) → find_active n s.active ≡ none → finish n s ≡ s
unfolding finish
finish_gone n s e = ground arith

-- What the deferred lines change of the state that the workers' invariant reads.
pub finish_effect :
    (n : ℕ) (s : Controller) (a : ActiveJob)
    → find_active n s.active ≡ some a
    → ((finish n s).workers_remaining ≡ s.workers_remaining)
      × ((finish n s).idle ≡ s.idle + 1)
      × ((finish n s).active ≡ remove_active n s.active)
      × ((finish n s).started ≡ s.started)
      × ((finish n s).stopped ≡ s.stopped)
      × ((finish n s).queue ≡ s.queue)
      × ((finish n s).workers_done ≡ s.workers_done)
unfolding finish finish_tracked_install
finish_effect n s a e = (
  ground arith,
  ground arith,
  ground arith,
  ground arith,
  ground arith,
  ground arith,
  ground arith,
)

finished-IsStaffed :
    (n : ℕ) (s : Controller) (a : ActiveJob)
    → find_active n s.active ≡ some a
    → IsStaffed s
    → IsStaffed (finish n s)
finished-IsStaffed n s a e h =
    let (remaining, idle, active, started, stopped, queue, done) = finish_effect n s a e in
    record {
      staffed =
          ground (arith, h.staffed, length-remove_active n a s.active e, remaining, idle, active);
      unstarted = λ f. ground (arith, h.unstarted, started, queue, remaining);
      ended = λ f. ground (arith, h.ended, started, stopped, queue, remaining, done);
    }

launched-IsStaffed :
    (s : Controller) → s.stopped ≡ false → s.started ≡ false → IsStaffed s → IsStaffed (launched s)
launched-IsStaffed s running new h = record {
  staffed = ground (arith, h.staffed, h.unstarted new, length_zero s.active);
  unstarted = λ e. absurd (ground arith);
  ended = λ e. absurd (ground arith);
}

start-IsStaffed : (s : Controller) → IsStaffed s → IsStaffed (after s (start s))
start-IsStaffed s h = elim (Bool-cases s.stopped) [
  | inl stopped ↦ rw (start_refused s stopped) h
  | inr running ↦ elim (Bool-cases s.started) [
    | inl started ↦ rw (start_again s running started) h
    | inr new ↦ rw (start_first s running new) (launched-IsStaffed s running new h)
  ]
]

Polled-IsStaffed : (s t : Controller) → Polled s t → IsStaffed s → IsStaffed t
Polled-IsStaffed s _ idles h = h
Polled-IsStaffed s _ (leaves idle empty stopped) h =
    unfold exit_worker in
    record {
      staffed = ground (arith, h.staffed);
      unstarted = λ e. ground (arith, h.unstarted e);
      ended = λ e. ground (arith, h.ended, h.unstarted, h.staffed);
    }
Polled-IsStaffed s _ (works job rest idle queued) h =
    unfold track in
    record {
      staffed = ground (
        arith,
        h.staffed,
        length-cancel_if_some (lookup Text-discrete job.workspace.id s.install_cancel) s.active,
      );
      unstarted = λ e. absurd (ground (arith, h.unstarted e));
      ended = λ e. absurd (ground (arith, h.ended e));
    }

finish-IsStaffed : (n : ℕ) (s : Controller) → IsStaffed s → IsStaffed (finish n s)
finish-IsStaffed n s h = elim (Option-cases (find_active n s.active)) [
  | inl gone ↦ rw (finish_gone n s gone) h
  | inr (a, found) ↦ finished-IsStaffed n s a found h
]

submit-IsStaffed :
    (ctx : ContextState) (w : Workspace) (params : InstallParams) (s : Controller)
    → IsStaffed s
    → IsStaffed (after s (submit ctx w params s))
submit-IsStaffed ctx w params s h = elim (submit_outcome ctx w params s) [
  | inl refused ↦ rw refused h
  | inr (started, running, added) ↦ rw added (record {
    staffed = h.staffed;
    unstarted = λ e. absurd (ground arith);
    ended = λ e. absurd (ground (arith, h.ended e));
  })
]

cancel_root-IsStaffed : (s : Controller) → IsStaffed s → IsStaffed (cancel_root s)
cancel_root-IsStaffed s h = elim (Bool-cases s.started) [
  | inl started ↦ subst IsStaffed (sym (cancel_root_started s started)) (record {
    staffed = ground (arith, h.staffed, length-cancel_all s.active);
    unstarted = h.unstarted;
    ended = h.ended;
  })
  | inr new ↦ subst IsStaffed (sym (cancel_root_new s new)) h
]

take_turn-IsStaffed : (s : Controller) (t : Turn) → IsStaffed s → IsStaffed (take_turn s t)
unfolding take_turn take_and_cancel_queued_installs mark_stopped
take_turn-IsStaffed s starts h = start-IsStaffed s h
take_turn-IsStaffed s polls h = Polled-IsStaffed s (poll s) (poll-Polled s) h
take_turn-IsStaffed s marks_stopped h = record {
  staffed = h.staffed;
  unstarted = h.unstarted;
  ended = λ e. ground (arith, h.ended e);
}
take_turn-IsStaffed s cancels_root h = cancel_root-IsStaffed s h
take_turn-IsStaffed s (submits ctx w params) h = submit-IsStaffed ctx w params s h
take_turn-IsStaffed s (finishes n) h = finish-IsStaffed n s h
take_turn-IsStaffed s (cancels n) h = record {
  staffed = ground (arith, h.staffed, length-cancel_context n s.active);
  unstarted = h.unstarted;
  ended = h.ended;
}
take_turn-IsStaffed s (clears id) h = record {
  staffed = h.staffed;
  unstarted = λ e. ground (arith, h.unstarted e);
  ended = λ e. ground (arith, h.ended e);
}

take_turns-IsStaffed : (s : Controller) (ts : List Turn) → IsStaffed s → IsStaffed (take_turns s ts)
unfolding take_turns
take_turns-IsStaffed s [] h = h
take_turns-IsStaffed s (t ∷ ts) h =
    take_turns-IsStaffed (take_turn s t) ts (take_turn-IsStaffed s t h)

-- However callers, workers, `Stop` and `Delete` interleave, once the channel that `Stop` waits for is
-- closed, the controller is stopped, no job is queued, no install runs, and no worker is left.
pub workers_done_lem :
    (install_workers : ℕ) (ts : List Turn)
    → (reached install_workers ts).workers_done ≡ true
    → ((reached install_workers ts).stopped ≡ true)
      × ((reached install_workers ts).queue ≡ [])
      × ((reached install_workers ts).active ≡ [])
      × ((reached install_workers ts).workers_remaining ≡ 0)
workers_done_lem n ts e =
    let h = take_turns-IsStaffed (new_controller n) ts (new-IsStaffed n) in
    let (started, stopped, empty, none_left) = h.ended e in
    (stopped, empty, length_zero _ (ground (arith, h.staffed)), none_left)
