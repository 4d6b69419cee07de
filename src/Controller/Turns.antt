-- ===== src/Controller/Turns.antt =====
-- pkg/manager/workspace/controller.go: histories of the install queue. The callers, the workers and the
-- two halves of `Stop` and of `Delete` interleave in any order, step by step.
use ana.Base.{
  ℕ, ◌≡◌, refl, true, false, List, [], ◌∷◌, Text, ◌==◌, arith, after, Bool-cases, inl, inr, ◌++◌,
  ◌⊎◌, subst, sym,
}
use ana.Workspace.{Workspace}
use ana.Workspace.Failure.{ContextState, live, cancelled, expired}
use ana.Workspace.Clone.{clone_workspace}
use ana.Controller.{
  Controller, InstallJob, InstallParams, start, submit, cancel_context, cancel_all, dequeue, track,
  exit_worker, poll, finish, take_and_cancel_queued_installs, mark_stopped, cancel_root,
  clone_install_params,
}

-- `clears` takes the queued jobs of a workspace away; `cancels` calls a cancel function.
pub data Turn : Type 0 where
  starts polls marks_stopped cancels_root : Turn
  submits : ContextState → Workspace → InstallParams → Turn
  finishes cancels : ℕ → Turn
  clears : Text → Turn

unfoldable pub cancel_job : ℕ → Controller → Controller
cancel_job n s = record s { active = cancel_context n s.active }

unfoldable pub take_turn : Controller → Turn → Controller
unfolding cancel_job
take_turn s starts = after s (start s)
take_turn s polls = poll s
take_turn s marks_stopped = mark_stopped s
take_turn s cancels_root = cancel_root s
take_turn s (submits ctx w params) = after s (submit ctx w params s)
take_turn s (finishes n) = finish n s
take_turn s (cancels n) = cancel_job n s
take_turn s (clears id) = (take_and_cancel_queued_installs id s).0

unfoldable pub take_turns : Controller → List Turn → Controller
take_turns s [] = s
take_turns s (t ∷ ts) = take_turns (take_turn s t) ts

queue_cases :
    (queue : List InstallJob)
    → (queue ≡ []) ⊎ ((job : InstallJob) × (rest : List InstallJob) × (queue ≡ job ∷ rest))
queue_cases [] = inl refl
queue_cases (job ∷ rest) = inr (job, rest, refl)

pub start_refused : (s : Controller) → s.stopped ≡ true → after s (start s) ≡ s
unfolding start
start_refused s e = ground arith

pub start_again : (s : Controller) → s.stopped ≡ false → s.started ≡ true → after s (start s) ≡ s
unfolding start
start_again s e f = ground arith

-- The state after the first `Start`.
abbrev pub launched : Controller → Controller
launched s = record s {
  started = true;
  workers_remaining = s.install_workers;
  idle = s.install_workers;
  workers_done = false;
}

pub start_first :
    (s : Controller) → s.stopped ≡ false → s.started ≡ false → after s (start s) ≡ launched s
unfolding start
start_first s e f = ground arith

abbrev pub queued_job : Workspace → InstallParams → InstallJob
queued_job w params = record { workspace = clone_workspace w; params = clone_install_params params }

-- A submission is refused, and nothing happens, or it adds the copied job to a running controller.
pub submit_outcome :
    (ctx : ContextState) (w : Workspace) (params : InstallParams) (s : Controller)
    → (after s (submit ctx w params s) ≡ s)
      ⊎ ((s.started ≡ true)
          × (s.stopped ≡ false)
          × (after s (submit ctx w params s)
              ≡ record s { queue = s.queue ++ queued_job w params ∷ [] }))
unfolding submit
submit_outcome live w params s = elim (Bool-cases s.started) [
  | inl started ↦ elim (Bool-cases s.stopped) [
    | inl stopped ↦ inl (ground arith)
    | inr running ↦ inr (started, running, ground arith)
  ]
  | inr new ↦ inl (ground arith)
]
submit_outcome cancelled w params s = inl refl
submit_outcome expired w params s = inl refl

-- What a turn of a worker does.
pub data Polled (s : Controller) : Controller → Type 0 where
  idles : Polled s s
  leaves : s.idle == 0 ≡ false → s.queue ≡ [] → s.stopped ≡ true → Polled s (exit_worker s)
  works :
      (job : InstallJob) (rest : List InstallJob)
      → s.idle == 0 ≡ false
      → s.queue ≡ job ∷ rest
      → Polled s (track job rest s)

pub poll-Polled : (s : Controller) → Polled s (poll s)
unfolding poll dequeue
poll-Polled s = elim (Bool-cases (s.idle == 0)) [
  | inl none_idle ↦ subst (Polled s) (sym (ground arith)) idles
  | inr idle ↦ elim (queue_cases s.queue) [
    | inl empty ↦ elim (Bool-cases s.stopped) [
      | inl stopped ↦ subst (Polled s) (sym (ground arith)) (leaves idle empty stopped)
      | inr running ↦ subst (Polled s) (sym (ground arith)) idles
    ]
    | inr (job, rest, queued) ↦ subst (Polled s) (sym (ground arith)) (works job rest idle queued)
  ]
]

pub cancel_root_started :
    (s : Controller)
    → s.started ≡ true
    → cancel_root s ≡ record s { is_root_cancelled = true; active = cancel_all s.active }
unfolding cancel_root
cancel_root_started s e = ground arith

pub cancel_root_new : (s : Controller) → s.started ≡ false → cancel_root s ≡ s
unfolding cancel_root
cancel_root_new s e = ground arith
