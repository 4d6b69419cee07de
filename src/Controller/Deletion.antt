-- ===== src/Controller/Deletion.antt =====
-- pkg/manager/workspace/controller.go: how `Delete` gets a workspace's installs out of the way.
use ana.Base.{
  ℕ, ◌+◌, ◌≡◌, ◌≢◌, refl, false, Option, none, some, List, [], ◌∷◌, Text, Text-discrete, Map,
  lookup, ite, arith, after, Bool-cases, Option-cases, inl, inr, ◌++◌, subst, sym,
}
use ana.Workspace.{Workspace}
use ana.Workspace.Failure.{ContextState}
use ana.Workspace.Clone.{id-clone_workspace}
use ana.Controller.{
  Controller, InstallJob, InstallParams, start, submit, ActiveJob, cancel_context, cancel_all,
  cancel_if_some, track, exit_worker, poll, find_active, remove_active, finish, without_id,
  take_and_cancel_queued_installs, mark_stopped, cancel_root,
}
use ana.Controller.Tracking.{count_live, AllTracked}
use ana.Controller.Turns.{
  Turn, starts, polls, marks_stopped, cancels_root, submits, finishes, cancels, clears, take_turn,
  take_turns, start_refused, start_again, start_first, queued_job, submit_outcome, Polled, idles,
  leaves, works, poll-Polled, cancel_root_started, cancel_root_new,
}
use ana.Controller.Jobs.{reached, IsTracked, reached-IsTracked}
use ana.Controller.Workers.{finish_gone, finish_effect}

-- How many jobs of a workspace are queued.
unfoldable pub count_queued : Text → List InstallJob → ℕ
count_queued id [] = 0
count_queued id (job ∷ jobs) =
    ite (Text-discrete job.workspace.id id) (count_queued id jobs + 1) (count_queued id jobs)

-- The turn does not submit the workspace.
abbrev pub IsNoSubmit : Text → Turn → Type 0
IsNoSubmit id (submits ctx w params) = w.id ≢ id
IsNoSubmit id _ = Unit

abbrev pub AllNoSubmit : Text → List Turn → Type 0
AllNoSubmit id [] = Unit
AllNoSubmit id (t ∷ ts) = IsNoSubmit id t × AllNoSubmit id ts

-- Each job of the workspace whose context is not cancelled has the given context.
abbrev pub LiveHave : Text → Option ℕ → List ActiveJob → Type 0
LiveHave id o [] = Unit
LiveHave id o (a ∷ jobs) =
    (a.id ≡ id → a.is_cancelled ≡ false → o ≡ some a.ctx) × LiveHave id o jobs

LiveHave-tracked :
    (id : Text) (m : Map Text ℕ) (jobs : List ActiveJob)
    → AllTracked m jobs
    → LiveHave id (lookup Text-discrete id m) jobs
LiveHave-tracked id m [] h = tt
LiveHave-tracked id m (a ∷ jobs) h = (ground arith, LiveHave-tracked id m jobs h.1)

LiveHave-cancel_context :
    (id : Text) (o : Option ℕ) (n : ℕ) (jobs : List ActiveJob)
    → LiveHave id o jobs
    → LiveHave id o (cancel_context n jobs)
unfolding cancel_context
LiveHave-cancel_context id o n [] h = tt
LiveHave-cancel_context id o n (a ∷ jobs) h =
    (ground arith, LiveHave-cancel_context id o n jobs h.1)

LiveHave-cancel_if_some :
    (id : Text) (o p : Option ℕ) (jobs : List ActiveJob)
    → LiveHave id o jobs
    → LiveHave id o (cancel_if_some p jobs)
unfolding cancel_if_some
LiveHave-cancel_if_some id o none jobs h = h
LiveHave-cancel_if_some id o (some n) jobs h = LiveHave-cancel_context id o n jobs h

LiveHave-cancel_all :
    (id : Text) (o : Option ℕ) (jobs : List ActiveJob) → LiveHave id o (cancel_all jobs)
unfolding cancel_all
LiveHave-cancel_all id o [] = tt
LiveHave-cancel_all id o (a ∷ jobs) = (λ e f. absurd (ground arith), LiveHave-cancel_all id o jobs)

LiveHave-remove_active :
    (id : Text) (o : Option ℕ) (n : ℕ) (jobs : List ActiveJob)
    → LiveHave id o jobs
    → LiveHave id o (remove_active n jobs)
unfolding remove_active
LiveHave-remove_active id o n [] h = tt
LiveHave-remove_active id o n (a ∷ jobs) h = ground (arith, LiveHave-remove_active id o n jobs h.1)

-- Cancelling that context leaves no live job.
LiveHave-cancelled :
    (id : Text) (o : Option ℕ) (jobs : List ActiveJob)
    → LiveHave id o jobs
    → LiveHave id none (cancel_if_some o jobs)
unfolding cancel_if_some cancel_context
LiveHave-cancelled id none [] h = tt
LiveHave-cancelled id (some n) [] h = tt
LiveHave-cancelled id none (a ∷ jobs) h = h
LiveHave-cancelled id (some n) (a ∷ jobs) h =
    (ground arith, LiveHave-cancelled id (some n) jobs h.1)

count_live-LiveHave :
    (id : Text) (jobs : List ActiveJob) → LiveHave id none jobs → count_live id jobs ≡ 0
unfolding count_live
count_live-LiveHave id [] h = refl
count_live-LiveHave id (a ∷ jobs) h = ground (arith, count_live-LiveHave id jobs h.1)

pub count_queued-append :
    (id : Text) (jobs : List InstallJob) (job : InstallJob)
    → count_queued id (jobs ++ job ∷ [])
      ≡ count_queued id jobs + ite (Text-discrete job.workspace.id id) 1 0
unfolding count_queued
count_queued-append id [] job = ground arith
count_queued-append id (j ∷ jobs) job = ground (arith, count_queued-append id jobs job)

pub count_queued-without_id :
    (id k : Text) (jobs : List InstallJob)
    → count_queued k (without_id id jobs) ≡ ite (Text-discrete id k) 0 (count_queued k jobs)
unfolding count_queued without_id
count_queued-without_id id k [] = ground arith
count_queued-without_id id k (j ∷ jobs) = ground (arith, count_queued-without_id id k jobs)

-- No job of the workspace is queued, and those that run live have the given context.
pub record IsLeaving (id : Text) (o : Option ℕ) (s : Controller) : Type 0 where
  pub unqueued : count_queued id s.queue ≡ 0
  pub live_have : LiveHave id o s.active

same_IsLeaving :
    (id : Text) (o : Option ℕ) (s t : Controller)
    → t.queue ≡ s.queue
    → t.active ≡ s.active
    → IsLeaving id o s
    → IsLeaving id o t
same_IsLeaving id o s t queue active h = record {
  unqueued = rw queue (h.unqueued);
  live_have = rw active (h.live_have);
}

module _ (id : Text) (o : Option ℕ) (s : Controller) (h : IsLeaving id o s) where
  start-IsLeaving : IsLeaving id o (after s (start s))
  start-IsLeaving = elim (Bool-cases s.stopped) [
    | inl stopped ↦ rw (start_refused s stopped) h
    | inr running ↦ elim (Bool-cases s.started) [
      | inl started ↦ rw (start_again s running started) h
      | inr new ↦ rw (start_first s running new) (same_IsLeaving id o s _ refl refl h)
    ]
  ]

  submit-IsLeaving :
      (ctx : ContextState) (w : Workspace) (params : InstallParams)
      → w.id ≢ id
      → IsLeaving id o (after s (submit ctx w params s))
  submit-IsLeaving ctx w params other = elim (submit_outcome ctx w params s) [
    | inl refused ↦ rw refused h
    | inr (started, running, added) ↦ rw added (record {
      unqueued = ground (
        arith,
        count_queued-append id s.queue (queued_job w params),
        h.unqueued,
        id-clone_workspace w,
      );
      live_have = h.live_have;
    })
  ]

  finish-IsLeaving : (n : ℕ) → IsLeaving id o (finish n s)
  finish-IsLeaving n = elim (Option-cases (find_active n s.active)) [
    | inl gone ↦ rw (finish_gone n s gone) h
    | inr (a, found) ↦
        let (remaining, idle, active, started, stopped, queue, done) = finish_effect n s a found in
        record {
          unqueued = rw queue (h.unqueued);
          live_have = rw active (LiveHave-remove_active id o n s.active h.live_have);
        }
  ]

  cancel_root-IsLeaving : IsLeaving id o (cancel_root s)
  cancel_root-IsLeaving = elim (Bool-cases s.started) [
    | inl started ↦
        subst (IsLeaving id o) (sym (cancel_root_started s started))
          (record { unqueued = h.unqueued; live_have = LiveHave-cancel_all id o s.active })
    | inr new ↦ subst (IsLeaving id o) (sym (cancel_root_new s new)) h
  ]

Polled-IsLeaving :
    (id : Text) (o : Option ℕ) (s t : Controller) → Polled s t → IsLeaving id o s → IsLeaving id o t
Polled-IsLeaving id o s _ idles h = h
Polled-IsLeaving id o s _ (leaves _ _ _) h =
    unfold exit_worker in same_IsLeaving id o s _ refl refl h
Polled-IsLeaving id o s _ (works job rest idle queued) h =
    unfold track count_queued in
    record {
      unqueued = unfold count_queued in ground (arith, h.unqueued);
      live_have = (
        unfold count_queued in ground (arith, h.unqueued),
        LiveHave-cancel_if_some id o _ s.active h.live_have,
      );
    }

take_turn-IsLeaving :
    (id : Text) (o : Option ℕ) (s : Controller) (t : Turn)
    → IsNoSubmit id t
    → IsLeaving id o s
    → IsLeaving id o (take_turn s t)
unfolding take_turn take_and_cancel_queued_installs mark_stopped
take_turn-IsLeaving id o s starts other h = start-IsLeaving id o s h
take_turn-IsLeaving id o s polls other h = Polled-IsLeaving id o s (poll s) (poll-Polled s) h
take_turn-IsLeaving id o s marks_stopped other h = same_IsLeaving id o s _ refl refl h
take_turn-IsLeaving id o s cancels_root other h = cancel_root-IsLeaving id o s h
take_turn-IsLeaving id o s (submits ctx w params) other h =
    submit-IsLeaving id o s h ctx w params other
take_turn-IsLeaving id o s (finishes n) other h = finish-IsLeaving id o s h n
take_turn-IsLeaving id o s (cancels n) other h = record {
  unqueued = h.unqueued;
  live_have = LiveHave-cancel_context id o n s.active h.live_have;
}
take_turn-IsLeaving id o s (clears k) other h = record {
  unqueued = ground (arith, count_queued-without_id k id s.queue, h.unqueued);
  live_have = h.live_have;
}

take_turns-IsLeaving :
    (id : Text) (o : Option ℕ) (s : Controller) (ts : List Turn)
    → AllNoSubmit id ts
    → IsLeaving id o s
    → IsLeaving id o (take_turns s ts)
unfolding take_turns
take_turns-IsLeaving id o s [] others h = h
take_turns-IsLeaving id o s (t ∷ ts) others h =
    take_turns-IsLeaving id o (take_turn s t) ts others.1 (take_turn-IsLeaving id o s t others.0 h)

-- The first lines of `Delete`: between the return of `takeAndCancelQueuedInstalls` and the call of the
-- function that it returned, other turns are taken.
unfoldable pub stop_install : Text → List Turn → Controller → Controller
unfolding take_and_cancel_queued_installs
stop_install id between s =
    let (t, cancel) = take_and_cancel_queued_installs id s in
    let u = take_turns t between in record u { active = cancel_if_some cancel u.active }

stop_install-IsLeaving :
    (id : Text) (between : List Turn) (s : Controller)
    → IsTracked s
    → AllNoSubmit id between
    → IsLeaving id none (stop_install id between s)
unfolding stop_install take_and_cancel_queued_installs
stop_install-IsLeaving id between s h others =
    let o = lookup Text-discrete id s.install_cancel in
    let cleared : IsLeaving id o (take_and_cancel_queued_installs id s).0 = record {
      unqueued = ground (arith, count_queued-without_id id id s.queue);
      live_have = LiveHave-tracked id s.install_cancel s.active h.tracked;
    } in
    let later = take_turns-IsLeaving id o _ between others cleared in
    record { unqueued = later.unqueued; live_have = LiveHave-cancelled id o _ later.live_have }

-- In any reachable state, once `Delete` has cleared the queue for a workspace and called the cancel
-- function that it got, no job of this workspace is queued and no install of it runs with a live
-- context, whatever turns are taken in between and afterwards, until it is submitted again.
pub stop_install_lem :
    (install_workers : ℕ) (before between later : List Turn) (id : Text)
    → AllNoSubmit id between
    → AllNoSubmit id later
    → (count_queued id
          (take_turns (stop_install id between (reached install_workers before)) later).queue
        ≡ 0)
      × (count_live id
            (take_turns (stop_install id between (reached install_workers before)) later).active
          ≡ 0)
stop_install_lem n before between later id others others' =
    let s = reached n before in
    let left =
      take_turns-IsLeaving id none _ later others'
        (stop_install-IsLeaving id between s (reached-IsTracked n before) others) in
    (left.unqueued, count_live-LiveHave id _ left.live_have)
