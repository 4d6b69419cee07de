-- ===== src/Controller/Idle.antt =====
-- pkg/manager/workspace/controller.go: what the wait of `Delete` guarantees once it has ended.
use ana.Base.{
  ℕ, ◌≡◌, ◌≢◌, refl, true, List, [], ◌∷◌, Text, Text-discrete, lookup, arith, after, Bool-cases,
  Option-cases, inl, inr, subst, sym,
}
use ana.Workspace.{Workspace}
use ana.Workspace.Failure.{ContextState}
use ana.Workspace.Clone.{id-clone_workspace}
use ana.Controller.{
  Controller, InstallParams, start, submit, track, exit_worker, poll, find_active, finish,
  take_and_cancel_queued_installs, mark_stopped, cancel_root, is_install_idle,
}
use ana.Controller.Tracking.{
  count_active, count_active-cancel_context, count_active-cancel_if_some, count_active-cancel_all,
  count_active-remove_active,
}
use ana.Controller.Turns.{
  Turn, starts, polls, marks_stopped, cancels_root, submits, finishes, cancels, clears, take_turn,
  take_turns, start_refused, start_again, start_first, queued_job, submit_outcome, Polled, idles,
  leaves, works, poll-Polled, cancel_root_started, cancel_root_new,
}
use ana.Controller.Jobs.{reached, is_install_idle_iff}
use ana.Controller.Workers.{finish_gone, finish_effect}
use ana.Controller.Deletion.{
  count_queued, IsNoSubmit, AllNoSubmit, count_queued-append, count_queued-without_id,
}

-- No job of the workspace is queued and none runs.
pub record IsGone (id : Text) (s : Controller) : Type 0 where
  pub unqueued : count_queued id s.queue ≡ 0
  pub inactive : count_active id s.active ≡ 0

same_IsGone :
    (id : Text) (s t : Controller)
    → t.queue ≡ s.queue
    → t.active ≡ s.active
    → IsGone id s
    → IsGone id t
same_IsGone id s t queue active h = record {
  unqueued = rw queue (h.unqueued);
  inactive = rw active (h.inactive);
}

module _ (id : Text) (s : Controller) (h : IsGone id s) where
  start-IsGone : IsGone id (after s (start s))
  start-IsGone = elim (Bool-cases s.stopped) [
    | inl stopped ↦ rw (start_refused s stopped) h
    | inr running ↦ elim (Bool-cases s.started) [
      | inl started ↦ rw (start_again s running started) h
      | inr new ↦ rw (start_first s running new) (same_IsGone id s _ refl refl h)
    ]
  ]

  submit-IsGone :
      (ctx : ContextState) (w : Workspace) (params : InstallParams)
      → w.id ≢ id
      → IsGone id (after s (submit ctx w params s))
  submit-IsGone ctx w params other = elim (submit_outcome ctx w params s) [
    | inl refused ↦ rw refused h
    | inr (started, running, added) ↦ rw added (record {
      unqueued = ground (
        arith,
        count_queued-append id s.queue (queued_job w params),
        h.unqueued,
        id-clone_workspace w,
      );
      inactive = h.inactive;
    })
  ]

  finish-IsGone : (n : ℕ) → IsGone id (finish n s)
  finish-IsGone n = elim (Option-cases (find_active n s.active)) [
    | inl gone ↦ rw (finish_gone n s gone) h
    | inr (a, found) ↦
        let (remaining, idle, active, started, stopped, queue, done) = finish_effect n s a found in
        record {
          unqueued = rw queue (h.unqueued);
          inactive =
              ground (arith, active, h.inactive, count_active-remove_active id n a s.active found);
        }
  ]

  cancel_root-IsGone : IsGone id (cancel_root s)
  cancel_root-IsGone = elim (Bool-cases s.started) [
    | inl started ↦ subst (IsGone id) (sym (cancel_root_started s started)) (record {
      unqueued = h.unqueued;
      inactive = ground (arith, count_active-cancel_all id s.active, h.inactive);
    })
    | inr new ↦ subst (IsGone id) (sym (cancel_root_new s new)) h
  ]

Polled-IsGone : (id : Text) (s t : Controller) → Polled s t → IsGone id s → IsGone id t
Polled-IsGone id s _ idles h = h
Polled-IsGone id s _ (leaves _ _ _) h = unfold exit_worker in same_IsGone id s _ refl refl h
Polled-IsGone id s _ (works job rest idle queued) h =
    unfold track in
    record {
      unqueued = unfold count_queued in ground (arith, h.unqueued);
      inactive =
          unfold count_queued count_active in
          ground (
            arith,
            h.unqueued,
            h.inactive,
            count_active-cancel_if_some id (lookup Text-discrete job.workspace.id s.install_cancel)
                s.active,
          );
    }

take_turn-IsGone :
    (id : Text) (s : Controller) (t : Turn)
    → IsNoSubmit id t
    → IsGone id s
    → IsGone id (take_turn s t)
unfolding take_turn take_and_cancel_queued_installs mark_stopped
take_turn-IsGone id s starts other h = start-IsGone id s h
take_turn-IsGone id s polls other h = Polled-IsGone id s (poll s) (poll-Polled s) h
take_turn-IsGone id s marks_stopped other h = same_IsGone id s _ refl refl h
take_turn-IsGone id s cancels_root other h = cancel_root-IsGone id s h
take_turn-IsGone id s (submits ctx w params) other h = submit-IsGone id s h ctx w params other
take_turn-IsGone id s (finishes n) other h = finish-IsGone id s h n
take_turn-IsGone id s (cancels n) other h = record {
  unqueued = h.unqueued;
  inactive = ground (arith, count_active-cancel_context id n s.active, h.inactive);
}
take_turn-IsGone id s (clears k) other h = record {
  unqueued = ground (arith, count_queued-without_id k id s.queue, h.unqueued);
  inactive = h.inactive;
}

take_turns-IsGone :
    (id : Text) (s : Controller) (ts : List Turn)
    → AllNoSubmit id ts
    → IsGone id s
    → IsGone id (take_turns s ts)
unfolding take_turns
take_turns-IsGone id s [] others h = h
take_turns-IsGone id s (t ∷ ts) others h =
    take_turns-IsGone id (take_turn s t) ts others.1 (take_turn-IsGone id s t others.0 h)

-- In any reachable state in which no job of a workspace is queued and the wait of `Delete` for it ends,
-- no worker runs an install of this workspace, and none begins one, whatever turns are taken, until the
-- workspace is submitted again.
pub idle_for_good :
    (install_workers : ℕ) (before later : List Turn) (id : Text)
    → count_queued id (reached install_workers before).queue ≡ 0
    → is_install_idle id (reached install_workers before) ≡ true
    → AllNoSubmit id later
    → IsGone id (take_turns (reached install_workers before) later)
idle_for_good n before later id unqueued idle others =
    take_turns-IsGone id (reached n before) later others
      (record { unqueued = unqueued; inactive = (is_install_idle_iff n before id).0 idle })
