-- ===== src/Controller/Jobs.antt =====
-- pkg/manager/workspace/controller.go: the jobs that run, and what the controller's maps say of them.
use ana.Base.{
  ℕ, ◌+◌, ◌-◌, ◌≤◌, ◌≡◌, refl, true, List, [], ◌∷◌, Text, Text-discrete, Map, lookup, insert, erase,
  lookup-insert, lookup-erase, ite, ◌==◌, arith, after, Bool-cases, Option-cases, inl, inr, ◌↔◌,
  subst, sym,
}
use ana.Workspace.{Workspace}
use ana.Workspace.Failure.{ContextState}
use ana.Controller.{
  Controller, new_controller, InstallJob, InstallParams, start, submit, running_of, track,
  exit_worker, poll, finish_tracked_install, find_active, remove_active, finish,
  take_and_cancel_queued_installs, mark_stopped, cancel_root, is_install_idle,
}
use ana.Controller.Tracking.{
  count_active, count_live, AllTracked, Descending, count_active-cancel_context,
  count_active-cancel_if_some, count_active-cancel_all, count_active-remove_active,
  Descending-cancel_context, Descending-cancel_if_some, Descending-cancel_all,
  Descending-remove_active, AllTracked-cancel_context, AllTracked-cancel_all,
  AllTracked-remove_active, AllTracked-insert, AllTracked-erase, count_live-le,
}
use ana.Controller.Turns.{
  Turn, starts, polls, marks_stopped, cancels_root, submits, finishes, cancels, clears, take_turn,
  take_turns, start_refused, start_again, start_first, submit_outcome, Polled, idles, leaves, works,
  poll-Polled, cancel_root_started, cancel_root_new,
}

pub record IsTracked (s : Controller) : Type 0 where
  pub counted : (id : Text) → running_of id s.install_running ≡ count_active id s.active
  pub descending : Descending s.next_ctx s.active
  pub tracked : AllTracked s.install_cancel s.active

running_of-insert :
    (id k : Text) (n : ℕ) (m : Map Text ℕ)
    → running_of k (insert Text-discrete id n m) ≡ ite (Text-discrete id k) n (running_of k m)
unfolding running_of
running_of-insert id k n m = ground (arith, lookup-insert Text-discrete id k n m)

running_of-erase :
    (id k : Text) (m : Map Text ℕ)
    → running_of k (erase Text-discrete id m) ≡ ite (Text-discrete id k) 0 (running_of k m)
unfolding running_of
running_of-erase id k m = ground (arith, lookup-erase Text-discrete id k m)

track-IsTracked :
    (s : Controller) (job : InstallJob) (rest : List InstallJob)
    → IsTracked s
    → IsTracked (track job rest s)
unfolding track
track-IsTracked s job rest h = record {
  counted = λ id.
      unfold count_active in
      ground (
        arith,
        running_of-insert job.workspace.id id (running_of job.workspace.id s.install_running + 1)
            s.install_running,
        count_active-cancel_if_some id (lookup Text-discrete job.workspace.id s.install_cancel)
            s.active,
        h.counted id,
      );
  descending = (
    omega arith,
    Descending-cancel_if_some s.next_ctx (lookup Text-discrete job.workspace.id s.install_cancel)
        s.active h.descending,
  );
  tracked = (
    ground (
      arith,
      lookup-insert Text-discrete job.workspace.id job.workspace.id s.next_ctx s.install_cancel,
    ),
    AllTracked-insert s.install_cancel job.workspace.id s.next_ctx _ s.active refl h.tracked,
  );
}

finish-IsTracked : (n : ℕ) (s : Controller) → IsTracked s → IsTracked (finish n s)
unfolding finish finish_tracked_install
finish-IsTracked n s h = elim (Option-cases (find_active n s.active)) [
  | inl gone ↦ rw (finish, gone) h
  | inr (a, found) ↦ elim (Bool-cases (running_of a.id s.install_running - 1 == 0)) [
    | inl last ↦
        rw (finish, found, finish_tracked_install, last)
          (record {
            counted = λ id. ground (
              arith,
              running_of-erase a.id id s.install_running,
              count_active-remove_active id n a s.active,
              h.counted id,
              h.counted a.id,
            );
            descending = Descending-remove_active s.next_ctx n s.active h.descending;
            tracked =
                AllTracked-erase s.install_cancel a.id (remove_active n s.active)
                  (ground (arith, count_active-remove_active a.id n a s.active, h.counted a.id))
                  (AllTracked-remove_active s.install_cancel n s.active h.tracked);
          })
    | inr more ↦
        rw (finish, found, finish_tracked_install, more)
          (record {
            counted = λ id. ground (
              arith,
              running_of-insert a.id id (running_of a.id s.install_running - 1) s.install_running,
              count_active-remove_active id n a s.active,
              h.counted id,
              h.counted a.id,
            );
            descending = Descending-remove_active s.next_ctx n s.active h.descending;
            tracked = AllTracked-remove_active s.install_cancel n s.active h.tracked;
          })
  ]
]

same_IsTracked :
    (s t : Controller)
    → t.install_running ≡ s.install_running
    → t.install_cancel ≡ s.install_cancel
    → t.next_ctx ≡ s.next_ctx
    → t.active ≡ s.active
    → IsTracked s
    → IsTracked t
same_IsTracked s t running cancel next active h = record {
  counted = λ id. rw (running, active) (h.counted id);
  descending = rw (next, active) (h.descending);
  tracked = rw (cancel, active) (h.tracked);
}

Polled-IsTracked : (s t : Controller) → Polled s t → IsTracked s → IsTracked t
Polled-IsTracked s _ idles h = h
Polled-IsTracked s _ (leaves _ _ _) h =
    unfold exit_worker in same_IsTracked s _ refl refl refl refl h
Polled-IsTracked s _ (works job rest _ _) h = track-IsTracked s job rest h

start-IsTracked : (s : Controller) → IsTracked s → IsTracked (after s (start s))
start-IsTracked s h = elim (Bool-cases s.stopped) [
  | inl stopped ↦ rw (start_refused s stopped) h
  | inr running ↦ elim (Bool-cases s.started) [
    | inl started ↦ rw (start_again s running started) h
    | inr new ↦ rw (start_first s running new) (same_IsTracked s _ refl refl refl refl h)
  ]
]

cancel_root-IsTracked : (s : Controller) → IsTracked s → IsTracked (cancel_root s)
cancel_root-IsTracked s h = elim (Bool-cases s.started) [
  | inl started ↦ subst IsTracked (sym (cancel_root_started s started)) (record {
    counted = λ id. ground (arith, count_active-cancel_all id s.active, h.counted id);
    descending = Descending-cancel_all s.next_ctx s.active h.descending;
    tracked = AllTracked-cancel_all s.install_cancel s.active;
  })
  | inr new ↦ subst IsTracked (sym (cancel_root_new s new)) h
]

submit-IsTracked :
    (ctx : ContextState) (w : Workspace) (params : InstallParams) (s : Controller)
    → IsTracked s
    → IsTracked (after s (submit ctx w params s))
submit-IsTracked ctx w params s h = elim (submit_outcome ctx w params s) [
  | inl refused ↦ rw refused h
  | inr (_, _, added) ↦ rw added (same_IsTracked s _ refl refl refl refl h)
]

pub take_turn-IsTracked : (s : Controller) (t : Turn) → IsTracked s → IsTracked (take_turn s t)
unfolding take_turn take_and_cancel_queued_installs mark_stopped
take_turn-IsTracked s starts h = start-IsTracked s h
take_turn-IsTracked s polls h = Polled-IsTracked s (poll s) (poll-Polled s) h
take_turn-IsTracked s marks_stopped h = same_IsTracked s _ refl refl refl refl h
take_turn-IsTracked s cancels_root h = cancel_root-IsTracked s h
take_turn-IsTracked s (submits ctx w params) h = submit-IsTracked ctx w params s h
take_turn-IsTracked s (finishes n) h = finish-IsTracked n s h
take_turn-IsTracked s (cancels n) h = record {
  counted = λ id. ground (arith, count_active-cancel_context id n s.active, h.counted id);
  descending = Descending-cancel_context s.next_ctx n s.active h.descending;
  tracked = AllTracked-cancel_context s.install_cancel n s.active h.tracked;
}
take_turn-IsTracked s (clears id) h = same_IsTracked s _ refl refl refl refl h

pub take_turns-IsTracked :
    (s : Controller) (ts : List Turn) → IsTracked s → IsTracked (take_turns s ts)
unfolding take_turns
take_turns-IsTracked s [] h = h
take_turns-IsTracked s (t ∷ ts) h =
    take_turns-IsTracked (take_turn s t) ts (take_turn-IsTracked s t h)

abbrev pub reached : ℕ → List Turn → Controller
reached install_workers ts = take_turns (new_controller install_workers) ts

pub reached-IsTracked : (n : ℕ) (ts : List Turn) → IsTracked (reached n ts)
unfolding running_of count_active lookup
reached-IsTracked n ts =
    take_turns-IsTracked (new_controller n) ts
      (record { counted = λ id. refl; descending = tt; tracked = tt })

-- However callers, workers, `Stop` and `Delete` interleave, at most one install of a workspace runs with
-- a context that is not cancelled.
pub one_live_install :
    (install_workers : ℕ) (ts : List Turn) (id : Text)
    → count_live id (reached install_workers ts).active ≤ 1
one_live_install n ts id =
    let h = reached-IsTracked n ts in
    count_live-le (reached n ts).install_cancel id (reached n ts).next_ctx (reached n ts).active
      h.descending h.tracked

-- However they interleave, the wait of `Delete` for a workspace ends exactly if no worker runs an install
-- of this workspace.
pub is_install_idle_iff :
    (install_workers : ℕ) (ts : List Turn) (id : Text)
    → (is_install_idle id (reached install_workers ts) ≡ true)
      ↔ (count_active id (reached install_workers ts).active ≡ 0)
unfolding is_install_idle
is_install_idle_iff n ts id = (
  λ e. ground (arith, (reached-IsTracked n ts).counted id),
  λ e. ground (arith, (reached-IsTracked n ts).counted id),
)
