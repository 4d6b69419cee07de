-- ===== src/Controller/Examples.antt =====
-- The controller's theorems at a queue of two workspaces, one of them submitted twice.
use ana.Base.{
  ◌≡◌, ◌≤◌, true, none, [], ◌∷◌, List, codes, lookup, insert, erase, Text-discrete, refl,
}
use ana.Workspace.Value.{nil_map}
use ana.Workspace.Failure.{live}
use ana.Workspace.Clone.{clone_workspace}
use ana.Storage.Examples.Data.{first, second}
use ana.Controller.{
  InstallParams, start, submit, poll, finish, is_install_idle, cancel_root, mark_stopped,
}
use ana.Controller.Turns.{
  Turn, starts, polls, marks_stopped, cancels_root, submits, finishes, take_turn, take_turns,
}
use ana.Controller.Tracking.{count_active, count_live}
use ana.Controller.Jobs.{reached, one_live_install, is_install_idle_iff}
use ana.Controller.Workers.{workers_done_lem}
use ana.Controller.Deletion.{count_queued, stop_install, stop_install_lem}
use ana.Controller.Idle.{IsGone, idle_for_good}

abbrev params : InstallParams
params = record {
  workspace = (codes "w1", codes "ns", codes "a", codes "agent", codes "local");
  plugins = none;
  user_params = nil_map;
}

abbrev submitted : List Turn
submitted =
    starts ∷ submits live first params ∷ submits live first params ∷ submits live second params ∷ []

abbrev running : List Turn
running =
    starts
    ∷ submits live first params
    ∷ submits live first params
    ∷ submits live second params
    ∷ polls
    ∷ polls
    ∷ polls
    ∷ []

abbrev finished : List Turn
finished = starts ∷ submits live first params ∷ polls ∷ finishes 0 ∷ []

abbrev stopped : List Turn
stopped =
    starts
    ∷ submits live first params
    ∷ marks_stopped
    ∷ polls
    ∷ cancels_root
    ∷ finishes 0
    ∷ polls
    ∷ []

one_live_install_example : count_live (codes "w1") (reached 3 running).active ≤ 1
one_live_install_example = one_live_install 3 running (codes "w1")

is_install_idle_iff_example : count_active (codes "w1") (reached 3 finished).active ≡ 0
unfolding take_turns take_turn start submit poll finish is_install_idle clone_workspace
    Text-discrete lookup insert erase
is_install_idle_iff_example = (is_install_idle_iff 3 finished (codes "w1")).0 refl

stopped_done : (reached 1 stopped).workers_done ≡ true
unfolding take_turns take_turn start submit poll finish clone_workspace Text-discrete lookup insert
    erase cancel_root mark_stopped
stopped_done = refl

workers_done_lem_example : (reached 1 stopped).active ≡ []
workers_done_lem_example = (workers_done_lem 1 stopped stopped_done).2

stop_install_lem_example :
    count_live
      (codes "w1")
      (take_turns (stop_install (codes "w1") (polls ∷ []) (reached 3 running)) (polls ∷ [])).active
    ≡ 0
stop_install_lem_example =
    (stop_install_lem 3 running (polls ∷ []) (polls ∷ []) (codes "w1") (tt, tt) (tt, tt)).1

finished_unqueued : count_queued (codes "w1") (reached 3 finished).queue ≡ 0
unfolding take_turns take_turn start submit poll finish clone_workspace Text-discrete lookup insert
    erase count_queued
finished_unqueued = refl

finished_idle : is_install_idle (codes "w1") (reached 3 finished) ≡ true
unfolding take_turns take_turn start submit poll finish is_install_idle clone_workspace
    Text-discrete lookup insert erase
finished_idle = refl

idle_for_good_example :
    IsGone (codes "w1") (take_turns (reached 3 finished) (polls ∷ finishes 1 ∷ []))
idle_for_good_example =
    idle_for_good 3 finished (polls ∷ finishes 1 ∷ []) (codes "w1") finished_unqueued finished_idle
      (tt, (tt, tt))
