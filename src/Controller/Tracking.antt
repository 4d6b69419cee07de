-- ===== src/Controller/Tracking.antt =====
-- pkg/manager/workspace/controller.go: how the jobs that run agree with `installRunning` and
-- `installCancel`.
use ana.Base.{
  ℕ, ◌+◌, ◌≤◌, ◌<◌, ◌≡◌, refl, false, Option, none, some, List, [], ◌∷◌, length, Text,
  Text-discrete, Map, lookup, insert, erase, lookup-insert, lookup-erase, ite, if◌then◌else◌, arith,
}
use ana.Controller.{
  ActiveJob, cancel_context, cancel_all, cancel_if_some, find_active, remove_active,
}

-- How many jobs of a workspace run.
unfoldable pub count_active : Text → List ActiveJob → ℕ
count_active id [] = 0
count_active id (a ∷ jobs) =
    ite (Text-discrete a.id id) (count_active id jobs + 1) (count_active id jobs)

-- How many of them have a context that is not cancelled.
unfoldable pub count_live : Text → List ActiveJob → ℕ
count_live id [] = 0
count_live id (a ∷ jobs) =
    ite (Text-discrete a.id id)
      (if a.is_cancelled then count_live id jobs else count_live id jobs + 1) (count_live id jobs)

-- A job whose context is not cancelled has the context that the map holds for its workspace.
abbrev pub AllTracked : Map Text ℕ → List ActiveJob → Type 0
AllTracked m [] = Unit
AllTracked m (a ∷ jobs) =
    (a.is_cancelled ≡ false → lookup Text-discrete a.id m ≡ some a.ctx) × AllTracked m jobs

-- The contexts descend, from below a bound.
abbrev pub Descending : ℕ → List ActiveJob → Type 0
Descending n [] = Unit
Descending n (a ∷ jobs) = (a.ctx < n) × Descending a.ctx jobs

pub count_active-cancel_context :
    (id : Text) (n : ℕ) (jobs : List ActiveJob)
    → count_active id (cancel_context n jobs) ≡ count_active id jobs
unfolding count_active cancel_context
count_active-cancel_context id n [] = refl
count_active-cancel_context id n (a ∷ jobs) = ground (arith, count_active-cancel_context id n jobs)

pub count_active-cancel_if_some :
    (id : Text) (o : Option ℕ) (jobs : List ActiveJob)
    → count_active id (cancel_if_some o jobs) ≡ count_active id jobs
unfolding cancel_if_some
count_active-cancel_if_some id none jobs = refl
count_active-cancel_if_some id (some n) jobs = count_active-cancel_context id n jobs

pub count_active-cancel_all :
    (id : Text) (jobs : List ActiveJob) → count_active id (cancel_all jobs) ≡ count_active id jobs
unfolding count_active cancel_all
count_active-cancel_all id [] = refl
count_active-cancel_all id (a ∷ jobs) = ground (arith, count_active-cancel_all id jobs)

pub count_active-remove_active :
    (id : Text) (n : ℕ) (a : ActiveJob) (jobs : List ActiveJob)
    → find_active n jobs ≡ some a
    → count_active id jobs
      ≡ ite
          (Text-discrete a.id id)
          (count_active id (remove_active n jobs) + 1)
          (count_active id (remove_active n jobs))
unfolding count_active find_active remove_active
count_active-remove_active id n a [] h = absurd (ground arith)
count_active-remove_active id n a (b ∷ jobs) h =
    ground (arith, count_active-remove_active id n a jobs)

pub length-cancel_context :
    (n : ℕ) (jobs : List ActiveJob) → length (cancel_context n jobs) ≡ length jobs
unfolding cancel_context
length-cancel_context n [] = refl
length-cancel_context n (a ∷ jobs) = ground (arith, length-cancel_context n jobs)

pub length-cancel_if_some :
    (o : Option ℕ) (jobs : List ActiveJob) → length (cancel_if_some o jobs) ≡ length jobs
unfolding cancel_if_some
length-cancel_if_some none jobs = refl
length-cancel_if_some (some n) jobs = length-cancel_context n jobs

pub length-cancel_all : (jobs : List ActiveJob) → length (cancel_all jobs) ≡ length jobs
unfolding cancel_all
length-cancel_all [] = refl
length-cancel_all (a ∷ jobs) = ground (arith, length-cancel_all jobs)

pub length-remove_active :
    (n : ℕ) (a : ActiveJob) (jobs : List ActiveJob)
    → find_active n jobs ≡ some a
    → length jobs ≡ length (remove_active n jobs) + 1
unfolding find_active remove_active
length-remove_active n a [] h = absurd (ground arith)
length-remove_active n a (b ∷ jobs) h = ground (arith, length-remove_active n a jobs)

pub Descending-cancel_context :
    (k n : ℕ) (jobs : List ActiveJob) → Descending k jobs → Descending k (cancel_context n jobs)
unfolding cancel_context
Descending-cancel_context k n [] h = tt
Descending-cancel_context k n (a ∷ jobs) h =
    ground (arith, Descending-cancel_context a.ctx n jobs h.1)

pub Descending-cancel_if_some :
    (k : ℕ) (o : Option ℕ) (jobs : List ActiveJob)
    → Descending k jobs
    → Descending k (cancel_if_some o jobs)
unfolding cancel_if_some
Descending-cancel_if_some k none jobs h = h
Descending-cancel_if_some k (some n) jobs h = Descending-cancel_context k n jobs h

pub Descending-cancel_all :
    (k : ℕ) (jobs : List ActiveJob) → Descending k jobs → Descending k (cancel_all jobs)
unfolding cancel_all
Descending-cancel_all k [] h = tt
Descending-cancel_all k (a ∷ jobs) h = (h.0, Descending-cancel_all a.ctx jobs h.1)

Descending-le : (k n : ℕ) (jobs : List ActiveJob) → k ≤ n → Descending k jobs → Descending n jobs
Descending-le k n [] le h = tt
Descending-le k n (a ∷ jobs) le h = (omega arith, h.1)

pub Descending-remove_active :
    (k n : ℕ) (jobs : List ActiveJob) → Descending k jobs → Descending k (remove_active n jobs)
unfolding remove_active
Descending-remove_active k n [] h = tt
Descending-remove_active k n (a ∷ jobs) h =
    ground (arith, Descending-remove_active a.ctx n jobs h.1, Descending-le a.ctx k jobs)

pub AllTracked-cancel_context :
    (m : Map Text ℕ) (n : ℕ) (jobs : List ActiveJob)
    → AllTracked m jobs
    → AllTracked m (cancel_context n jobs)
unfolding cancel_context
AllTracked-cancel_context m n [] h = tt
AllTracked-cancel_context m n (a ∷ jobs) h = (ground arith, AllTracked-cancel_context m n jobs h.1)

pub AllTracked-cancel_all :
    (m : Map Text ℕ) (jobs : List ActiveJob) → AllTracked m (cancel_all jobs)
unfolding cancel_all
AllTracked-cancel_all m [] = tt
AllTracked-cancel_all m (a ∷ jobs) = (λ e. cc, AllTracked-cancel_all m jobs)

pub AllTracked-remove_active :
    (m : Map Text ℕ) (n : ℕ) (jobs : List ActiveJob)
    → AllTracked m jobs
    → AllTracked m (remove_active n jobs)
unfolding remove_active
AllTracked-remove_active m n [] h = tt
AllTracked-remove_active m n (a ∷ jobs) h = ground (arith, AllTracked-remove_active m n jobs h.1)

-- A new job takes the place of its workspace's context, and the old one is cancelled.
pub AllTracked-insert :
    (m : Map Text ℕ) (id : Text) (n : ℕ) (o : Option ℕ) (jobs : List ActiveJob)
    → lookup Text-discrete id m ≡ o
    → AllTracked m jobs
    → AllTracked (insert Text-discrete id n m) (cancel_if_some o jobs)
unfolding cancel_if_some cancel_context
AllTracked-insert m id n o [] e h = ground arith
AllTracked-insert m id n none (a ∷ jobs) e h = (
  ground (arith, lookup-insert Text-discrete id a.id n m),
  AllTracked-insert m id n none jobs e h.1,
)
AllTracked-insert m id n (some c) (a ∷ jobs) e h = (
  ground (arith, lookup-insert Text-discrete id a.id n m),
  AllTracked-insert m id n (some c) jobs e h.1,
)

pub AllTracked-erase :
    (m : Map Text ℕ) (id : Text) (jobs : List ActiveJob)
    → count_active id jobs ≡ 0
    → AllTracked m jobs
    → AllTracked (erase Text-discrete id m) jobs
unfolding count_active
AllTracked-erase m id [] e h = tt
AllTracked-erase m id (a ∷ jobs) e h = (
  ground (arith, lookup-erase Text-discrete id a.id m),
  AllTracked-erase m id jobs (ground arith) h.1,
)

-- With contexts that descend, at most one job of a workspace has the context that the map holds.
count_live_below :
    (m : Map Text ℕ) (id : Text) (n c : ℕ) (jobs : List ActiveJob)
    → lookup Text-discrete id m ≡ some c
    → n ≤ c
    → Descending n jobs
    → AllTracked m jobs
    → count_live id jobs ≡ 0
unfolding count_live
count_live_below m id n c [] e le d h = refl
count_live_below m id n c (a ∷ jobs) e le d h = ground (arith, count_live_below m id a.ctx c jobs e)

pub count_live-le :
    (m : Map Text ℕ) (id : Text) (n : ℕ) (jobs : List ActiveJob)
    → Descending n jobs
    → AllTracked m jobs
    → count_live id jobs ≤ 1
unfolding count_live
count_live-le m id n [] d h = omega arith
count_live-le m id n (a ∷ jobs) d h =
    ground (arith, count_live-le m id a.ctx jobs d.1, count_live_below m id a.ctx a.ctx jobs)

-- Cancelling the context that the map holds leaves no live job of the workspace.
pub count_live-cancel_if_some :
    (m : Map Text ℕ) (id : Text) (o : Option ℕ) (jobs : List ActiveJob)
    → lookup Text-discrete id m ≡ o
    → AllTracked m jobs
    → count_live id (cancel_if_some o jobs) ≡ 0
unfolding count_live cancel_if_some cancel_context
count_live-cancel_if_some m id none [] e h = refl
count_live-cancel_if_some m id (some c) [] e h = refl
count_live-cancel_if_some m id none (a ∷ jobs) e h =
    ground (arith, count_live-cancel_if_some m id none jobs e h.1)
count_live-cancel_if_some m id (some c) (a ∷ jobs) e h =
    ground (arith, count_live-cancel_if_some m id (some c) jobs e h.1)
