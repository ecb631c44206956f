-- ===== src/Task/Looper/Order.antt =====
-- src/task/Executor.h: in what order a `LooperExecutor` runs its jobs, and that none is lost.
use npp.Common.{ℕ, ◌≡◌, refl, ◌⊎◌, inl, false, List, [], ◌∷◌, ◌++◌, arith, append_assoc, append-nil}
use npp.Task.Looper.{
  Looper, Phase, running, exited, init, worker_step, execute, deactivate, clear_queue, announce,
  wake, Step, Reach, works, executes, deactivates, clears, announces, notifies, wakes, here, next,
}

-- The job that is being run.
abbrev pub current : Phase → List ℕ
current (running j) = j ∷ []
current _ = []

pub record IsOrdered (s : Looper) : Type 0 where
  pub accounted : s.accepted ≡ s.executed ++ (current s.phase ++ (s.queue ++ s.dropped))
  pub drops : (s.dropped ≡ []) ⊎ ((s.is_active ≡ false) × (s.queue ≡ []))
  pub ends : s.phase ≡ exited → (s.is_active ≡ false) × (s.queue ≡ [])

worker-IsOrdered : (s : Looper) → IsOrdered s → IsOrdered (worker_step s)
unfolding worker_step
worker-IsOrdered s v = grind (arith, append_assoc)

execute-IsOrdered : (s : Looper) (j : ℕ) → IsOrdered s → IsOrdered (execute s j)
unfolding execute
execute-IsOrdered s j v = grind (arith, append_assoc, append-nil)

clear-IsOrdered : (s : Looper) → s.is_active ≡ false → IsOrdered s → IsOrdered (clear_queue s)
unfolding clear_queue
clear-IsOrdered s h v = grind (arith, append-nil)

wake-IsOrdered : (s : Looper) → IsOrdered s → IsOrdered (wake s)
unfolding wake
wake-IsOrdered s v = ground arith

pub Step-IsOrdered : {s t : Looper} → Step s t → IsOrdered s → IsOrdered t
unfolding deactivate announce
Step-IsOrdered {s} (works e) v = rw e (worker-IsOrdered s v)
Step-IsOrdered {s} (executes j e) v = rw e (execute-IsOrdered s j v)
Step-IsOrdered {s} (deactivates e) v = ground arith
Step-IsOrdered {s} (clears h e) v = rw e (clear-IsOrdered s h v)
Step-IsOrdered {s} (announces h e) v = ground arith
Step-IsOrdered {s} (notifies h e) v =
    rw e (wake-IsOrdered _ (record { accounted = v.accounted; drops = v.drops; ends = v.ends }))
Step-IsOrdered {s} (wakes e) v = rw e (wake-IsOrdered s v)

pub Reach-IsOrdered : {s : Looper} → Reach init s → IsOrdered s
unfolding init
Reach-IsOrdered here = record { accounted = refl; drops = inl refl; ends = λ e. cc }
Reach-IsOrdered (next r st) = Step-IsOrdered st (Reach-IsOrdered r)
