-- ===== src/Task/Elastic/Worker.antt =====
-- src/task/ElasticExecutor.cpp: what a worker runs, and what the pause of a worker does.
use npp.Common.{ℕ, ◌≡◌, refl, List, [], ◌∷◌, ◌++◌, arith}
use npp.Task.Elastic.{
  Owner, free, by_worker, by_manager, Phase, testing, trying, sleeping, exited, faulted, busy,
  WorkerThread, init, worker_step, execute, taken, stop, shrink, Step, Reach, works, executes,
  others_take, stops, here, next,
}

-- What holds in each phase: the worker has the lock just where it runs a task, and has run all that
-- it has taken but that one.
abbrev pub Holds : Phase → Owner → List ℕ → List ℕ → Type 0
Holds (busy e) o popped executed = (o ≡ by_worker) × (popped ≡ executed ++ e ∷ [])
Holds faulted o popped executed = ⊥
Holds _ o popped executed = (o ≡ free) × (popped ≡ executed)

abbrev pub IsSound : WorkerThread → Type 0
IsSound w = Holds w.phase w.pause_lock w.popped w.executed

pub worker-IsSound :
    (w : WorkerThread) (p : Phase) → w.phase ≡ p → IsSound w → IsSound (worker_step w)
unfolding worker_step
worker-IsSound w testing h v = ground arith
worker-IsSound w trying h v = ground arith
worker-IsSound w sleeping h v = ground arith
worker-IsSound w exited h v = ground arith
worker-IsSound w faulted h v = ground arith
worker-IsSound w (busy e) h v = ground arith

Step-IsSound : {w v : WorkerThread} → Step w v → IsSound w → IsSound v
unfolding execute taken stop
Step-IsSound {w} (works e) v = rw e (worker-IsSound w w.phase refl v)
Step-IsSound {w} (executes x e) v = rw e v
Step-IsSound {w} (others_take e) v = ground arith
Step-IsSound {w} (stops e) v = rw e v

-- Where the executor does not shrink, whatever the other threads do: the worker never unlocks a lock
-- that it does not hold, holds it just while it runs a task, and runs each task that it takes from the
-- queue once, in this order.
pub Reach-IsSound : (queue : List ℕ) {w : WorkerThread} → Reach (init queue) w → IsSound w
unfolding init
Reach-IsSound queue here = (refl, refl)
Reach-IsSound queue (next r s) = Step-IsSound s (Reach-IsSound queue r)

-- Where the executor shrinks while the worker is behind the test of `running`, the worker's next step
-- unlocks the mutex that the thread of the executor holds. Where it shrinks while the worker sleeps,
-- the worker ends, and its mutex is destroyed while it is locked.
pub shrink_faults :
    (w : WorkerThread)
    → w.pause_lock ≡ free
    → (w.phase ≡ trying → (worker_step (shrink w)).phase ≡ faulted)
      × (w.phase ≡ sleeping
          → ((worker_step (worker_step (shrink w))).phase ≡ exited)
            × ((worker_step (worker_step (shrink w))).pause_lock ≡ by_manager))
unfolding shrink worker_step stop
shrink_faults w f = (λ h. ground arith, λ h. (ground arith, ground arith))
