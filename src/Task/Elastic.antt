-- ===== src/Task/Elastic.antt =====
-- src/task/ElasticExecutor.cpp: a worker thread of the elastic executor, the queue that it shares with
-- the other workers, and the thread of the executor, which may pause and erase it. The measured rates
-- only decide when it does.
pub mod Worker
pub mod Meter
pub mod Pool
pub mod Crew
pub mod Ending
use npp.Common.{ℕ, Bool, true, false, List, [], ◌∷◌, ◌++◌, ◌≡◌, if◌then◌else◌}

-- Who holds `pause_lock`.
pub data Owner : Type 0 where
  free by_worker by_manager : Owner

-- `trying` is behind the test of `running`, `faulted` after an `unlock` of a mutex of another thread.
pub data Phase : Type 0 where
  testing trying sleeping exited faulted : Phase
  busy : ℕ → Phase

-- `popped` and `executed` are records of the tasks that this worker has taken and has run.
pub record WorkerThread : Type 0 where
  pub running : Bool
  pub pause_lock : Owner
  pub phase : Phase
  pub task_queue : List ℕ
  pub popped : List ℕ
  pub executed : List ℕ

unfoldable pub init : List ℕ → WorkerThread
init queue = record {
  running = true;
  pause_lock = free;
  phase = testing;
  task_queue = queue;
  popped = [];
  executed = [];
}

-- `try_lock`, and `try_pop` where it has the lock; the other branch unlocks in both cases.
unfoldable try_task : WorkerThread → WorkerThread
try_task w = elim w.pause_lock [
  | free ↦ elim w.task_queue [
    | [] ↦ record w { phase = sleeping }
    | e ∷ queue ↦ record w {
      pause_lock = by_worker;
      phase = busy e;
      task_queue = queue;
      popped = w.popped ++ e ∷ [];
    }
  ]
  | by_worker ↦ record w { phase = faulted }
  | by_manager ↦ record w { phase = faulted }
]

-- A step of `run`.
unfoldable pub worker_step : WorkerThread → WorkerThread
unfolding try_task
worker_step w = elim w.phase [
  | testing ↦ record w { phase = if w.running then trying else exited }
  | trying ↦ try_task w
  | busy e ↦ record w { pause_lock = free; phase = testing; executed = w.executed ++ e ∷ [] }
  | sleeping ↦ record w { phase = testing }
  | exited ↦ w
  | faulted ↦ w
]

-- `execute`, and a task that another worker takes.
unfoldable pub execute : WorkerThread → ℕ → WorkerThread
execute w e = record w { task_queue = w.task_queue ++ e ∷ [] }

unfoldable pub taken : WorkerThread → WorkerThread
taken w = elim w.task_queue [ [] ↦ w | e ∷ queue ↦ record w { task_queue = queue } ]

unfoldable pub stop : WorkerThread → WorkerThread
stop w = record w { running = false }

-- The shrinking in `run` of the executor: `try_pause`, and then `stop` in the destructor of the worker,
-- which waits for it.
unfoldable pub shrink : WorkerThread → WorkerThread
unfolding stop
shrink w = elim w.pause_lock [
  | free ↦ stop (record w { pause_lock = by_manager })
  | by_worker ↦ w
  | by_manager ↦ w
]

-- The steps where the executor does not shrink.
pub data Step (w v : WorkerThread) : Type 0 where
  works : v ≡ worker_step w → Step w v
  executes : (e : ℕ) → v ≡ execute w e → Step w v
  others_take : v ≡ taken w → Step w v
  stops : v ≡ stop w → Step w v

pub data Reach (w : WorkerThread) : WorkerThread → Type 0 where
  here : Reach w w
  next : {v u : WorkerThread} → Reach w v → Step v u → Reach w u
