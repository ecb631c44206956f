-- ===== src/Task/Elastic/Crew.antt =====
-- src/task/ElasticExecutor.cpp: all the workers of the executor and the queue that they share. A worker
-- sees the queue as its `task_queue`; the executor does not shrink.
pub mod Once
use npp.Common.{ℕ, ◌≡◌, ◌∙◌, List, [], ◌∷◌, ◌++◌, map, ◌==◌, if◌then◌else◌}
use npp.Task.Elastic.{
  free, by_worker, by_manager, testing, trying, sleeping, exited, faulted, busy, WorkerThread, init,
  worker_step, stop,
}

-- A record of the tasks that were queued, and of those taken, with the worker that took each.
pub record Crew : Type 0 where
  pub queue : List ℕ
  pub workers : ℕ → WorkerThread
  pub queued : List ℕ
  pub taken : List (ℕ × ℕ)

unfoldable pub new_crew : Crew
new_crew = record { queue = []; workers = λ i. init []; queued = []; taken = [] }

-- A worker as it sees the queue.
abbrev pub view : ℕ → Crew → WorkerThread
view i c = record (c.workers i) { task_queue = c.queue }

abbrev pub set_worker : ℕ → WorkerThread → Crew → ℕ → WorkerThread
set_worker i w c j = if j == i then w else c.workers j

-- The task that the next step of a worker takes.
unfoldable pub to_take : WorkerThread → List ℕ
to_take w = elim w.phase [
  | trying ↦ elim w.pause_lock [
    | free ↦ elim w.task_queue [ [] ↦ [] | e ∷ queue ↦ e ∷ [] ]
    | by_worker ↦ []
    | by_manager ↦ []
  ]
  | testing ↦ []
  | busy e ↦ []
  | sleeping ↦ []
  | exited ↦ []
  | faulted ↦ []
]

abbrev pub with_worker : ℕ → ℕ → ℕ × ℕ
with_worker i e = (i, e)

-- A step of `run` of one worker.
unfoldable pub crew_step : ℕ → Crew → Crew
crew_step i c =
    let w = worker_step (view i c) in
    record c {
      queue = w.task_queue;
      workers = set_worker i w c;
      taken = c.taken ++ map (with_worker i) (to_take (view i c));
    }

-- `execute` of the executor.
unfoldable pub push_task : ℕ → Crew → Crew
push_task e c = record c { queue = c.queue ++ e ∷ []; queued = c.queued ++ e ∷ [] }

unfoldable pub stop_worker : ℕ → Crew → Crew
stop_worker i c = record c { workers = set_worker i (stop (c.workers i)) c }

pub data Step (c d : Crew) : Type 0 where
  works : (i : ℕ) → d ≡ crew_step i c → Step c d
  pushes : (e : ℕ) → d ≡ push_task e c → Step c d
  stops : (i : ℕ) → d ≡ stop_worker i c → Step c d

pub data Reach (c : Crew) : Crew → Type 0 where
  here : Reach c c
  next : {d e : Crew} → Reach c d → Step d e → Reach c e
