-- ===== src/Tests/ElasticRuns.antt =====
-- Runs of src/task/ElasticExecutor.cpp.
use npp.Common.{◌≡◌, ◌≢◌, refl, true, false, none, some, [], ◌∷◌}
use npp.Task.Elastic.{
  WorkerThread, free, by_manager, trying, sleeping, exited, faulted, init, worker_step, shrink,
  here, next, works,
}
use npp.Task.Elastic.Ending.{
  ElasticExecutorImpl, ended, shared_execute, run_step, run_steps, stop, destroy_members,
  executor_destructor_lem,
}
use npp.Task.Elastic.Ending
use npp.Task.Elastic.Worker.{IsSound, Reach-IsSound, shrink_faults}

abbrev three_steps : WorkerThread
three_steps = worker_step (worker_step (worker_step (init (5 ∷ 6 ∷ []))))

one_task : three_steps.executed ≡ 5 ∷ []
unfolding init worker_step
one_task = refl

Reach-IsSound_example : IsSound three_steps
Reach-IsSound_example =
    Reach-IsSound (5 ∷ 6 ∷ []) (next (next (next here (works refl)) (works refl)) (works refl))

abbrev idle : WorkerThread
idle = record {
  running = true;
  pause_lock = free;
  phase = trying;
  task_queue = [];
  popped = [];
  executed = [];
}

shrink_faults_example :
    (trying ≡ trying → (worker_step (shrink idle)).phase ≡ faulted)
    × (trying ≡ sleeping
        → ((worker_step (worker_step (shrink idle))).phase ≡ exited)
          × ((worker_step (worker_step (shrink idle))).pause_lock ≡ by_manager))
shrink_faults_example = shrink_faults idle refl

-- Its thread has made a step, and a second task has come.
abbrev begun : ElasticExecutorImpl
begun = shared_execute (some (run_step (shared_execute none 5))) 6

executor_destructor_lem_example :
    (begun.place ≢ ended)
    × ((run_steps 3 (stop begun)).place ≡ ended)
    × ((run_steps 3 (stop begun)).is_faulted ≡ false)
    × ((run_steps 2 (destroy_members (stop begun))).is_faulted ≡ true)
executor_destructor_lem_example =
    executor_destructor_lem 5
      (Ending.next (Ending.next Ending.here (Ending.runs refl)) (Ending.executes 6 refl))
