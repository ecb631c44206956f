-- ===== src/Tests/TaskRuns.antt =====
-- Runs of src/task/TaskPromise.h and src/task/Executor.h.
use npp.Common.{ℕ, ◌≡◌, ◌≢◌, refl, true, false, Option, none, some, List, [], ◌∷◌}
use npp.Common.Outcome.{ok, throw, abort, fault}
use npp.Basic.Exception.{user}
use npp.Task.Result.{Result, of_value, of_exception, get_or_throw}
use npp.Task.Promise.{
  on_completed, complete, call, Callback, on_value, on_error, on_end, called_with, called, Client,
  Promise, create, entirely_finish, get_result, call_all, finish, destroy_task, co_await_task,
}
use npp.Task.Promise.Callbacks.{register_all, IsQuiet, life, life-wanted}
use npp.Task.Promise.Errors.{co_await_ended, get_result_woken, finish_throwing}
use npp.Task.Looper.{
  Looper, testing, locking, exited, worker_step, execute, shutdown, work, deactivate, clear_queue,
  wake, waiting,
}
use npp.Task.Looper.Shutdown.{IsStuck, shutdown_drains, shutdown_race, destructor_lem}

abbrev quiet : Client ℕ
quiet = record {
  on_value_call = λ f v. ok tt;
  on_error_call = λ f e. ok tt;
  on_end_call = λ f. ok tt;
}

-- Its `finally` functions throw.
abbrev noisy : Client ℕ
noisy = record {
  on_value_call = λ f v. ok tt;
  on_error_call = λ f e. ok tt;
  on_end_call = λ f. throw (user 4);
}

quietly : IsQuiet quiet (of_value 42)
quietly = record { values = λ f v. refl; errors = λ f e. refl; ends = λ f. refl; std = λ e h. cc }

abbrev before : List Callback
before = on_value 1 ∷ on_error 2 ∷ []

life_42 : (life quiet before (of_value 42) (on_end 3 ∷ [])).0 ≡ called_with 1 42 ∷ called 3 ∷ []
unfolding life register_all create on_completed complete call_all call
life_42 = refl

life-wanted_example :
    let (es, o, p) = life quiet before (of_value 42) (on_end 3 ∷ []) in
    (es ≡ called_with 1 42 ∷ called 3 ∷ [])
    × (o ≡ ok tt)
    × (entirely_finish p ≡ true)
    × ((woken : Promise ℕ) → get_result p woken ≡ get_or_throw (of_value 42))
life-wanted_example = life-wanted quiet before (on_end 3 ∷ []) (of_value 42) quietly

abbrev pending : Promise ℕ
pending = record { result = none; completion_callbacks = on_value 1 ∷ on_end 3 ∷ [] }

co_await_ended_example :
    (co_await_task (record pending { result = some (of_value 42) }) ≡ ok 42)
    × (destroy_task (record pending { result = some (of_value 42) }) pending ≡ ok tt)
    × (co_await_task (record pending { result = some (of_exception 0 (user 4)) }) ≡ abort)
    × (destroy_task (record pending { result = some (of_exception 0 (user 4)) }) pending ≡ abort)
co_await_ended_example = co_await_ended pending 0 42 (user 4)

get_result_woken_example :
    (◌≡◌ {A = Option (Result ℕ)} none none → get_result pending pending ≡ fault)
    × ((r : Result ℕ)
        → ◌≡◌ {A = Option (Result ℕ)} none (some r)
        → get_result pending pending ≡ get_or_throw r)
get_result_woken_example = get_result_woken pending pending refl

finish_throwing_example :
    let (fs, o, p') = finish noisy 0 pending 42 in
    (fs ≡ called_with 1 42 ∷ called 3 ∷ called 3 ∷ [])
    × (o ≡ throw (user 4))
    × (p'.result ≡ some (of_exception 0 (user 4)))
unfolding call_all call
finish_throwing_example =
    finish_throwing noisy 0 42 pending (called_with 1 42 ∷ called 3 ∷ []) (user 4) refl

abbrev two_jobs : Looper
two_jobs = record {
  is_active = false;
  queue = 5 ∷ 6 ∷ [];
  phase = testing;
  to_notify = 2;
  accepted = 5 ∷ 6 ∷ [];
  executed = [];
  dropped = [];
}

shutdown_drains_example :
    work 7 two_jobs ≡ record two_jobs { phase = exited; queue = []; executed = 5 ∷ 6 ∷ [] }
shutdown_drains_example = shutdown_drains (5 ∷ 6 ∷ []) two_jobs refl refl refl

-- The thread has just passed the test of its loop.
abbrev about_to_lock : Looper
about_to_lock = record two_jobs { is_active = true; queue = []; phase = locking; to_notify = 0 }

shutdown_race_example :
    let t = worker_step (shutdown false 0 0 about_to_lock) in
    IsStuck t × (worker_step t ≡ t) × ((j : ℕ) → execute t j ≡ t)
shutdown_race_example = shutdown_race false about_to_lock refl refl refl

-- At the test of its loop, with a job queued.
abbrev about_to_test : Looper
about_to_test = record two_jobs { is_active = true; to_notify = 0 }

destructor_lem_example :
    let t = shutdown false 1 0 about_to_test in
    (t.phase ≢ locking → (work 2 t).phase ≡ exited)
    × (t.phase ≡ locking
        → IsStuck (worker_step t)
          × (worker_step (worker_step t) ≡ worker_step t)
          × ((j : ℕ) → execute (worker_step t) j ≡ worker_step t))
    × (testing ≡ locking → (shutdown false 0 0 about_to_test).phase ≡ locking)
    × ((j : ℕ) (jobs : List ℕ)
        → testing ≡ testing
        → 5 ∷ 6 ∷ [] ≡ j ∷ jobs
        → (shutdown false 1 0 about_to_test).phase ≡ locking)
destructor_lem_example = destructor_lem 1 0 about_to_test refl

interrupted_shutdown : (worker_step (shutdown false 1 0 about_to_test)).phase ≡ waiting
unfolding shutdown work worker_step deactivate clear_queue wake
interrupted_shutdown = refl
