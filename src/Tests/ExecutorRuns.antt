-- ===== src/Tests/ExecutorRuns.antt =====
-- Runs of coroutines that are handed to the executors of src/task/Executor.h.
use npp.Common.{◌+◌, ◌≡◌, ◌++◌, refl, false, [], ◌∷◌}
use npp.Task.Looper
use npp.Task.Executors.{
  System, noop, looper, new_thread, async, new_system, suspend_on, Reach, dispatches, thread_runs,
  here, next,
}
use npp.Task.Executors.Dispatching.{count, begun, waiting_for, lost, Reach-dispatched_once}

-- The handle 4 goes through all kinds but one; it has run in a thread of its own, and waits for the
-- looper.
abbrev given : System
given =
    suspend_on false looper 4 (
      suspend_on false new_thread 4 (suspend_on false async 4 (suspend_on false noop 4 new_system)))

abbrev thread_ran : System
thread_ran = record given { threads = []; ran = given.ran ++ 4 ∷ [] }

Reach-thread_ran : Reach false new_system thread_ran
unfolding suspend_on new_system
Reach-thread_ran =
    next
      (next
        (next (next (next here (dispatches noop 4 refl)) (dispatches async 4 refl))
          (dispatches new_thread 4 refl))
        (dispatches looper 4 refl))
      (thread_runs 4 [] [] refl refl)

begun_and_waiting : (begun 4 thread_ran ≡ 3) × (waiting_for 4 thread_ran ≡ 1)
unfolding suspend_on new_system npp.Task.Looper.init npp.Task.Looper.execute
    npp.Task.Elastic.Crew.new_crew
begun_and_waiting = (refl, refl)

Reach-dispatched_once_example :
    count 4 thread_ran.given ≡ begun 4 thread_ran + waiting_for 4 thread_ran + lost 4 thread_ran
Reach-dispatched_once_example = Reach-dispatched_once false 4 Reach-thread_ran
