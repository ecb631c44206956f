-- ===== src/Task/Waiting.antt =====
-- src/task/TaskAwaiter.h and src/task/FutureAwaiter.h: a coroutine that waits for a task or for a
-- `std::future`, with `await_transform` of src/task/TaskPromise.h.
pub mod Tasks
use npp.Common.{ℕ, Bool, true, false, Option, none, some, List, [], ◌∷◌, if◌then◌else◌}
use npp.Common.Outcome.{Outcome, ok, throw, abort, fault, ◌>>=◌}
use npp.Basic.Exception.{Exception}
use npp.Task.Result.{Result, of_value}
use npp.Task.Awaiter.{
  Awaiter, Job, Dispatched, posted, resumed, init, install_executor, await_suspend, run_job, resume,
  resume_unsafe, take_result,
}
use npp.Task.Promise.{Promise, get_result, destroy_task}

-- When an executor runs a job: after `execute` has returned, before in the same thread as `NoopExecutor`,
-- or before in another one as `AsyncExecutor`, which waits for it.
pub data Manner : Type 0 where
  later at_once joined : Manner

-- Who holds `completion_lock` when the coroutine goes on.
pub data Holder : Type 0 where
  nobody this_thread waiting_thread : Holder

unfoldable pub holder : Bool → Manner → Holder
holder false m = nobody
holder true later = nobody
holder true at_once = this_thread
holder true joined = waiting_thread

module _ {A : Type 0} where
  -- The destructor of the awaiter, after `co_await` has given a value or thrown.
  unfoldable pub drop_awaiter : Promise A → Outcome Exception A → Outcome Exception A
  drop_awaiter p (ok v) = destroy_task p p >>= λ _. ok v
  drop_awaiter p (throw e) = destroy_task p p >>= λ _. throw e
  drop_awaiter p abort = abort
  drop_awaiter p fault = fault

  -- `await_transform`: the awaiter gets the executor of the coroutine that waits.
  unfoldable pub await_transform : Awaiter A → ℕ → Awaiter A
  await_transform a executor = install_executor a executor

  -- `TaskAwaiter::before_resume` and `await_resume`, and the destructor of the awaiter, which owns the
  -- task and calls `get_result` again. `get_result` locks `completion_lock`: where its own thread holds
  -- the lock already this is undefined, and where the thread that holds it waits for this one neither
  -- goes on, which is `none`.
  unfoldable pub await_resume : Holder → Promise A → Awaiter A → Option (Outcome Exception A)
  await_resume nobody p a = some (
      drop_awaiter p
        (get_result p p >>= λ (v : A). take_result (record a { result = some (of_value v) })))
  await_resume this_thread p a = some fault
  await_resume waiting_thread p a = none

  -- What comes of `resume_unsafe` in a thread that holds the lock or not: what the executor does with the
  -- job, or that the coroutine goes on at once.
  unfoldable pub go_on :
      (ℕ → Manner) → A → Bool → Promise A → Awaiter A → Dispatched A → Option (Outcome Exception A)
  unfolding holder
  go_on manner default is_locked p a (posted executor job) = elim (run_job default a job) [
    | ok r ↦ await_resume (holder is_locked (manner executor)) p r.1
    | throw e ↦ some (throw e)
    | abort ↦ some abort
    | fault ↦ some fault
  ]
  go_on manner default is_locked p a (resumed handle a') =
      await_resume (holder is_locked at_once) p a'

  -- `after_suspend` with the promise as it is when the callback runs.
  unfoldable pub after_callback :
      (ℕ → Manner) → A → Bool → Promise A → Awaiter A → Option (Outcome Exception A)
  unfolding go_on
  after_callback manner default is_locked p a = elim (resume_unsafe default a) [
    | ok d ↦ go_on manner default is_locked p a d
    | throw e ↦ some (throw e)
    | abort ↦ some abort
    | fault ↦ some fault
  ]

  -- `co_await` of a task in the coroutine of `handle`, where the task has ended already: `finally` calls
  -- back at once, behind the unlocking of the promise.
  unfoldable pub await_ended :
      (ℕ → Manner) → A → Promise A → Awaiter A → ℕ → Option (Outcome Exception A)
  unfolding after_callback
  await_ended manner default p a handle =
      after_callback manner default false p (await_suspend a handle)

  -- The same where the task ends later with the result `r`, which leaves the promise as `ended`: the
  -- callback runs in `notify_callbacks`, under the lock.
  unfoldable pub await_running :
      (ℕ → Manner) → A → Promise A → Awaiter A → ℕ → Option (Outcome Exception A)
  unfolding after_callback
  await_running manner default ended a handle =
      after_callback manner default true ended (await_suspend a handle)

  -- `FutureAwaiter::after_suspend`, in its thread: an exception that leaves the function of a thread
  -- terminates the program.
  unfoldable pub await_future :
      A → Outcome Exception A → Awaiter A → ℕ → Outcome Exception (Dispatched A)
  await_future default got a handle = elim got [
    | ok v ↦ resume default (await_suspend a handle) v
    | throw e ↦ abort
    | abort ↦ abort
    | fault ↦ fault
  ]
