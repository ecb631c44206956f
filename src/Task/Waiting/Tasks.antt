-- ===== src/Task/Waiting/Tasks.antt =====
-- src/task/TaskAwaiter.h: what a coroutine gets from a task, before and after the end of the task, and
-- with and without an executor that runs it later.
use npp.Common.{ℕ, ◌≡◌, refl, Option-cases, none, some, arith}
use npp.Common.Outcome.{Outcome, ok, throw, abort, fault}
use npp.Basic.Exception.{Exception}
use npp.Task.Result.{Result, of_value, get_or_throw}
use npp.Task.Awaiter.{
  Awaiter, posted, resumed, set_value, install_executor, await_suspend, run_job, resume,
  resume_unsafe, take_result,
}
use npp.Task.Promise.{Promise, get_result, destroy_task}
use npp.Task.Waiting.{
  Manner, later, at_once, joined, nobody, this_thread, waiting_thread, holder, drop_awaiter,
  after_callback, await_transform, await_resume, go_on, await_ended, await_running, await_future,
}

module _ {A : Type 0} where
  -- The value, or the end of the program where the task has failed.
  abbrev pub value_of : Result A → Outcome Exception A
  value_of r = elim r.exception_ptr [ none ↦ ok r.stored | some e ↦ abort ]

  resume_value :
      (p : Promise A) (a : Awaiter A) (r : Result A)
      → p.result ≡ some r
      → await_resume nobody p a ≡ some (value_of r)
  unfolding await_resume get_result take_result get_or_throw drop_awaiter destroy_task
  resume_value p a r e = ground (arith, Option-cases r.exception_ptr)

  locked_fault : (p : Promise A) (a : Awaiter A) → await_resume this_thread p a ≡ some fault
  unfolding await_resume
  locked_fault p a = refl

  locked_waits : (p : Promise A) (a : Awaiter A) → await_resume waiting_thread p a ≡ none
  unfolding await_resume
  locked_waits p a = refl

  -- A coroutine on an executor that runs jobs later gets the value of the task, whether the task ends
  -- before or after it begins to wait, and so does a coroutine without an executor, or on one that runs
  -- jobs at once or waits for them, where the task has ended before. Where the task has failed the
  -- program ends, since the destructor of the awaiter throws. Where the task ends later, a coroutine
  -- without an executor or on one that runs jobs at once goes on inside `notify_callbacks` and locks the
  -- promise a second time; on one that waits for its jobs both threads wait for ever.
  pub await_task_lem :
      (manner : ℕ → Manner) (default : A) (p : Promise A) (a : Awaiter A) (executor handle : ℕ)
      (r : Result A)
      → p.result ≡ some r
      → a.executor ≡ none
      → let b = await_transform a executor in
        (await_ended manner default p b handle ≡ some (value_of r))
        × (await_ended manner default p a handle ≡ some (value_of r))
        × (await_running manner default p b handle ≡ (elim (manner executor) [
          | later ↦ some (value_of r)
          | at_once ↦ some fault
          | joined ↦ none
        ]))
        × (await_running manner default p a handle ≡ some fault)
  unfolding await_transform await_ended await_running after_callback go_on holder install_executor
      await_suspend run_job resume_unsafe
  await_task_lem manner default p a executor handle r e none_yet = (
    resume_value p _ r e,
    ground (arith, none_yet, resume_value p (await_suspend a handle) r e),
    by_manner (manner executor) refl,
    ground (arith, none_yet, locked_fault p (await_suspend a handle)),
  )
    where
      by_manner :
          (x : Manner)
          → manner executor ≡ x
          → await_running manner default p (await_transform a executor) handle
            ≡ (elim (manner executor) [
              | later ↦ some (value_of r)
              | at_once ↦ some fault
              | joined ↦ none
            ])
      by_manner later q = rw q (resume_value p _ r e)
      by_manner at_once q = rw q (locked_fault p _)
      by_manner joined q = rw q (locked_waits p _)

  -- A coroutine that waits for a `std::future` goes on with its value; an exception of the future
  -- terminates the program, whatever the coroutine would do with it.
  pub await_future_lem :
      (default v : A) (e : Exception) (a : Awaiter A) (executor handle : ℕ)
      → a.executor ≡ none
      → (await_future default (ok v) (await_transform a executor) handle
          ≡ ok (posted executor (set_value v)))
        × ((a' : Awaiter A) × (await_future default (ok v) a handle ≡ ok (resumed handle a'))
            × (take_result a' ≡ ok v))
        × (await_future default (throw e) a handle ≡ abort)
  unfolding await_future await_transform install_executor await_suspend resume take_result
  await_future_lem default v e a executor handle n = (
    refl,
    (record (await_suspend a handle) { result = some (of_value v) }, ground (arith, n), refl),
    refl,
  )
